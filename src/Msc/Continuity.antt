-- ===== src/Msc/Continuity.antt =====
-- src/amdgpu_dri2.c and src/drmmode_display.c: the frame count that a drawable is given around a
-- switch of its CRTC and a move to another one, and the extrapolated count.
use xf86_video_amdgpu.Prelude.{
  ℕ, ◌+◌, ◌-◌, ◌*◌, ◌/◌, ◌^◌, ◌≤◌, ◌<◌, ◌≡◌, ◌≢◌, refl, true, false, Option, none, some, ◌==◌,
  arith, div-le_of_le_mul, Bool-cases, inl, inr, ap, ==_iff,
}
use xf86_video_amdgpu.Msc.{
  Timing, UstMsc, WindowPriv, Reading, ok, failed, crash, u32, sub64, get_msc, get_crtc_msc,
  extrapolate_msc, move_window, drawable_crtc, dpms_on, elapsed_frames,
}

abbrev pub msc_of : Reading UstMsc → Option ℕ
msc_of (ok r) = some r.msc
msc_of failed = none
msc_of crash = none

-- When the CRTCs of the old and of the new place of a window both have a frame count, the count
-- that the window is given is the same before and after amdgpu_dri2_drawable_crtc notes the move.
pub drawable_crtc-continuous :
    (reading : ℕ → Reading UstMsc) (priv : WindowPriv) (old c : ℕ) (o n : UstMsc)
    → priv.crtc ≡ some old
    → reading old ≡ ok o
    → reading c ≡ ok n
    → priv.vblank_delta < 2 ^ 32
    → o.msc < 2 ^ 64
    → n.msc < 2 ^ 64
    → (priv' : WindowPriv) × (drawable_crtc (some c) reading priv ≡ ok (priv', some c))
      × (priv'.crtc ≡ some c)
      × (msc_of (get_msc (some (reading c)) (some priv'.vblank_delta))
          ≡ msc_of (get_msc (some (reading old)) (some priv.vblank_delta)))
unfolding drawable_crtc move_window get_msc
drawable_crtc-continuous reading priv old c o n on ro rc small lo ln =
    elim (Bool-cases (old == c)) [
      | inl same ↦
          (priv, ground arith, ground arith, ground (arith, ap reading ((==_iff old c).0 same)))
      | inr moved ↦ (
        record { crtc = some c; vblank_delta = u32 (priv.vblank_delta + sub64 o.msc n.msc) },
        ground arith,
        refl,
        ground arith,
      )
    ]

-- Where a CRTC had a vblank recorded when it was switched off, and a frame rate, its count while it is
-- off is extrapolated; if the kernel's counter stands still meanwhile, switching the CRTC on does not
-- change the count that a drawable is given at that time.
pub dpms_on-continuous :
    (t : Timing) (now ust : ℕ) (window : Option ℕ)
    → t.dpms_on ≡ false
    → t.dpms_last_ust ≢ 0
    → t.dpms_last_fps ≢ 0
    → let vblank : UstMsc = record { ust = ust; msc = t.dpms_last_seq } in
      (m : ℕ) × (msc_of (get_msc (some (get_crtc_msc true none (some now) t)) window) ≡ some m)
      × (msc_of (
            get_msc
              (some (get_crtc_msc true (some vblank) (some now) (dpms_on (some now) t)))
              window)
          ≡ some m)
unfolding get_msc get_crtc_msc dpms_on extrapolate_msc
dpms_on-continuous t now ust none off seen rate = (
  u32 (t.dpms_last_seq + elapsed_frames now t + t.interpolated_vblanks),
  ground arith,
  ground arith,
)
dpms_on-continuous t now ust (some delta) off seen rate = (
  u32 (t.dpms_last_seq + elapsed_frames now t + t.interpolated_vblanks + delta),
  ground arith,
  ground arith,
)

-- The extrapolated time and count lie between the last vblank and now, where the product of the
-- elapsed time and the frame rate fits 64 bits.
pub extrapolate_msc_bounds :
    (t : Timing) (now : ℕ) (r : UstMsc)
    → t.dpms_last_ust ≤ now
    → now < 2 ^ 64
    → (now - t.dpms_last_ust) * t.dpms_last_fps < 2 ^ 64
    → t.dpms_last_seq < 2 ^ 32
    → extrapolate_msc (some now) t ≡ ok r
    → (t.dpms_last_ust ≤ r.ust) × (r.ust ≤ now) × (t.dpms_last_seq ≤ r.msc)
unfolding extrapolate_msc
extrapolate_msc_bounds t now r le small room seq runs = ground (
  arith,
  elapsed,
  frames,
  div-le_of_le_mul (elapsed_frames now t * 1000000) (now - t.dpms_last_ust) t.dpms_last_fps,
)
  where
    elapsed : sub64 now t.dpms_last_ust ≡ now - t.dpms_last_ust
    elapsed = omega arith

    frames : elapsed_frames now t ≡ (now - t.dpms_last_ust) * t.dpms_last_fps / 1000000
    frames = rw elapsed (omega arith)
