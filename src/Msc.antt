-- ===== src/Msc.antt =====
-- The frame count (MSC) and its time (UST) of a CRTC, also while it is off: src/amdgpu_dri2.c
-- (amdgpu_get_msc_delta, amdgpu_dri2_get_crtc_msc, amdgpu_dri2_drawable_crtc, amdgpu_dri2_get_msc)
-- and src/drmmode_display.c (drmmode_do_crtc_dpms).
pub mod Continuity
use xf86_video_amdgpu.Prelude.{
  ℕ, ◌+◌, ◌-◌, ◌*◌, ◌/◌, ◌%◌, ◌^◌, Bool, true, false, ◌&&◌, not, Option, none, some, if◌then◌else◌,
  ◌==◌, ltb,
}

-- uint32_t and CARD64 arithmetic, on values in range.
abbrev pub u32 : ℕ → ℕ
u32 n = n % 2 ^ 32

abbrev pub u64 : ℕ → ℕ
u64 n = n % 2 ^ 64

abbrev pub sub32 : ℕ → ℕ → ℕ
sub32 a b = (a + 2 ^ 32 - b) % 2 ^ 32

abbrev pub sub64 : ℕ → ℕ → ℕ
sub64 a b = (a + 2 ^ 64 - b) % 2 ^ 64

-- An int added to a CARD64: its 32-bit pattern, sign extended.
abbrev pub sign_extend : ℕ → ℕ
sign_extend n = if ltb n (2 ^ 31) then n else n + (2 ^ 64 - 2 ^ 32)

-- The timing fields of drmmode_crtc_private_rec. The nominal frame rate is an int that the code
-- sets to values that are not negative.
pub record Timing : Type 0 where
  pub dpms_on : Bool
  pub dpms_last_ust : ℕ
  pub dpms_last_seq : ℕ
  pub dpms_last_fps : ℕ
  pub interpolated_vblanks : ℕ

-- A computed value, the error return, or the signal of a division by 0.
pub data Reading (A : Type 0) : Type 0 where
  ok : A → Reading A
  failed crash : Reading A

pub record UstMsc : Type 0 where
  pub ust : ℕ
  pub msc : ℕ

-- The frames since the CRTC was switched off, from the clock.
abbrev pub elapsed_frames : ℕ → Timing → ℕ
elapsed_frames now t = u64 (sub64 now t.dpms_last_ust * t.dpms_last_fps) / 1000000

-- amdgpu_get_msc_delta: `window` is the field vblank_delta of a window, and none of a pixmap.
unfoldable pub get_msc_delta : Timing → Option ℕ → ℕ
get_msc_delta t none = t.interpolated_vblanks
get_msc_delta t (some vblank_delta) = u32 (t.interpolated_vblanks + vblank_delta)

-- The branch of amdgpu_dri2_get_crtc_msc for a CRTC that does not run. `clock` is the result of
-- drmmode_get_current_ust.
unfoldable pub extrapolate_msc : Option ℕ → Timing → Reading UstMsc
extrapolate_msc clock t = if t.dpms_last_ust == 0 then failed else (elim clock [
  | none ↦ failed
  | some now ↦
      if t.dpms_last_fps == 0
      then crash
      else ok (record {
        ust = u64 (t.dpms_last_ust + u64 (elapsed_frames now t * 1000000) / t.dpms_last_fps);
        msc = u64 (t.dpms_last_seq + elapsed_frames now t);
      })
])

abbrev pub add_interpolated : Timing → Reading UstMsc → Reading UstMsc
add_interpolated t (ok r) = ok (record r { msc = u64 (r.msc + t.interpolated_vblanks) })
add_interpolated t failed = failed
add_interpolated t crash = crash

-- amdgpu_dri2_get_crtc_msc. `enabled` is crtc->enabled, and `vblank` what
-- drmmode_crtc_get_ust_msc gives.
unfoldable pub get_crtc_msc : (enabled : Bool) → Option UstMsc → Option ℕ → Timing → Reading UstMsc
get_crtc_msc enabled vblank clock t = add_interpolated t (
    if enabled && t.dpms_on
    then (elim vblank [ some r ↦ ok r | none ↦ extrapolate_msc clock t ])
    else extrapolate_msc clock t)

-- amdgpu_dri2_get_msc, once the CRTC of the drawable is known.
unfoldable pub get_msc : (crtc : Option (Reading UstMsc)) → (window : Option ℕ) → Reading UstMsc
get_msc none window = ok (record { ust = 0; msc = 0 })
get_msc (some failed) window = failed
get_msc (some crash) window = crash
get_msc (some (ok r)) window = ok (record r {
  msc =
      u32
        (elim window [ none ↦ r.msc | some vblank_delta ↦ u64 (r.msc + sign_extend vblank_delta) ]);
})

-- What amdgpu_dri2_drawable_crtc adds to vblank_delta when a window moves to another CRTC.
unfoldable pub move_window : (vblank_delta : ℕ) → (old new : Reading UstMsc) → Reading ℕ
move_window delta (ok old) (ok new) = ok (u32 (delta + sub64 old.msc new.msc))
move_window delta crash new = crash
move_window delta failed new = ok delta
move_window delta (ok old) crash = crash
move_window delta (ok old) failed = ok delta

-- struct dri2_window_priv: the CRTC that the window was last seen on, and the difference that its
-- moves have made.
pub record WindowPriv : Type 0 where
  pub crtc : Option ℕ
  pub vblank_delta : ℕ

abbrev pub moved_to : WindowPriv → ℕ → Reading ℕ → Reading (WindowPriv × Option ℕ)
moved_to priv c (ok delta) = ok (record { crtc = some c; vblank_delta = delta }, some c)
moved_to priv c failed = failed
moved_to priv c crash = crash

-- amdgpu_dri2_drawable_crtc of a window: `pick` is the result of amdgpu_pick_best_crtc, and
-- `reading` that of amdgpu_dri2_get_crtc_msc of a CRTC.
unfoldable pub drawable_crtc :
    (pick : Option ℕ)
    → (reading : ℕ → Reading UstMsc) → WindowPriv
    → Reading (WindowPriv × Option ℕ)
drawable_crtc none reading priv = ok (priv, priv.crtc)
drawable_crtc (some c) reading priv = elim priv.crtc [
  | none ↦ ok (record priv { crtc = some c }, some c)
  | some old ↦
      if old == c
      then ok (priv, some c)
      else moved_to priv c (move_window priv.vblank_delta (reading old) (reading c))
]

-- The nominal frame rate of the mode: Clock in kHz, and the pixels of a frame.
unfoldable pub nominal_frame_rate : (clock htotal vtotal : ℕ) → ℕ
nominal_frame_rate clock htotal vtotal =
    if (clock * 1000 == 0)
    then 60
    else if htotal * vtotal == 0
    then 60
    else clock * 1000 / (htotal * vtotal)

-- drmmode_do_crtc_dpms from on to off, after amdgpu_drm_wait_pending_flip. `vblank` is what
-- drmmode_wait_vblank gives: the time and the number of the last vblank.
unfoldable pub dpms_off : (fps : ℕ) → Option UstMsc → Timing → Timing
dpms_off fps none t = record t { dpms_on = false }
dpms_off fps (some r) t = record t {
  dpms_on = false;
  dpms_last_ust = r.ust;
  dpms_last_seq = r.msc;
  dpms_last_fps = fps;
}

-- drmmode_do_crtc_dpms from off to on.
unfoldable pub dpms_on : Option ℕ → Timing → Timing
dpms_on none t = record t { dpms_on = true }
dpms_on (some now) t = if t.dpms_last_ust == 0 then record t { dpms_on = true } else record t {
  dpms_on = true;
  interpolated_vblanks = u32 (t.interpolated_vblanks + elapsed_frames now t);
}
