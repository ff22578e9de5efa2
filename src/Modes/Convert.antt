-- ===== src/Modes/Convert.antt =====
-- src/drmmode_display.c, drmmode_ConvertFromKMode and drmmode_ConvertToKMode.
use xf86_video_amdgpu.Prelude.{
  ℕ, zero, suc, ◌%◌, ◌^◌, ◌≤◌, ◌<◌, ◌≡◌, refl, ap, true, false, List, [], ◌∷◌, length, take, arith,
}
use xf86_video_amdgpu.Modes.{Timings, KMode, narrowed, convert_from_kmode, convert_to_kmode}

-- The widths of the kernel's fields.
pub record FitsKernel (t : Timings) : Type 0 where
  pub clock : t.clock < 2 ^ 32
  pub hdisplay : t.hdisplay < 2 ^ 16
  pub hsync_start : t.hsync_start < 2 ^ 16
  pub hsync_end : t.hsync_end < 2 ^ 16
  pub htotal : t.htotal < 2 ^ 16
  pub hskew : t.hskew < 2 ^ 16
  pub vdisplay : t.vdisplay < 2 ^ 16
  pub vsync_start : t.vsync_start < 2 ^ 16
  pub vsync_end : t.vsync_end < 2 ^ 16
  pub vtotal : t.vtotal < 2 ^ 16
  pub vscan : t.vscan < 2 ^ 16
  pub flags : t.flags < 2 ^ 32

fits_mod : (n m : ℕ) → n < m → n % m ≡ n
fits_mod n m h = grind arith

narrowed_lem : (t : Timings) → FitsKernel t → narrowed t ≡ t
unfolding narrowed
narrowed_lem t f =
    rw
      (
        fits_mod t.clock (2 ^ 32) f.clock,
        fits_mod t.hdisplay (2 ^ 16) f.hdisplay,
        fits_mod t.hsync_start (2 ^ 16) f.hsync_start,
        fits_mod t.hsync_end (2 ^ 16) f.hsync_end,
        fits_mod t.htotal (2 ^ 16) f.htotal,
        fits_mod t.hskew (2 ^ 16) f.hskew,
        fits_mod t.vdisplay (2 ^ 16) f.vdisplay,
        fits_mod t.vsync_start (2 ^ 16) f.vsync_start,
        fits_mod t.vsync_end (2 ^ 16) f.vsync_end,
        fits_mod t.vtotal (2 ^ 16) f.vtotal,
        fits_mod t.vscan (2 ^ 16) f.vscan,
        fits_mod t.flags (2 ^ 32) f.flags,
        narrowed,
      )
      refl

take-all : (n : ℕ) (cs : List ℕ) → length cs ≤ n → take n cs ≡ cs
take-all zero [] h = refl
take-all zero (c ∷ cs) h = absurd (omega arith)
take-all (suc n) [] h = refl
take-all (suc n) (c ∷ cs) h = ap (λ z. c ∷ z) (take-all n cs (omega arith))

-- A mode of the kernel, with fields of the kernel's widths and a name of at most 31 characters, that is
-- converted to one of the X server, where strdup succeeds, and back keeps its timings and its name; the
-- type and the refresh rate are cleared.
pub convert_to_kmode-convert_from_kmode :
    (k : KMode)
    → FitsKernel k.timings
    → length k.name ≤ 31
    → convert_to_kmode (convert_from_kmode true k)
      ≡ record k { vrefresh = 0; is_driver = false; is_preferred = false }
unfolding convert_to_kmode convert_from_kmode
convert_to_kmode-convert_from_kmode k fit short =
    rw (narrowed_lem k.timings fit, take-all 31 k.name short) refl
