-- ===== src/Pixmap/Align.antt =====
-- src/amdgpu_drv.h, AMDGPU_ALIGN, and src/amdgpu_bo_helper.c: the pitch and the size of a buffer.
use xf86_video_amdgpu.Prelude.{
  ℕ, zero, suc, ◌+◌, ◌-◌, ◌*◌, ◌/◌, ◌%◌, ◌^◌, ◌≤◌, ◌<◌, ◌≡◌, refl, ◌∙◌, ◌⊎◌, Bool, false, ◌&&◌,
  ◌==◌, arith,
}
use native.Mathlib.Nat.{div-div-eq-div-mul}
use xf86_video_amdgpu.Pixmap.{and_not, align, Settings}

doubled : (k : ℕ) → 2 ^ suc k ≡ 2 * 2 ^ k
doubled k = omega arith

power_pos : (k : ℕ) → 0 < 2 ^ k
power_pos zero = omega arith
power_pos (suc k) = rw (doubled k) (omega (arith, power_pos k))

and_not-nothing : (w x : ℕ) → x < 2 ^ w → and_not w x 0 ≡ x
unfolding and_not
and_not-nothing zero x lt = omega arith
and_not-nothing (suc w) x lt =
    let ih = and_not-nothing w (x / 2) (omega (arith, rw (doubled w) at lt)) in rw ih (ground arith)

and_false : (b : Bool) → (b && false) ≡ false
and_false b = ground arith

and_not-double :
    (w q x : ℕ)
    → 0 < q
    → and_not w (x / 2) (q - 1) ≡ x / 2 / q * q
    → and_not (suc w) x (2 * q - 1) ≡ x / (2 * q) * (2 * q)
unfolding and_not
and_not-double w q x pos ih =
    let odd : (2 * q - 1) % 2 ≡ 1 = omega arith in
    let half : (2 * q - 1) / 2 ≡ q - 1 = omega arith in
    rw (odd, half, ih, div-div-eq-div-mul x 2 q, and_false (x % 2 == 1)) (omega arith)

-- Clearing the bits below a power of two drops the remainder.
and_not-mask : (w k x : ℕ) → k ≤ w → x < 2 ^ w → and_not w x (2 ^ k - 1) ≡ x / 2 ^ k * 2 ^ k
and_not-mask w zero x le lt = and_not-nothing w x lt ∙ omega arith
and_not-mask zero (suc k) x le lt = absurd (omega arith)
and_not-mask (suc w) (suc k) x le lt =
    let q = 2 ^ k in
    let ih = and_not-mask w k (x / 2) (omega arith) (omega (arith, rw (doubled w) at lt)) in
    rw (doubled k) (and_not-double w q x (power_pos k) ih)

-- Where the sum does not leave 32 bits, AMDGPU_ALIGN is the rounding up to a multiple of a power of
-- two.
pub align-power :
    (x k : ℕ) → k ≤ 32 → x + 2 ^ k ≤ 2 ^ 32 → align x (2 ^ k) ≡ (x + 2 ^ k - 1) / 2 ^ k * 2 ^ k
unfolding align
align-power x k le fits =
    let pos = power_pos k in
    let sum : x + (2 ^ k - 1) ≡ x + 2 ^ k - 1 = omega (arith, pos) in
    and_not-mask 32 k (x + (2 ^ k - 1)) le (omega (arith, pos)) ∙ rw sum refl

-- The group sizes of the hardware, and pixels of 1, 2 or 4 bytes.
abbrev pub IsSupported : Settings → ℕ → Type 0
IsSupported i cpp =
    ((i.group_bytes ≡ 256) ⊎ (i.group_bytes ≡ 512)) × ((cpp ≡ 1) ⊎ (cpp ≡ 2) ⊎ (cpp ≡ 4))
