-- ===== src/Lut.antt =====
-- src/drmmode_display.c, drmmode_lut_interpolate and drmmode_lut_compose: the 256-entry legacy gamma
-- ramp of RandR is resized to the kernel's lookup table, and composed with it. Both work on each of
-- the three colours alone; a colour's table is a list of 16-bit values.
pub mod Tables
pub mod Samples
use xf86_video_amdgpu.Prelude.{
  ℕ, zero, suc, ◌+◌, ◌-◌, ◌*◌, ◌/◌, ◌%◌, ◌^◌, Option, none, some, List, [], ◌∷◌, if◌then◌else◌,
  ◌==◌, get_elem?,
}
use xf86_video_amdgpu.Msc.{u32, sub32}
use xf86_video_amdgpu.DrmQueue.{◌>>=◌}

-- The table entries left and right of the sample point `i`.
abbrev pub left_index : (i a_max b_max : ℕ) → ℕ
left_index i a_max b_max = u32 (i * a_max) / b_max

abbrev pub right_index : (l a_max : ℕ) → ℕ
right_index l a_max = if sub32 a_max l == 0 then l else u32 (l + 1)

-- How far the sample point lies to the right of the left entry, times b_max.
abbrev pub coefficient : (i l a_max b_max : ℕ) → ℕ
coefficient i l a_max b_max = sub32 (u32 (i * a_max)) (u32 (l * b_max))

-- The interpolated value, times b_max, in uint32_t arithmetic.
abbrev pub blend : (b_max coeff left right : ℕ) → ℕ
blend b_max coeff left right = u32 (u32 (b_max * left) + u32 (coeff * sub32 right left))

-- One sample, times b_max. `none`: a division by 0, or a read outside the table.
unfoldable pub sample : List ℕ → (a_max b_max i : ℕ) → Option ℕ
sample a a_max b_max i = if b_max == 0 then none else (do
  left ← get_elem? a (left_index i a_max b_max)
  right ← get_elem? a (right_index (left_index i a_max b_max) a_max)
  some (blend b_max (coefficient i (left_index i a_max b_max) a_max b_max) left right))

-- The loop over the samples from `i` on, of which `n` are left.
unfoldable pub samples : (ℕ → Option ℕ) → (i n : ℕ) → Option (List ℕ)
samples f i zero = some []
samples f i (suc n) = do y ← f i; ys ← samples f (i + 1) n; some (y ∷ ys)

unfoldable pub interpolated : List ℕ → (a_max b_max i : ℕ) → Option ℕ
interpolated a a_max b_max i = sample a a_max b_max i >>= λ v. some (v / b_max % 2 ^ 16)

unfoldable pub lut_interpolate : List ℕ → (len_in len_out : ℕ) → Option (List ℕ)
lut_interpolate a len_in len_out =
    samples (interpolated a (sub32 len_in 1) (sub32 len_out 1)) 0 len_out

abbrev pub max_lut : ℕ
max_lut = 65535

unfoldable pub composed : List ℕ → List ℕ → (a_max b_max i : ℕ) → Option ℕ
composed a b a_max b_max i = sample a a_max b_max i >>= λ v. get_elem? b (v / max_lut)

unfoldable pub lut_compose : List ℕ → List ℕ → (len_a len_b : ℕ) → Option (List ℕ)
lut_compose a b len_a len_b = samples (composed a b (sub32 len_a 1) (sub32 len_b 1)) 0 len_b
