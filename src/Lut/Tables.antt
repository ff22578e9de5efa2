-- ===== src/Lut/Tables.antt =====
-- src/drmmode_display.c: the tables that drmmode_lut_interpolate and drmmode_lut_compose write.
use xf86_video_amdgpu.Prelude.{
  ℕ, suc, ◌+◌, ◌-◌, ◌*◌, ◌/◌, ◌%◌, ◌^◌, ◌≤◌, ◌<◌, ◌≡◌, refl, ap, ◌∙◌, false, some, List, [], ◌∷◌,
  ◌==◌, get_elem?, length, arith, div-le_of_le_mul, le-div_of_mul_le,
}
use Prim.Native.Nat.{max, min}
use native.Mathlib.Nat.{mul-le-mul_right, mul-div_cancel}
use xf86_video_amdgpu.Msc.{u32, sub32}
use xf86_video_amdgpu.Lut.{
  left_index, right_index, coefficient, blend, sample, interpolated, lut_interpolate, composed,
  lut_compose, max_lut,
}
use xf86_video_amdgpu.Lut.Samples.{IsLut, sample_lem, samples_from_start, get_elem?-some}

-- A resized entry lies between two neighbouring entries of the table.
pub record IsBetween (a : List ℕ) (a_max b_max i y : ℕ) : Type 0 where
  pub left : ℕ
  pub right : ℕ
  pub at_left : get_elem? a (left_index i a_max b_max) ≡ some left
  pub at_right : get_elem? a (right_index (left_index i a_max b_max) a_max) ≡ some right
  pub above : min left right ≤ y
  pub below : y ≤ max left right

-- A composed entry is one of `b`, at the index that a value between two neighbouring entries of
-- `a` has on the scale of `b`.
pub record IsComposed (a b : List ℕ) (a_max b_max i y : ℕ) : Type 0 where
  pub left : ℕ
  pub right : ℕ
  pub at_left : get_elem? a (left_index i a_max b_max) ≡ some left
  pub at_right : get_elem? a (right_index (left_index i a_max b_max) a_max) ≡ some right
  pub index : ℕ
  pub entry : get_elem? b index ≡ some y
  pub above : b_max * min left right < (index + 1) * max_lut
  pub below : index * max_lut ≤ b_max * max left right

interpolated_lem :
    (a : List ℕ) (a_max b_max i : ℕ)
    → length a ≡ a_max + 1
    → IsLut a
    → 0 < b_max
    → i ≤ b_max
    → a_max < 2 ^ 16
    → b_max < 2 ^ 16
    → (y : ℕ) × (interpolated a a_max b_max i ≡ some y) × IsBetween a a_max b_max i y
unfolding interpolated
interpolated_lem a a_max b_max i len lut pos h ha hb =
    let (l, r, v, at_l, at_r, runs, lo, hi, small_l, small_r) =
      sample_lem a a_max b_max i len lut pos h ha hb in
    let above : min l r ≤ v / b_max = le-div_of_mul_le v (min l r) b_max pos (omega (arith, lo)) in
    let below : v / b_max ≤ max l r = div-le_of_le_mul v (max l r) b_max pos (omega (arith, hi)) in
    let fits : v / b_max % 2 ^ 16 ≡ v / b_max = omega (arith, below) in
    (
      v / b_max,
      rw (runs, interpolated) (ap some fits),
      record { left = l; right = r; at_left = at_l; at_right = at_r; above = above; below = below },
    )

-- drmmode_lut_interpolate of a table with 1 up to 65536 entries of 16 bits, to a size from 2 up to
-- 65536, neither reads outside the table nor overflows: it writes `len_out` entries, each of them between
-- the two entries of the table next to its place.
pub lut_interpolate-total :
    (a : List ℕ) (len_in len_out : ℕ)
    → length a ≡ len_in
    → 0 < len_in
    → len_in ≤ 2 ^ 16
    → 1 < len_out
    → len_out ≤ 2 ^ 16
    → IsLut a
    → (out : List ℕ) × (lut_interpolate a len_in len_out ≡ some out)
      × (length out ≡ len_out)
      × ((i : ℕ)
          → i < len_out
          → (y : ℕ) × (get_elem? out i ≡ some y) × IsBetween a (len_in - 1) (len_out - 1) i y)
unfolding lut_interpolate
lut_interpolate-total a len_in len_out len pos_in le_in pos_out le_out lut =
    let a_max : sub32 len_in 1 ≡ len_in - 1 = omega arith in
    let b_max : sub32 len_out 1 ≡ len_out - 1 = omega arith in
    let (out, runs, size, at) =
      samples_from_start (interpolated a (len_in - 1) (len_out - 1)) len_out
        (λ k hk. let (y, eq, _) = entry k hk in (y, eq)) in
    (
      out,
      rw (a_max, b_max) runs,
      size,
      λ i hi. let (y, eq, between) = entry i hi in (y, at i hi ∙ eq, between),
    )
  where
    entry :
        (k : ℕ)
        → k < len_out
        → (y : ℕ) × (interpolated a (len_in - 1) (len_out - 1) k ≡ some y)
          × IsBetween a (len_in - 1) (len_out - 1) k y
    entry k hk =
        interpolated_lem a (len_in - 1) (len_out - 1) k (omega arith) lut (omega arith)
          (omega arith) (omega arith) (omega arith)

composed_lem :
    (a b : List ℕ) (a_max b_max i : ℕ)
    → length a ≡ a_max + 1
    → length b ≡ b_max + 1
    → IsLut a
    → 0 < b_max
    → i ≤ b_max
    → a_max < 2 ^ 16
    → b_max < 2 ^ 16
    → (y : ℕ) × (composed a b a_max b_max i ≡ some y) × IsComposed a b a_max b_max i y
unfolding composed
composed_lem a b a_max b_max i len len_b lut pos h ha hb =
    let (l, r, v, at_l, at_r, runs, lo, hi, small_l, small_r) =
      sample_lem a a_max b_max i len lut pos h ha hb in
    let top : max l r * b_max ≤ 65535 * b_max = mul-le-mul_right b_max (omega arith) in
    let (y, at) = get_elem?-some b (v / max_lut) (omega (arith, top, hi)) in
    (
      y,
      rw (runs, composed) at,
      record {
        left = l;
        right = r;
        at_left = at_l;
        at_right = at_r;
        index = v / max_lut;
        entry = at;
        above = omega (arith, lo);
        below = omega (arith, hi);
      },
    )

-- drmmode_lut_compose of a table with 1 up to 65536 entries of 16 bits and one with 2 up to 65536
-- entries reads neither out of its bounds: it writes
-- `len_b` entries, each an entry of the second table at the index that the first table's value, from
-- between two neighbouring entries, has there.
pub lut_compose-total :
    (a b : List ℕ) (len_a len_b : ℕ)
    → length a ≡ len_a
    → length b ≡ len_b
    → 0 < len_a
    → len_a ≤ 2 ^ 16
    → 1 < len_b
    → len_b ≤ 2 ^ 16
    → IsLut a
    → (out : List ℕ) × (lut_compose a b len_a len_b ≡ some out)
      × (length out ≡ len_b)
      × ((i : ℕ)
          → i < len_b
          → (y : ℕ) × (get_elem? out i ≡ some y) × IsComposed a b (len_a - 1) (len_b - 1) i y)
unfolding lut_compose
lut_compose-total a b len_a len_b la lb pos_a le_a pos_b le_b lut =
    let a_max : sub32 len_a 1 ≡ len_a - 1 = omega arith in
    let b_max : sub32 len_b 1 ≡ len_b - 1 = omega arith in
    let (out, runs, size, at) =
      samples_from_start (composed a b (len_a - 1) (len_b - 1)) len_b
        (λ k hk. let (y, eq, _) = entry k hk in (y, eq)) in
    (
      out,
      rw (a_max, b_max) runs,
      size,
      λ i hi. let (y, eq, is) = entry i hi in (y, at i hi ∙ eq, is),
    )
  where
    entry :
        (k : ℕ)
        → k < len_b
        → (y : ℕ) × (composed a b (len_a - 1) (len_b - 1) k ≡ some y)
          × IsComposed a b (len_a - 1) (len_b - 1) k y
    entry k hk =
        composed_lem a b (len_a - 1) (len_b - 1) k (omega arith) (omega arith) lut (omega arith)
          (omega arith) (omega arith) (omega arith)

list_eq :
    (xs ys : List ℕ)
    → length xs ≡ length ys
    → ((k : ℕ) → k < length ys → get_elem? xs k ≡ get_elem? ys k)
    → xs ≡ ys
list_eq [] [] h e = refl
list_eq [] (y ∷ ys) h e = absurd (omega arith)
list_eq (x ∷ xs) [] h e = absurd (omega arith)
list_eq (x ∷ xs) (y ∷ ys) h e =
    let tails = list_eq xs ys (omega arith) (λ k hk. e (suc k) (omega arith)) in
    let heads = e 0 (omega arith) in cc

interpolated_same :
    (a : List ℕ) (m i : ℕ)
    → length a ≡ m + 1
    → IsLut a
    → 0 < m
    → i ≤ m
    → m < 2 ^ 16
    → interpolated a m m i ≡ get_elem? a i
unfolding interpolated sample
interpolated_same a m i len lut pos h hm =
    let (l, at_l) = get_elem?-some a i (omega arith) in
    let (r, at_r) = get_elem?-some a (right_index i m) (omega (arith, right)) in
    rw (nonzero, interpolated)
      (rw (left, here) (rw (at_l, at_r) (ap some (exact l r (lut i l at_l)))))
  where
    nonzero : (m == 0) ≡ false
    nonzero = ground arith

    small : i * m ≤ 65535 * m
    small = mul-le-mul_right m (omega arith)

    left : left_index i m m ≡ i
    left = rw (u32_small) (mul-div_cancel i pos)
      where
        u32_small : u32 (i * m) ≡ i * m
        u32_small = omega (arith, small)

    right : right_index i m ≤ m
    right = ground arith

    here : coefficient i i m m ≡ 0
    here = omega arith

    exact : (l r : ℕ) → l < 2 ^ 16 → blend m 0 l r / m % 2 ^ 16 ≡ l
    exact l r hl = rw plain (rw (mul-div_cancel l pos) (omega arith))
      where
        below : l * m ≤ 65535 * m
        below = mul-le-mul_right m (omega arith)

        plain : blend m 0 l r ≡ l * m
        plain = omega (arith, below)

-- Resizing a table of 2 up to 65536 values of 16 bits to the size that it has does not change it.
pub lut_interpolate-same :
    (a : List ℕ) (len : ℕ)
    → length a ≡ len
    → 1 < len
    → len ≤ 2 ^ 16
    → IsLut a
    → lut_interpolate a len len ≡ some a
unfolding lut_interpolate
lut_interpolate-same a len la pos le lut =
    let max : sub32 len 1 ≡ len - 1 = omega arith in
    let same = λ (k : ℕ) (hk : k < len).
      interpolated_same a (len - 1) k (omega arith) lut (omega arith) (omega arith) (omega arith) in
    let (out, runs, size, at) =
      samples_from_start (interpolated a (len - 1) (len - 1)) len
        (λ k hk. let (y, eq) = get_elem?-some a k (omega arith) in (y, same k hk ∙ eq)) in
    rw max (
      runs
      ∙ ap some (list_eq out a (omega arith) (λ k hk. at k (omega arith) ∙ same k (omega arith))))
