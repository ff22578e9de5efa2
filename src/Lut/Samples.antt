-- ===== src/Lut/Samples.antt =====
-- src/drmmode_display.c: the samples that drmmode_lut_interpolate and drmmode_lut_compose take.
use xf86_video_amdgpu.Prelude.{
  ℕ, zero, suc, ◌+◌, ◌-◌, ◌*◌, ◌%◌, ◌^◌, ◌≤◌, ◌<◌, ◌≡◌, refl, ap, sym, ◌∙◌, false, Option, some,
  List, [], ◌∷◌, ◌==◌, get_elem?, length, arith, div-le_of_le_mul,
}
use Prim.Native.Nat.{max, min}
use native.Mathlib.Decide.{dec_lt}
use native.Mathlib.Nat.{div-add-mod', mul-le-mul_right, mod-lt, mul-add-mod_self_right}
use xf86_video_amdgpu.Msc.{u32, sub32}
use xf86_video_amdgpu.Lut.{left_index, right_index, coefficient, blend, sample, samples}

-- The value of a sample lies between the two entries that it is made of, without an overflow.
blend_rising :
    (b c x d : ℕ)
    → c ≤ b
    → b < 2 ^ 16
    → x + d < 2 ^ 16
    → (blend b c x (x + d) ≡ b * x + c * d) × (b * x + c * d ≤ b * (x + d))
blend_rising b c x d h hb hx = (omega (arith, products, differ, wraps), omega (arith, products))
  where
    products : (c * d ≤ b * d) × (b * x ≤ 65535 * x) × (b * d ≤ 65535 * d)
    products =
        (mul-le-mul_right d h, mul-le-mul_right x (omega arith), mul-le-mul_right d (omega arith))

    differ : sub32 (x + d) x ≡ d
    differ = omega arith

    wraps : blend b c x (x + d) ≡ u32 (u32 (b * x) + u32 (c * d))
    wraps = rw differ refl

negated_product : (c d : ℕ) → d < 2 ^ 16 → c * d < 2 ^ 32 → u32 (c * sub32 0 d) ≡ sub32 0 (c * d)
negated_product zero d h hp = omega arith
negated_product (suc c) zero h hp = omega arith
negated_product (suc c) (suc d) h hp =
    rw split (mul-add-mod_self_right c (2 ^ 32) (2 ^ 32 - suc c * suc d))
  where
    complement : sub32 0 (suc d) + suc d ≡ 2 ^ 32
    complement = omega arith

    split : suc c * sub32 0 (suc d) ≡ c * 2 ^ 32 + (2 ^ 32 - suc c * suc d)
    split = omega (arith, ap (λ z. suc c * z) complement, hp)

blend_falling :
    (b c x d : ℕ)
    → c ≤ b
    → b < 2 ^ 16
    → x + d < 2 ^ 16
    → (blend b c (x + d) x ≡ b * (x + d) - c * d) × (b * x ≤ b * (x + d) - c * d)
blend_falling b c x d h hb hx = (omega (arith, products, wraps, expand), omega (arith, products))
  where
    products : (c * d ≤ b * d) × (b * x ≤ 65535 * x) × (b * d ≤ 65535 * d)
    products =
        (mul-le-mul_right d h, mul-le-mul_right x (omega arith), mul-le-mul_right d (omega arith))

    wraps : blend b c (x + d) x ≡ u32 (u32 (b * (x + d)) + u32 (c * sub32 0 d))
    wraps = rw (differ) refl
      where
        differ : sub32 x (x + d) ≡ sub32 0 d
        differ = omega arith

    expand : u32 (c * sub32 0 d) ≡ sub32 0 (c * d)
    expand = negated_product c d (omega arith) (omega (arith, products))

pub index_lem :
    (i a_max b_max : ℕ)
    → 0 < b_max
    → i ≤ b_max
    → a_max < 2 ^ 16
    → b_max < 2 ^ 16
    → (left_index i a_max b_max ≤ a_max)
      × (right_index (left_index i a_max b_max) a_max ≤ a_max)
      × (coefficient i (left_index i a_max b_max) a_max b_max < b_max)
index_lem i a_max b_max pos h ha hb = (
  div-le_of_le_mul (u32 (i * a_max)) a_max b_max pos (omega (arith, small)),
  ground (arith, div-le_of_le_mul (u32 (i * a_max)) a_max b_max pos (omega (arith, small))),
  rw coeff (mod-lt (i * a_max) pos),
)
  where
    small : (i * a_max ≤ b_max * a_max) × (b_max * a_max ≤ 65535 * a_max)
    small = (mul-le-mul_right a_max h, mul-le-mul_right a_max (omega arith))

    whole : u32 (i * a_max) ≡ i * a_max
    whole = omega (arith, small)

    coeff : coefficient i (left_index i a_max b_max) a_max b_max ≡ i * a_max % b_max
    coeff = rw whole (omega (arith, small, div-add-mod' (i * a_max) b_max, mod-lt (i * a_max) pos))

-- The entries are 16-bit values.
abbrev pub IsLut : List ℕ → Type 0
IsLut a = (k v : ℕ) → get_elem? a k ≡ some v → v < 2 ^ 16

pub get_elem?-some : (xs : List ℕ) (k : ℕ) → k < length xs → (v : ℕ) × (get_elem? xs k ≡ some v)
get_elem?-some [] k h = absurd (omega arith)
get_elem?-some (x ∷ xs) zero h = (x, refl)
get_elem?-some (x ∷ xs) (suc k) h = get_elem?-some xs k (omega arith)

blend_between :
    (b c l r : ℕ)
    → c ≤ b
    → b < 2 ^ 16
    → l < 2 ^ 16
    → r < 2 ^ 16
    → (b * min l r ≤ blend b c l r) × (blend b c l r ≤ b * max l r)
blend_between b c l r h hb hl hr = elim (dec_lt l r) [
  | yes up ↦
      let d : ℕ = r - l in
      let same : l + d ≡ r = omega arith in
      let smaller : min l r ≡ l = omega arith in
      let larger : max l r ≡ r = omega arith in
      let (value, bound) = rw same at (blend_rising b c l d h hb (omega arith)) in
      rw (smaller, larger, value) (omega arith, bound)
  | no down ↦
      let d : ℕ = l - r in
      let same : r + d ≡ l = omega arith in
      let smaller : min l r ≡ r = omega arith in
      let larger : max l r ≡ l = omega arith in
      let (value, bound) = rw same at (blend_falling b c r d h hb (omega arith)) in
      rw (smaller, larger, value) (bound, omega arith)
]

-- A sample within the table: the two entries and the value between them.
pub sample_lem :
    (a : List ℕ) (a_max b_max i : ℕ)
    → length a ≡ a_max + 1
    → IsLut a
    → 0 < b_max
    → i ≤ b_max
    → a_max < 2 ^ 16
    → b_max < 2 ^ 16
    → (l r v : ℕ) × (get_elem? a (left_index i a_max b_max) ≡ some l)
      × (get_elem? a (right_index (left_index i a_max b_max) a_max) ≡ some r)
      × (sample a a_max b_max i ≡ some v)
      × (b_max * min l r ≤ v)
      × (v ≤ b_max * max l r)
      × (l < 2 ^ 16)
      × (r < 2 ^ 16)
unfolding sample
sample_lem a a_max b_max i len lut pos h ha hb =
    let (in_l, in_r, coeff) = index_lem i a_max b_max pos h ha hb in
    let (l, at_l) = get_elem?-some a (left_index i a_max b_max) (omega arith) in
    let (r, at_r) = get_elem?-some a (right_index (left_index i a_max b_max) a_max) (omega arith) in
    let between =
      blend_between b_max (coefficient i (left_index i a_max b_max) a_max b_max) l r (omega arith)
        hb (lut _ l at_l) (lut _ r at_r) in
    let nonzero : (b_max == 0) ≡ false = ground arith in
    (
      l,
      r,
      blend b_max (coefficient i (left_index i a_max b_max) a_max b_max) l r,
      at_l,
      at_r,
      rw (nonzero, sample) (rw (at_l, at_r) refl),
      between.0,
      between.1,
      lut _ l at_l,
      lut _ r at_r,
    )

pub samples_lem :
    (f : ℕ → Option ℕ) (i n : ℕ)
    → ((k : ℕ) → k < n → (y : ℕ) × (f (i + k) ≡ some y))
    → (out : List ℕ) × (samples f i n ≡ some out)
      × (length out ≡ n)
      × ((k : ℕ) → k < n → get_elem? out k ≡ f (i + k))
unfolding samples
samples_lem f i zero h = ([], refl, refl, λ k hk. absurd (omega arith))
samples_lem f i (suc n) h =
    let (y, first) = h 0 (omega arith) in
    let (ys, rest, len, at) = samples_lem f (i + 1) n (λ k hk. next k hk) in
    let first' : f i ≡ some y = ap f (omega arith) ∙ first in
    (y ∷ ys, rw (first', samples) (rw rest refl), omega (arith, len), elements y ys first at)
  where
    next : (k : ℕ) → k < n → (y : ℕ) × (f (i + 1 + k) ≡ some y)
    next k hk = let (y, at) = h (suc k) (omega arith) in (y, ap f (omega arith) ∙ at)

    elements :
        (y : ℕ) (ys : List ℕ)
        → f (i + 0) ≡ some y
        → ((k : ℕ) → k < n → get_elem? ys k ≡ f (i + 1 + k))
        → (k : ℕ) → k < suc n
        → get_elem? (y ∷ ys) k ≡ f (i + k)
    elements y ys first at zero hk = sym first
    elements y ys first at (suc k) hk = at k (omega arith) ∙ ap f (omega arith)

pub samples_from_start :
    (f : ℕ → Option ℕ) (n : ℕ)
    → ((k : ℕ) → k < n → (y : ℕ) × (f k ≡ some y))
    → (out : List ℕ) × (samples f 0 n ≡ some out)
      × (length out ≡ n)
      × ((k : ℕ) → k < n → get_elem? out k ≡ f k)
samples_from_start f n h =
    let (out, runs, size, at) =
      samples_lem f 0 n (λ k hk. let (y, eq) = h k hk in (y, ap f (omega arith) ∙ eq)) in
    (out, runs, size, λ k hk. at k hk ∙ ap f (omega arith))
