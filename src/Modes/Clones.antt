-- ===== src/Modes/Clones.antt =====
-- src/drmmode_display.c, find_clones: the bits of the mask.
use xf86_video_amdgpu.Prelude.{
  ℕ, zero, suc, ◌+◌, ◌*◌, ◌/◌, ◌%◌, ◌^◌, ◌≤◌, ◌<◌, ◌≡◌, refl, sym, ap, ◌∙◌, inl, inr, Bool, false,
  ◌&&◌, not, Option, none, some, List, [], ◌∷◌, if◌then◌else◌, ◌==◌, get_elem?, arith, Bool-cases,
}
use native.Mathlib.Nat.{div-div-eq-div-mul}
use xf86_video_amdgpu.Pixmap.{has_bit}
use xf86_video_amdgpu.Modes.{Masks, clone_bits, find_clones}

-- Whether the output with these masks is a clone of the output with number `output`.
abbrev pub is_clone : (output : ℕ) → Masks → (k : ℕ) → Option Masks → Bool
is_clone output own k none = false
is_clone output own k (some m) =
    not (own.enc_clone_mask == 0)
    && not (k == output)
    && not (m.enc_mask == 0)
    && own.enc_clone_mask == m.enc_mask

doubled : (k : ℕ) → 2 ^ (k + 1) ≡ 2 * 2 ^ k
doubled k = let same : k + 1 ≡ suc k = omega arith in rw same (omega arith)

power_pos : (k : ℕ) → 0 < 2 ^ k
power_pos zero = omega arith
power_pos (suc k) = omega (arith, power_pos k)

power_sum : (i j : ℕ) → 2 ^ (i + 1 + j) ≡ 2 * 2 ^ i * 2 ^ j
power_sum i zero = let same : i + 1 + 0 ≡ i + 1 = omega arith in rw (same, doubled i) (omega arith)
power_sum i (suc j) =
    let ih = power_sum i j in
    let same : i + 1 + suc j ≡ suc (i + 1 + j) = omega arith in
    let up : 2 ^ suc (i + 1 + j) ≡ 2 * 2 ^ (i + 1 + j) = omega arith in
    let up' : 2 ^ suc j ≡ 2 * 2 ^ j = omega arith in rw (same, up, up', ih) (grind arith)

split_off : (b q u r : ℕ) → r ≡ q * (2 * u) → b * u + r ≡ (b + 2 * q) * u
split_off b q u r e = grind arith

cancelled : (k u : ℕ) → 0 < u → k * u / u ≡ k
cancelled k u pos = grind arith

low_bit : (b q u : ℕ) → b ≤ 1 → 0 < u → (b * u + q * (2 * u)) / u % 2 ≡ b
low_bit b q u le pos =
    rw (split_off b q u (q * (2 * u)) refl, cancelled (b + 2 * q) u pos) (omega arith)

high_bits :
    (b q u v : ℕ) → b ≤ 1 → 0 < u → (b * u + q * (2 * u)) / (2 * u * v) ≡ q * (2 * u) / (2 * u * v)
high_bits b q u v le pos =
    let low : (b * u + q * (2 * u)) / (2 * u) ≡ q = grind arith in
    sym (div-div-eq-div-mul (b * u + q * (2 * u)) (2 * u) v)
    ∙ ap (λ z. z / v) (low ∙ sym (cancelled q (2 * u) (omega (arith, pos))))
    ∙ div-div-eq-div-mul (q * (2 * u)) (2 * u) v

-- Whether the loop sets the bit of an output.
abbrev sets : (output : ℕ) → Masks → (i : ℕ) → Masks → Bool
sets output own i m = not (i == output) && not (m.enc_mask == 0) && own.enc_clone_mask == m.enc_mask

clone_bits-cons :
    (output : ℕ) (own : Masks) (i : ℕ) (m : Masks) (ms : List Masks)
    → clone_bits output own i (m ∷ ms)
      ≡ (if sets output own i m then 1 else 0) * 2 ^ i + clone_bits output own (i + 1) ms
unfolding clone_bits
clone_bits-cons output own i m ms = ground arith

-- The outputs from number i on set no bit below i.
clone_bits-multiple :
    (output : ℕ) (own : Masks) (i : ℕ) (ms : List Masks)
    → (q : ℕ) × (clone_bits output own i ms ≡ q * 2 ^ i)
unfolding clone_bits
clone_bits-multiple output own i [] = (0, omega arith)
clone_bits-multiple output own i (m ∷ ms) =
    let (q, e) = clone_bits-multiple output own (i + 1) ms in
    (
      (if sets output own i m then 1 else 0) + 2 * q,
      clone_bits-cons output own i m ms ∙ split_off _ q (2 ^ i) _ (e ∙ ap (λ z. q * z) (doubled i)),
    )

at_most_one : (b : Bool) → (if b then 1 else 0) ≤ 1
at_most_one b = ground arith

is_one : (b : Bool) → ((if b then 1 else 0) == 1) ≡ b
is_one b = ground arith

start : (j : ℕ) → 0 + j ≡ j
start j = omega arith

next : (i j : ℕ) → i + suc j ≡ i + 1 + j
next i j = omega arith

module _ (output : ℕ) (own : Masks) where
  clone_bits-has_bit :
      (j i : ℕ) (ms : List Masks) (m : Masks)
      → get_elem? ms j ≡ some m
      → has_bit (i + j) (clone_bits output own i ms) ≡ sets output own (i + j) m
  clone_bits-has_bit j i [] m e = cc
  clone_bits-has_bit zero i (n ∷ ms) m e =
      let (q, rest) = clone_bits-multiple output own (i + 1) ms in
      let b : ℕ = if sets output own i n then 1 else 0 in
      let bits : clone_bits output own i (n ∷ ms) ≡ b * 2 ^ i + q * (2 * 2 ^ i) =
        clone_bits-cons output own i n ms
        ∙ ap (λ z. b * 2 ^ i + z) (rest ∙ ap (λ z. q * z) (doubled i)) in
      let here : i + 0 ≡ i = omega arith in
      let same : n ≡ m = cc in
      rw (here, bits, low_bit b q (2 ^ i) (at_most_one _) (power_pos i), sym same) (is_one _)
  clone_bits-has_bit (suc j) i (n ∷ ms) m e =
      let ih = clone_bits-has_bit j (i + 1) ms m e in
      let (q, rest) = clone_bits-multiple output own (i + 1) ms in
      let b : ℕ = if sets output own i n then 1 else 0 in
      let tail : clone_bits output own (i + 1) ms ≡ q * (2 * 2 ^ i) =
        rest ∙ ap (λ z. q * z) (doubled i) in
      let bits : clone_bits output own i (n ∷ ms) ≡ b * 2 ^ i + q * (2 * 2 ^ i) =
        clone_bits-cons output own i n ms ∙ ap (λ z. b * 2 ^ i + z) tail in
      let same : clone_bits output own i (n ∷ ms) / 2 ^ (i + suc j)
          ≡ clone_bits output own (i + 1) ms / 2 ^ (i + 1 + j) =
        rw (next i j, power_sum i j, bits, tail)
          (high_bits b q (2 ^ i) (2 ^ j) (at_most_one _) (power_pos i)) in
      rw same (rw (next i j) ih)

  -- The bit of an output is set in the mask of its possible clones where it is another output, has an
  -- encoder, and has just the encoders that all encoders of this one can be cloned with; where there
  -- is no such mask, no bit is set.
  pub find_clones-has_bit :
      (ms : List Masks) (j : ℕ) (m : Masks)
      → get_elem? ms j ≡ some m
      → has_bit j (find_clones output own ms) ≡ is_clone output own j (some m)
  unfolding find_clones
  find_clones-has_bit ms j m e = elim (Bool-cases (own.enc_clone_mask == 0)) [
    | inl nothing ↦ rw nothing (ground arith)
    | inr mask ↦ rw mask (rw (start j) at (clone_bits-has_bit j 0 ms m e))
  ]
