-- ===== src/Cursor/Image.antt =====
-- src/drmmode_display.c: the words that drmmode_load_cursor_argb writes, and its rounds.
use xf86_video_amdgpu.Prelude.{
  ℕ, zero, suc, ◌+◌, ◌*◌, ◌/◌, ◌%◌, ◌^◌, ◌≤◌, ◌<◌, ◌≡◌, ◌≢◌, refl, inl, inr, Bool, true, false,
  none, some, List, [], ◌∷◌, map, ◌==◌, ltb, get_elem?, length, arith, Bool-cases, div-le_of_le_mul,
  le-div_of_mul_le,
}
use native.Mathlib.Nat.{mul-le-mul_right}
use xf86_video_amdgpu.Lut.Samples.{IsLut, get_elem?-some}
use xf86_video_amdgpu.Cursor.{
  Gamma, writes, overrun, alpha, spread, channel, premultiply, corrected, cursor_pixel, Round,
  finished, restarts, faults, next_pixel, round, rounds,
}

abbrev pub byte : ℕ → ℕ → ℕ
byte i argb = argb / 2 ^ (8 * i) % 2 ^ 8

-- A pixel whose colours do not exceed its alpha.
pub record IsPremultiplied (argb : ℕ) : Type 0 where
  pub word : argb < 2 ^ 32
  pub blue_le : byte 0 argb ≤ alpha argb
  pub green_le : byte 1 argb ≤ alpha argb
  pub red_le : byte 2 argb ≤ alpha argb

-- Ramps of 256 entries of 16 bits.
pub record IsGamma (g : Gamma) : Type 0 where
  pub size_red : length g.red ≡ 256
  pub size_green : length g.green ≡ 256
  pub size_blue : length g.blue ≡ 256
  pub is_red : IsLut g.red
  pub is_green : IsLut g.green
  pub is_blue : IsLut g.blue

scaled : (c a : ℕ) → c < 2 ^ 16 → c / 2 ^ 8 * a / 255 ≤ a
scaled c a h = div-le_of_le_mul (c / 2 ^ 8 * a) a 255 (omega arith) (omega (arith, below))
  where
    below : c / 2 ^ 8 * a ≤ 255 * a
    below = mul-le-mul_right a (omega arith)

alpha-premultiply :
    (a red green blue : ℕ)
    → a < 2 ^ 8
    → red < 2 ^ 16
    → green < 2 ^ 16
    → blue < 2 ^ 16
    → alpha (premultiply a (red / 2 ^ 8) (green / 2 ^ 8) (blue / 2 ^ 8)) ≡ a
alpha-premultiply a red green blue ha hr hg hb =
    sum (red / 2 ^ 8 * a / 255) (green / 2 ^ 8 * a / 255) (blue / 2 ^ 8 * a / 255) (scaled red a hr)
      (scaled green a hg) (scaled blue a hb)
  where
    sum :
        (r g b : ℕ) → r ≤ a → g ≤ a → b ≤ a → (a * 2 ^ 24 + r * 2 ^ 16 + g * 2 ^ 8 + b) / 2 ^ 24 ≡ a
    sum r g b hr hg hb = omega arith

corrected_lem :
    (g : Gamma) (argb : ℕ)
    → IsGamma g
    → IsPremultiplied argb
    → alpha argb ≢ 0
    → (v : ℕ) × (corrected g argb ≡ writes v) × (alpha v ≡ alpha argb)
unfolding corrected
corrected_lem g argb gamma p visible =
    let (blue, at_blue) =
      get_elem?-some g.blue (channel 0 argb)
        (omega (arith, gamma.size_blue, within (byte 0 argb) p.blue_le)) in
    let (green, at_green) =
      get_elem?-some g.green (channel 1 argb)
        (omega (arith, gamma.size_green, within (byte 1 argb) p.green_le)) in
    let (red, at_red) =
      get_elem?-some g.red (channel 2 argb)
        (omega (arith, gamma.size_red, within (byte 2 argb) p.red_le)) in
    (
      premultiply (alpha argb) (red / 2 ^ 8) (green / 2 ^ 8) (blue / 2 ^ 8),
      rw (at_blue, corrected) (rw at_green (rw at_red refl)),
      alpha-premultiply (alpha argb) red green blue (omega (arith, p.word))
          (gamma.is_red _ red at_red) (gamma.is_green _ green at_green)
          (gamma.is_blue _ blue at_blue),
    )
  where
    within : (c : ℕ) → c ≤ alpha argb → c * 255 / alpha argb ≤ 255
    within c h =
        div-le_of_le_mul (c * 255) 255 (alpha argb) (omega (arith, visible)) (omega (arith, h))

-- A premultiplied pixel is written, with its alpha, whether or not gamma correction applies: it asks
-- for no other round, and no ramp is read outside its bounds.
pub cursor_pixel-IsPremultiplied :
    (g : Gamma) (apply_gamma : Bool) (argb : ℕ)
    → IsGamma g
    → IsPremultiplied argb
    → (v : ℕ) × (cursor_pixel g apply_gamma argb ≡ writes v) × (alpha v ≡ alpha argb)
unfolding cursor_pixel
cursor_pixel-IsPremultiplied g false argb gamma p = (argb, refl, refl)
cursor_pixel-IsPremultiplied g true argb gamma p = elim (Bool-cases (alpha argb == 0)) [
  | inl hidden ↦ (0, rw (below, cursor_pixel) (rw hidden refl), ground arith)
  | inr visible ↦
      let (v, runs, same) = corrected_lem g argb gamma p (ground arith) in
      (v, rw (below, cursor_pixel) (rw visible runs), same)
]
  where
    below : ltb (spread (alpha argb)) argb ≡ false
    below = ground (arith, p.word, p.blue_le, p.green_le, p.red_le)

get_elem?-none : (xs : List ℕ) (k : ℕ) → length xs ≤ k → get_elem? xs k ≡ none
get_elem?-none [] k h = refl
get_elem?-none (x ∷ xs) zero h = absurd (omega arith)
get_elem?-none (x ∷ xs) (suc k) h = get_elem?-none xs k (omega arith)

-- A pixel whose red is below its alpha and whose blue is above it passes the test for overflow, and
-- the blue ramp is read behind its end.
pub cursor_pixel-overrun :
    (g : Gamma) (argb : ℕ)
    → IsGamma g
    → argb < 2 ^ 32
    → byte 2 argb < alpha argb
    → alpha argb < byte 0 argb
    → cursor_pixel g true argb ≡ overrun
unfolding cursor_pixel corrected
cursor_pixel-overrun g argb gamma word red blue =
    rw (passes, cursor_pixel) (rw visible (rw (behind, corrected) refl))
  where
    passes : ltb (spread (alpha argb)) argb ≡ false
    passes = ground (arith, word, red)

    visible : (alpha argb == 0) ≡ false
    visible = ground (arith, red)

    large : 256 ≤ channel 0 argb
    large =
        le-div_of_mul_le (byte 0 argb * 255) 256 (alpha argb) (omega (arith, red))
          (omega (arith, word, blue))

    behind : get_elem? g.blue (channel 0 argb) ≡ none
    behind = get_elem?-none g.blue (channel 0 argb) (omega (arith, gamma.size_blue, large))

round_plain : (g : Gamma) (image : List ℕ) → round g false image ≡ finished image
unfolding round cursor_pixel next_pixel
round_plain g [] = refl
round_plain g (argb ∷ image) = rw (round_plain g image) refl

-- Two rounds are enough: the loading of a cursor image ends, and if a pixel cannot be corrected, the
-- whole image is written as it is.
pub rounds-total :
    (g : Gamma) (apply_gamma : Bool) (image : List ℕ)
    → (r : Round) × (rounds 2 g apply_gamma image ≡ some r)
      × (r ≢ restarts)
      × ((round g apply_gamma image ≡ restarts) → r ≡ finished image)
unfolding rounds
rounds-total g apply_gamma image = ends (round g apply_gamma image) refl
  where
    ends :
        (first : Round)
        → round g apply_gamma image ≡ first
        → (r : Round) × (rounds 2 g apply_gamma image ≡ some r)
          × (r ≢ restarts)
          × ((round g apply_gamma image ≡ restarts) → r ≡ finished image)
    ends (finished ptr) e = (finished ptr, rw (e, rounds) refl, (λ r. cc), (λ r. cc))
    ends faults e = (faults, rw (e, rounds) refl, (λ r. cc), (λ r. cc))
    ends restarts e =
        (finished image, rw (e, rounds) (rw (round_plain g image) refl), (λ r. cc), (λ r. refl))

abbrev pub ArePremultiplied : List ℕ → Type 0
ArePremultiplied [] = Unit {0}
ArePremultiplied (argb ∷ image) = IsPremultiplied argb × ArePremultiplied image

round_lem :
    (g : Gamma) (apply_gamma : Bool) (image : List ℕ)
    → IsGamma g
    → ArePremultiplied image
    → (out : List ℕ) × (round g apply_gamma image ≡ finished out)
      × (map alpha out ≡ map alpha image)
unfolding round next_pixel
round_lem g apply_gamma [] gamma p = ([], refl, refl)
round_lem g apply_gamma (argb ∷ image) gamma p =
    let (v, written, same) = cursor_pixel-IsPremultiplied g apply_gamma argb gamma p.0 in
    let (out, rest, alphas) = round_lem g apply_gamma image gamma p.1 in
    (v ∷ out, rw (written, round) (rw rest refl), rw (same, alphas) refl)

-- An image of premultiplied pixels is written in one round, pixel by pixel and with its alphas.
pub rounds-ArePremultiplied :
    (g : Gamma) (apply_gamma : Bool) (image : List ℕ)
    → IsGamma g
    → ArePremultiplied image
    → (out : List ℕ) × (rounds 1 g apply_gamma image ≡ some (finished out))
      × (map alpha out ≡ map alpha image)
unfolding rounds
rounds-ArePremultiplied g apply_gamma image gamma p =
    let (out, runs, alphas) = round_lem g apply_gamma image gamma p in
    (out, rw (runs, rounds) refl, alphas)
