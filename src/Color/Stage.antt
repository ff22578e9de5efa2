-- ===== src/Color/Stage.antt =====
-- src/drmmode_display.c: what becomes of a value that a client sets for a colour property.
use xf86_video_amdgpu.Prelude.{
  ℕ, zero, suc, ◌-◌, ◌*◌, ◌/◌, ◌^◌, ◌≤◌, ◌<◌, ◌≡◌, ◌≢◌, ◌⊎◌, inl, inr, refl, ap, sym, Bool, true,
  false, none, some, List, [], ◌∷◌, ◌==◌, take, length, arith, Bool-cases,
}
use xf86_video_amdgpu.Msc.{u64}
use xf86_video_amdgpu.Color.{
  CmProp, degamma_lut, ctm, gamma_lut, degamma_lut_size, gamma_lut_size, invalid_prop, success,
  bad_length, bad_name, Colors, Value, sizeof_color_lut, sizeof_color_ctm, fits, copy,
  stage_cm_prop, Shown, cm_property,
}
use xf86_video_amdgpu.Color.Push.{
  Kernel, Ramps, creates_blob, sets_property, destroys_blob, do_push, push_supported, push_cm_prop,
  set_status,
}

take_all : (n : ℕ) (xs : List ℕ) → length xs ≤ n → take n xs ≡ xs
take_all zero [] h = refl
take_all zero (x ∷ xs) h = absurd (omega arith)
take_all (suc n) [] h = refl
take_all (suc n) (x ∷ xs) h = ap (λ t. x ∷ t) (take_all n xs (omega arith))

-- A value that the client sets, as the server passes it on.
pub record IsValue (v : Value) : Type 0 where
  pub counted : length v.elements ≡ v.size
  pub in_range : v.size < 2 ^ 61
  pub several : v.size ≢ 1

copied :
    (memory : Bool) (count : ℕ) (v : Value)
    → IsValue v
    → (copy memory (v.size == 1) count v).1 ≡ success
    → v.size ≤ count
    → (copy memory (v.size == 1) count v).0 ≡ some v.elements
unfolding copy
copied false count v h ok le = absurd (ground (arith, h.several))
copied true count v h ok le =
    ground (arith, h.several, take_all count v.elements (omega (arith, h.counted)))

fits_lem :
    (format shift expected : ℕ) (v : Value)
    → fits format shift expected v ≡ true
    → (v.format ≡ format) × (u64 (v.size * 2 ^ shift) ≡ expected)
unfolding fits
fits_lem format shift expected v h = ground arith

stage_gamma_lut :
    (memory : Bool) (v : Value) (s : Colors)
    → IsValue v
    → (stage_cm_prop memory gamma_lut v s).1 ≡ success
    → ((stage_cm_prop memory gamma_lut v s).0 ≡ record s { gamma_lut = some v.elements })
      × (v.format ≡ 16)
      × (v.size ≡ 4 * s.gamma_lut_size)
unfolding stage_cm_prop
stage_gamma_lut memory v s h ok =
    elim (Bool-cases (fits 16 1 (sizeof_color_lut * s.gamma_lut_size) v)) [
      | inr f ↦ absurd (ground (arith, h.several))
      | inl t ↦
          let (format, size) = fits_lem 16 1 (sizeof_color_lut * s.gamma_lut_size) v t in
          let elements =
            copied memory (sizeof_color_lut * s.gamma_lut_size / 2) v h (ground (arith, h.several))
              (omega (arith, h.in_range)) in
          (ground (arith, t, elements), format, omega (arith, h.in_range))
    ]

stage_degamma_lut :
    (memory : Bool) (v : Value) (s : Colors)
    → IsValue v
    → (stage_cm_prop memory degamma_lut v s).1 ≡ success
    → ((stage_cm_prop memory degamma_lut v s).0 ≡ record s { degamma_lut = some v.elements })
      × (v.format ≡ 16)
      × (v.size ≡ 4 * s.degamma_lut_size)
unfolding stage_cm_prop
stage_degamma_lut memory v s h ok =
    elim (Bool-cases (fits 16 1 (sizeof_color_lut * s.degamma_lut_size) v)) [
      | inr f ↦ absurd (ground (arith, h.several))
      | inl t ↦
          let (format, size) = fits_lem 16 1 (sizeof_color_lut * s.degamma_lut_size) v t in
          let elements =
            copied memory (sizeof_color_lut * s.degamma_lut_size / 2) v h
              (ground (arith, h.several)) (omega (arith, h.in_range)) in
          (ground (arith, t, elements), format, omega (arith, h.in_range))
    ]

stage_ctm :
    (memory : Bool) (v : Value) (s : Colors)
    → IsValue v
    → (stage_cm_prop memory ctm v s).1 ≡ success
    → ((stage_cm_prop memory ctm v s).0 ≡ record s { ctm = some v.elements })
      × (v.format ≡ 32)
      × (v.size ≡ 18)
unfolding stage_cm_prop
stage_ctm memory v s h ok = elim (Bool-cases (fits 32 2 (sizeof_color_ctm) v)) [
  | inr f ↦ absurd (ground (arith, h.several))
  | inl t ↦
      let (format, size) = fits_lem 32 2 (sizeof_color_ctm) v t in
      let elements =
        copied memory (sizeof_color_ctm / 4) v h (ground (arith, h.several))
          (omega (arith, h.in_range)) in
      (ground (arith, t, elements), format, omega (arith, h.in_range))
]

-- A value of several elements that drmmode_crtc_stage_cm_prop accepts is the one that clients
-- are shown from then on, with its format and length.
pub cm_property-stage_cm_prop :
    (memory : Bool) (p : CmProp) (v : Value) (s : Colors)
    → IsValue v
    → (stage_cm_prop memory p v s).1 ≡ success
    → (w : Shown) × (cm_property p (stage_cm_prop memory p v s).0 ≡ some w)
      × (w.format ≡ v.format)
      × (w.length ≡ v.size)
      × (w.elements ≡ v.elements)
unfolding cm_property stage_cm_prop
cm_property-stage_cm_prop memory gamma_lut v s h ok =
    let (staged, format, size) = stage_gamma_lut memory v s h ok in
    (
      record {
        format = 16;
        length = sizeof_color_lut / 2 * s.gamma_lut_size;
        elements = v.elements;
        range = some (0, 2 ^ 16 - 1);
      },
      rw staged refl,
      sym format,
      omega arith,
      refl,
    )
cm_property-stage_cm_prop memory degamma_lut v s h ok =
    let (staged, format, size) = stage_degamma_lut memory v s h ok in
    (
      record {
        format = 16;
        length = sizeof_color_lut / 2 * s.degamma_lut_size;
        elements = v.elements;
        range = some (0, 2 ^ 16 - 1);
      },
      rw staged refl,
      sym format,
      omega arith,
      refl,
    )
cm_property-stage_cm_prop memory ctm v s h ok =
    let (staged, format, size) = stage_ctm memory v s h ok in
    (
      record { format = 32; length = sizeof_color_ctm / 4; elements = v.elements; range = none },
      rw staged refl,
      sym format,
      omega arith,
      refl,
    )
cm_property-stage_cm_prop memory degamma_lut_size v s h ok = cc
cm_property-stage_cm_prop memory gamma_lut_size v s h ok = cc
cm_property-stage_cm_prop memory invalid_prop v s h ok = cc

-- A value that is refused for its length or its name leaves everything as it was.
pub stage_cm_prop-refused :
    (memory : Bool) (p : CmProp) (v : Value) (s : Colors)
    → ((stage_cm_prop memory p v s).1 ≡ bad_length) ⊎ ((stage_cm_prop memory p v s).1 ≡ bad_name)
    → (stage_cm_prop memory p v s).0 ≡ s
unfolding stage_cm_prop copy
stage_cm_prop-refused memory gamma_lut v s h = ground arith
stage_cm_prop-refused memory degamma_lut v s h = ground arith
stage_cm_prop-refused memory ctm v s h = ground arith
stage_cm_prop-refused memory _ v s h = refl

-- The transformation matrix cannot be set back to the default: where a value is accepted for it, it
-- has 18 elements, and a matrix is staged afterwards.
pub stage_cm_prop-ctm :
    (memory : Bool) (v : Value) (s : Colors)
    → v.size < 2 ^ 61
    → (stage_cm_prop memory ctm v s).1 ≡ success
    → (v.size ≡ 18) × ((stage_cm_prop memory ctm v s).0.ctm ≡ some (take 18 v.elements))
unfolding stage_cm_prop copy fits
stage_cm_prop-ctm memory v s small ok = ground arith

-- An accepted value of several elements for a property that the kernel supports goes to it
-- unchanged, if the kernel makes the blob, in a blob that is
-- destroyed after its use, for a degamma table and a transformation matrix.
pub push_cm_prop-stage_cm_prop :
    (memory : Bool) (p : CmProp) (v : Value) (s : Colors) (k : Kernel) (r : Ramps) (blob : ℕ)
    → (p ≡ degamma_lut) ⊎ (p ≡ ctm)
    → IsValue v
    → (stage_cm_prop memory p v s).1 ≡ success
    → k.prop_id p ≢ 0
    → k.new_blob ≡ some blob
    → push_cm_prop k r p (stage_cm_prop memory p v s).0
      ≡ some (
        set_status k,
        creates_blob v.elements blob ∷ sets_property (k.prop_id p) blob ∷ destroys_blob blob ∷ [],
      )
unfolding push_cm_prop push_supported do_push
push_cm_prop-stage_cm_prop memory degamma_lut v s k r blob which h ok known new =
    let (there, _, _) = stage_degamma_lut memory v s h ok in
    let supported : (k.prop_id degamma_lut == 0) ≡ false = ground arith in
    rw (supported, push_cm_prop) (rw there (rw new refl))
push_cm_prop-stage_cm_prop memory ctm v s k r blob which h ok known new =
    let (there, _, _) = stage_ctm memory v s h ok in
    let supported : (k.prop_id ctm == 0) ≡ false = ground arith in
    rw (supported, push_cm_prop) (rw there (rw new refl))
push_cm_prop-stage_cm_prop memory gamma_lut v s k r blob which h ok known new = elim which [
  | inl e ↦ cc
  | inr e ↦ cc
]
push_cm_prop-stage_cm_prop memory _ v s k r blob which h ok known new = elim which [
  | inl e ↦ cc
  | inr e ↦ cc
]
