-- ===== src/Color.antt =====
-- src/drmmode_display.c: the colour management properties of a CRTC, which a client sets through
-- RandR: drmmode_crtc_stage_cm_prop keeps a value, drmmode_crtc_push_cm_prop gives it to the kernel,
-- and rr_configure_and_change_cm_property shows it to clients.
pub mod Stage
pub mod Gamma
pub mod Push
use xf86_video_amdgpu.Prelude.{
  ℕ, ◌+◌, ◌-◌, ◌*◌, ◌/◌, ◌%◌, ◌^◌, Bool, true, false, ◌&&◌, ◌||◌, not, Option, none, some, List, [],
  ◌∷◌, if◌then◌else◌, ◌==◌, take,
}
use xf86_video_amdgpu.Msc.{u64}

-- enum drmmode_cm_prop
pub data CmProp : Type 0 where
  degamma_lut ctm gamma_lut degamma_lut_size gamma_lut_size invalid_prop : CmProp

-- Success and the errors of the X server.
pub data Status : Type 0 where
  success bad_length bad_name bad_alloc bad_request : Status

-- The part of drmmode_rec and of the CRTC that the properties use: the sizes of the kernel's tables
-- and the values that are staged. A value is the list of its elements, 16 or 32 bits each.
pub record Colors : Type 0 where
  pub degamma_lut_size : ℕ
  pub gamma_lut_size : ℕ
  pub degamma_lut : Option (List ℕ)
  pub ctm : Option (List ℕ)
  pub gamma_lut : Option (List ℕ)

-- RRPropertyValueRec: whether its type is XA_INTEGER, the bits of an element, and the elements.
pub record Value : Type 0 where
  pub is_integer : Bool
  pub format : ℕ
  pub size : ℕ
  pub elements : List ℕ

abbrev pub sizeof_color_lut : ℕ
sizeof_color_lut = 8

abbrev pub sizeof_color_ctm : ℕ
sizeof_color_ctm = 72

-- Whether a value has the length of the property; a value of one element stands for the default of
-- a table.
unfoldable pub fits : (format shift expected : ℕ) → Value → Bool
fits format shift expected v =
    v.is_integer && v.format == format && u64 (v.size * 2 ^ shift) == expected

-- `memory`: whether malloc succeeds. The old value is freed in any case.
unfoldable pub copy : (memory default : Bool) → (count : ℕ) → Value → Option (List ℕ) × Status
copy memory default count v =
    if default
    then (none, success)
    else if memory
    then (some (take count v.elements), success)
    else (none, bad_alloc)

unfoldable pub stage_cm_prop : (memory : Bool) → CmProp → Value → Colors → Colors × Status
stage_cm_prop memory gamma_lut v s =
    let (blob, status) = copy memory (v.size == 1) (sizeof_color_lut * s.gamma_lut_size / 2) v in
    if v.size == 1 || fits 16 1 (sizeof_color_lut * s.gamma_lut_size) v
    then (record s { gamma_lut = blob }, status)
    else (s, bad_length)
stage_cm_prop memory degamma_lut v s =
    let (blob, status) = copy memory (v.size == 1) (sizeof_color_lut * s.degamma_lut_size / 2) v in
    if v.size == 1 || fits 16 1 (sizeof_color_lut * s.degamma_lut_size) v
    then (record s { degamma_lut = blob }, status)
    else (s, bad_length)
stage_cm_prop memory ctm v s =
    let (blob, status) = copy memory (v.size == 1) (sizeof_color_ctm / 4) v in
    if fits 32 2 sizeof_color_ctm v then (record s { ctm = blob }, status) else (s, bad_length)
stage_cm_prop memory _ v s = (s, bad_name)

-- The value with which a client sees a property: the elements, the bits of each, and how many are
-- declared. `none`: there is no such property.
pub record Shown : Type 0 where
  pub format : ℕ
  pub length : ℕ
  pub elements : List ℕ
  pub range : Option (ℕ × ℕ)

abbrev pub shown_blob : (format count : ℕ) → Option (ℕ × ℕ) → Option (List ℕ) → Shown
shown_blob format count range none = record {
  format = format;
  length = 1;
  elements = 0 ∷ [];
  range = range;
}
shown_blob format count range (some xs) = record {
  format = format;
  length = count;
  elements = xs;
  range = range;
}

-- `colors`: the sizes, and the values that are staged (none of them, where the CRTC is NULL). The
-- upper end of the range of a size is -1.
unfoldable pub cm_property : CmProp → Colors → Option Shown
cm_property gamma_lut_size s = some (record {
  format = 32;
  length = 1;
  elements = s.gamma_lut_size ∷ [];
  range = some (0, 2 ^ 32 - 1);
})
cm_property degamma_lut_size s = some (record {
  format = 32;
  length = 1;
  elements = s.degamma_lut_size ∷ [];
  range = some (0, 2 ^ 32 - 1);
})
cm_property gamma_lut s =
    some
      (shown_blob 16 (sizeof_color_lut / 2 * s.gamma_lut_size) (some (0, 2 ^ 16 - 1)) s.gamma_lut)
cm_property degamma_lut s =
    some (
      shown_blob 16 (sizeof_color_lut / 2 * s.degamma_lut_size) (some (0, 2 ^ 16 - 1))
        s.degamma_lut)
cm_property ctm s = some (shown_blob 32 (sizeof_color_ctm / 4) none s.ctm)
cm_property invalid_prop s = none

-- What the X server is asked: RRConfigureOutputProperty with the range, RRChangeOutputProperty.
pub data RandrCall : Type 0 where
  configures : (low high : ℕ) → RandrCall
  changes : Shown → RandrCall

-- The server's answers: whether MakeAtom succeeds, and the error of the two requests, if any.
pub record Randr : Type 0 where
  pub has_atom : Bool
  pub configure_error : Option Status
  pub change_error : Option Status

abbrev pub status_of : Option Status → Status
status_of none = success
status_of (some e) = e

unfoldable pub change_cm_property : Randr → Shown → Status × List RandrCall
change_cm_property r v = if not r.has_atom then (bad_alloc, []) else (elim v.range [
  | none ↦ (status_of r.change_error, changes v ∷ [])
  | some (low, high) ↦ elim r.configure_error [
    | some e ↦ (e, configures low high ∷ [])
    | none ↦ (status_of r.change_error, configures low high ∷ changes v ∷ [])
  ]
])

unfoldable pub rr_configure_and_change_cm_property :
    Randr → CmProp → Colors → Status × List RandrCall
rr_configure_and_change_cm_property r p s = elim (cm_property p s) [
  | none ↦ (bad_name, [])
  | some v ↦ change_cm_property r v
]
