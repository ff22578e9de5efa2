-- ===== src/Modes/Set.antt =====
-- src/drmmode_display.c: drmmode_set_mode, drmmode_crtc_update_tear_free and the creation of scanout
-- pixmaps. CRTCs, outputs, pixmaps and framebuffers are addresses.
use xf86_video_amdgpu.Prelude.{
  ℕ, Bool, true, false, ◌&&◌, ◌||◌, not, Option, none, some, List, [], ◌∷◌, ◌++◌, if◌then◌else◌,
  ◌==◌,
}
use xf86_video_amdgpu.Framebuffer.{Fbs, Result, ok, fault, ◌>>=◌, crtc_fb, fb_reference}
use xf86_video_amdgpu.Pageflip.{pointer_eq}
use xf86_video_amdgpu.Modes.{Mode, KMode, convert_to_kmode}

-- An output: `connector` is the id of its mode_output, where it has one; `tear_free` is 0 for off, 1
-- for on, and 2 for automatic.
pub record Output : Type 0 where
  pub crtc : Option ℕ
  pub connector : Option ℕ
  pub tear_free : ℕ

-- The loop of drmmode_set_mode. `none`: an output has no mode_output.
unfoldable pub output_ids : (c : ℕ) → List Output → Option (List ℕ)
output_ids c [] = some []
output_ids c (o ∷ os) =
    let rest = output_ids c os in
    if not (pointer_eq o.crtc (some c)) then rest else (elim o.connector [
      | none ↦ none
      | some i ↦ elim rest [ none ↦ none | some is ↦ some (i ∷ is) ]
    ])

-- drmModeSetCrtc
pub record SetCrtc : Type 0 where
  pub crtc : ℕ
  pub fb_handle : ℕ
  pub x : ℕ
  pub y : ℕ
  pub outputs : List ℕ
  pub mode : KMode

-- Whether calloc succeeds, and whether the kernel sets the mode.
pub record Kernel : Type 0 where
  pub callocs : Bool
  pub sets_crtc : SetCrtc → Bool

unfoldable pub request_mode : (c fb_handle x y : ℕ) → Mode → List ℕ → SetCrtc
request_mode c fb_handle x y mode ids = record {
  crtc = c;
  fb_handle = fb_handle;
  x = x;
  y = y;
  outputs = ids;
  mode = convert_to_kmode mode;
}

-- From drmmode_ConvertToKMode on.
unfoldable pub apply_mode : Kernel → (c fb x y : ℕ) → Mode → List ℕ → Fbs → Result (Bool × Fbs)
apply_mode k c fb x y mode ids s = elim (s.fb fb) [
  | none ↦ fault
  | some r ↦
      if k.sets_crtc (request_mode c r.handle x y mode ids)
      then (do s' ← fb_reference (crtc_fb c) (some fb) s; ok (true, s'))
      else ok (false, s)
]

unfoldable pub set_mode : Kernel → (c fb x y : ℕ) → Mode → List Output → Fbs → Result (Bool × Fbs)
set_mode k c fb x y mode outputs s =
    if not k.callocs then ok (false, s) else (elim (output_ids c outputs) [
      | none ↦ ok (false, s)
      | some ids ↦ apply_mode k c fb x y mode ids s
    ])

-- What the automatic choice of TearFree reads: the screen's isGPU, the options of the driver, and
-- whether the CRTC is transformed or rotated.
pub record Automatic : Type 0 where
  pub is_gpu : Bool
  pub shadow_primary : Bool
  pub vrr_support : Bool
  pub transform_present : Bool
  pub is_rotated : Bool

abbrev pub is_automatic : Automatic → Bool
is_automatic a =
    a.is_gpu || a.shadow_primary || a.vrr_support || a.transform_present || a.is_rotated

-- drmmode_crtc_update_tear_free: the new value of tear_free.
unfoldable pub update_tear_free : (c : ℕ) → Automatic → List Output → Bool
update_tear_free c a [] = false
update_tear_free c a (o ∷ os) =
    let rest = update_tear_free c a os in
    if not (pointer_eq o.crtc (some c))
    then rest
    else if o.tear_free == 1 || o.tear_free == 2 && is_automatic a
    then true
    else rest

-- A scanout pixmap: its address and its size.
pub record ScanoutPixmap : Type 0 where
  pub pixmap : ℕ
  pub width : ℕ
  pub height : ℕ

pub data Step : Type 0 where
  creates destroys : (pixmap : ℕ) → Step

abbrev pub destroys_held : Option ScanoutPixmap → List Step
destroys_held none = []
destroys_held (some p) = destroys p.pixmap ∷ []

-- drmmode_crtc_scanout_create, once the pixmap is not there or has been destroyed: what CreatePixmap
-- returns, and whether it gets a framebuffer.
unfoldable pub scanout_make :
    (made : Option ℕ) (has_fb : Bool) (width height : ℕ) → Bool × Option ScanoutPixmap × List Step
scanout_make none has_fb width height = (false, none, [])
scanout_make (some p) has_fb width height =
    if has_fb
    then (true, some (record { pixmap = p; width = width; height = height }), creates p ∷ [])
    else (false, none, creates p ∷ destroys p ∷ [])

abbrev pub after_steps :
    List Step → Bool × Option ScanoutPixmap × List Step → Bool × Option ScanoutPixmap × List Step
after_steps steps (r, p, more) = (r, p, steps ++ more)

abbrev pub is_sized : (width height : ℕ) → Option ScanoutPixmap → Bool
is_sized width height none = false
is_sized width height (some p) = p.width == width && p.height == height

-- The result, the scanout pixmap, and what is created and destroyed.
unfoldable pub scanout_create :
    (made : Option ℕ) (has_fb : Bool)
    → Option ScanoutPixmap
    → (width height : ℕ) → Bool × Option ScanoutPixmap × List Step
scanout_create made has_fb held width height =
    if is_sized width height held
    then (true, held, [])
    else after_steps (destroys_held held) (scanout_make made has_fb width height)
