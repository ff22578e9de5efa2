-- ===== src/Color/Push.antt =====
-- src/drmmode_display.c: drmmode_crtc_push_cm_prop and drmmode_crtc_gamma_do_set.
use xf86_video_amdgpu.Prelude.{ℕ, Bool, Option, none, some, List, [], ◌∷◌, if◌then◌else◌, ◌==◌, not}
use xf86_video_amdgpu.DrmQueue.{◌>>=◌}
use xf86_video_amdgpu.Color.{
  CmProp, degamma_lut, ctm, gamma_lut, Status, success, bad_name, bad_alloc, bad_request, Colors,
}
use xf86_video_amdgpu.Lut.{lut_interpolate, lut_compose}

-- The legacy ramps of the X server.
pub record Ramps : Type 0 where
  pub red : List ℕ
  pub green : List ℕ
  pub blue : List ℕ
  pub gamma_size : ℕ

-- struct drm_color_lut as four elements: red, green, blue, and the reserved one.
unfoldable pub reds : List ℕ → List ℕ
reds (r ∷ g ∷ b ∷ x ∷ t) = r ∷ reds t
reds _ = []

unfoldable pub greens : List ℕ → List ℕ
greens (r ∷ g ∷ b ∷ x ∷ t) = g ∷ greens t
greens _ = []

unfoldable pub blues : List ℕ → List ℕ
blues (r ∷ g ∷ b ∷ x ∷ t) = b ∷ blues t
blues _ = []

unfoldable pub pack : (red green blue : List ℕ) → List ℕ
pack (r ∷ rs) (g ∷ gs) (b ∷ bs) = r ∷ g ∷ b ∷ 0 ∷ pack rs gs bs
pack _ _ _ = []

-- The table for the kernel: the ramps, composed with the staged table or resized. `none`: a
-- division by 0, or a read outside a table.
unfoldable pub gamma_blob : Ramps → Option (List ℕ) → (len : ℕ) → Option (List ℕ)
gamma_blob r (some lut) len = do
  red ← lut_compose r.red (reds lut) r.gamma_size len
  green ← lut_compose r.green (greens lut) r.gamma_size len
  blue ← lut_compose r.blue (blues lut) r.gamma_size len
  some (pack red green blue)
gamma_blob r none len = do
  red ← lut_interpolate r.red r.gamma_size len
  green ← lut_interpolate r.green r.gamma_size len
  blue ← lut_interpolate r.blue r.gamma_size len
  some (pack red green blue)

-- The calls of libdrm: drmModeCreatePropertyBlob, drmModeObjectSetProperty and
-- drmModeDestroyPropertyBlob.
pub data KernelCall : Type 0 where
  creates_blob : (data_of_blob : List ℕ) → (blob : ℕ) → KernelCall
  sets_property : (prop blob : ℕ) → KernelCall
  destroys_blob : (blob : ℕ) → KernelCall

-- What the function is given: the kernel's ids of the properties (0: not supported), whether the
-- CRTC has legacy ramps (gamma_set) and malloc succeeds, and the kernel's answers: the id of the
-- new blob, if it is created, and whether the property is set.
pub record Kernel : Type 0 where
  pub prop_id : CmProp → ℕ
  pub gamma_set : Bool
  pub memory : Bool
  pub new_blob : Option ℕ
  pub accepts : Bool

abbrev pub set_status : Kernel → Status
set_status k = if k.accepts then success else bad_request

-- From the label do_push on.
unfoldable pub do_push : Kernel → CmProp → Option (List ℕ) → Status × List KernelCall
do_push k p none = (set_status k, sets_property (k.prop_id p) 0 ∷ [])
do_push k p (some xs) = elim k.new_blob [
  | none ↦ (bad_request, [])
  | some blob ↦ (
    set_status k,
    creates_blob xs blob ∷ sets_property (k.prop_id p) blob ∷ destroys_blob blob ∷ [],
  )
]

-- `none`: a fault in the composition of the tables.
unfoldable pub push_supported : Kernel → Ramps → CmProp → Colors → Option (Status × List KernelCall)
push_supported k r gamma_lut s =
    if not k.gamma_set
    then some (do_push k gamma_lut s.gamma_lut)
    else if not k.memory
    then some (bad_alloc, [])
    else (gamma_blob r s.gamma_lut s.gamma_lut_size >>= λ xs. some (do_push k gamma_lut (some xs)))
push_supported k r degamma_lut s = some (do_push k degamma_lut s.degamma_lut)
push_supported k r ctm s = some (do_push k ctm s.ctm)
push_supported k r _ s = some (bad_name, [])

unfoldable pub push_cm_prop : Kernel → Ramps → CmProp → Colors → Option (Status × List KernelCall)
push_cm_prop k r p s = if k.prop_id p == 0 then some (bad_name, []) else push_supported k r p s

-- drmmode_crtc_gamma_do_set: the ramps go to the kernel by drmModeCrtcSetGamma, or composed.
pub data GammaSet : Type 0 where
  sets_legacy : Ramps → GammaSet
  pushes : Option (Status × List KernelCall) → GammaSet

unfoldable pub gamma_do_set : Kernel → Ramps → Colors → GammaSet
gamma_do_set k r s =
    if k.prop_id gamma_lut == 0 then sets_legacy r else pushes (push_cm_prop k r gamma_lut s)
