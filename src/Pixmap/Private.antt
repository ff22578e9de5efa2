-- ===== src/Pixmap/Private.antt =====
-- src/amdgpu_pixmap.h, and amdgpu_pixmap_get_handle of src/amdgpu_bo_helper.c: what the driver keeps
-- for a pixmap. Pixmaps are addresses; the field `fb` of a private is the slot `pixmap_fb`.
use xf86_video_amdgpu.Prelude.{ℕ, Bool, true, false, Option, none, some, if◌then◌else◌, ◌==◌}
use xf86_video_amdgpu.Framebuffer.{pixmap_fb, Fbs, Result, ok, ◌>>=◌, fb_reference}
use xf86_video_amdgpu.DrmQueue.{update}
use xf86_video_amdgpu.Pixmap.{Memory, bo_ref, bo_unref}

-- struct amdgpu_pixmap
pub record Private : Type 0 where
  pub tiling_info : ℕ
  pub bo : Option ℕ
  pub fb_failed : Bool
  pub handle_valid : Bool
  pub handle : ℕ

abbrev pub new_private : Private
new_private = record {
  tiling_info = 0;
  bo = none;
  fb_failed = false;
  handle_valid = false;
  handle = 0;
}

pub record Screen : Type 0 where
  pub memory : Memory
  pub fbs : Fbs
  pub private : ℕ → Option Private

abbrev pub set_private : ℕ → Option Private → Screen → Screen
set_private x v s = record s { private = update s.private x v }

abbrev pub bo_of : Option Private → Option ℕ
bo_of none = none
bo_of (some p) = p.bo

unfoldable pub get_pixmap_bo : (ℕ → Option Private) → ℕ → Option ℕ
get_pixmap_bo private x = bo_of (private x)

-- `priv->bo && priv->bo == bo`
abbrev pub is_same : (held bo : Option ℕ) → Bool
is_same (some a) (some b) = a == b
is_same _ _ = false

-- `if (priv->bo)`: the reference of the private is dropped.
unfoldable pub drop_bo : Option ℕ → Memory → Result Memory
drop_bo none m = ok m
drop_bo (some b) m = bo_unref b m

-- `priv` of the new contents, where there is a buffer. `none`: calloc fails.
abbrev renewed : (callocs : Bool) → Option Private → Option Private
renewed callocs none = if callocs then some new_private else none
renewed callocs (some p) = some p

abbrev taken : (bo : ℕ) → ℕ → Option Private → Screen → Result (Bool × Screen)
taken x b none s = ok (false, s)
taken x b (some p) s = do
  m ← bo_ref b s.memory
  ok (true, set_private x (some (record p { bo = some b })) (record s { memory = m }))

-- From `if (bo)` on, with the private that is left.
unfoldable pub attach :
    (callocs : Bool) → ℕ → Option ℕ → Option Private → Screen → Result (Bool × Screen)
attach callocs x none p s = ok (true, set_private x p s)
attach callocs x (some b) p s = taken x b (renewed callocs p) s

-- What is left of the private once its buffer and its framebuffer have been let go.
abbrev pub left_of : Option ℕ → Private → Option Private
left_of none p = none
left_of (some b) p = elim p.bo [ none ↦ some p | some _ ↦ some (record p { handle_valid = false }) ]

unfoldable pub set_pixmap_bo : (callocs : Bool) → ℕ → Option ℕ → Screen → Result (Bool × Screen)
set_pixmap_bo callocs x bo s = elim (s.private x) [
  | none ↦ (elim bo [ none ↦ ok (true, s) | some b ↦ attach callocs x (some b) none s ])
  | some p ↦ if is_same p.bo bo then ok (true, s) else (do
    m ← drop_bo p.bo s.memory
    f ← fb_reference (pixmap_fb x) none s.fbs
    attach callocs x bo (left_of bo p) (record s { memory = m; fbs = f }))
]
