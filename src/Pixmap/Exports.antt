-- ===== src/Pixmap/Exports.antt =====
-- src/amdgpu_bo_helper.c, amdgpu_pixmap_get_handle and amdgpu_pixmap_get_tiling_info, and
-- src/amdgpu_pixmap.h, amdgpu_pixmap_get_fb: the handle and the framebuffer of a pixmap.
use xf86_video_amdgpu.Prelude.{ℕ, Bool, true, false, ◌&&◌, Option, none, some, if◌then◌else◌}
use xf86_video_amdgpu.Framebuffer.{Slot, pixmap_fb, Fbs, Result, ok, fault, ◌>>=◌, set_fb, set_slot}
use xf86_video_amdgpu.Pixmap.{Settings, Memory}
use xf86_video_amdgpu.Pixmap.Private.{Private, Screen, new_private, set_private}

-- What the functions are answered: by calloc, by glamor and the kernel for the pixmap, by the kernel
-- for the buffer at an address, for the tiling of a handle, by malloc and by drmModeAddFB.
pub record Answers : Type 0 where
  pub callocs : Bool
  pub glamor_fd : Bool
  pub prime_handle : Option ℕ
  pub gbm_bo_get_handle : ℕ → ℕ
  pub amdgpu_bo_export : ℕ → Option ℕ
  pub get_metadata : ℕ → Option ℕ
  pub address : Option ℕ
  pub add_fb : (handle : ℕ) → Option ℕ

unfoldable pub bo_get_handle : Answers → ℕ → Memory → Result (Option ℕ)
bo_get_handle a b m = elim (m.buffer b) [
  | none ↦ fault
  | some r ↦ ok (if r.gbm then some (a.gbm_bo_get_handle b) else a.amdgpu_bo_export b)
]

unfoldable pub do_get_tiling_info : Answers → Private → Private
do_get_tiling_info a p = elim (a.get_metadata p.handle) [
  | none ↦ p
  | some t ↦ record p { tiling_info = t }
]

-- From `if (info->use_glamor)` to the label `success`: the private with its handle.
unfoldable pub find_handle : Answers → Settings → Private → Memory → Result (Option Private)
find_handle a i p m =
    if i.use_glamor
    then (if a.glamor_fd
        then (elim a.prime_handle [
          | none ↦ ok none
          | some h ↦ ok (some (do_get_tiling_info a (record p { handle = h })))
        ])
        else ok none)
    else (elim p.bo [
      | none ↦ ok none
      | some b ↦ (do
        h ← bo_get_handle a b m
        ok (elim h [ none ↦ none | some h ↦ some (record p { handle = h }) ]))
    ])

-- From the private on.
unfoldable pub handle_of : Answers → Settings → ℕ → Private → Screen → Result (Option ℕ × Screen)
handle_of a i x p s = if p.handle_valid then ok (some p.handle, set_private x (some p) s) else (do
  found ← find_handle a i p s.memory
  ok (elim found [
    | none ↦ (none, set_private x (some p) s)
    | some q ↦ (some q.handle, set_private x (some (record q { handle_valid = true })) s)
  ]))

-- Where calloc fails, `priv->handle_valid` is read through NULL.
unfoldable pub get_handle : Answers → Settings → ℕ → Screen → Result (Option ℕ × Screen)
get_handle a i x s = if i.shadow_fb then ok (none, s) else (elim (s.private x) [
  | some p ↦ handle_of a i x p s
  | none ↦ if a.callocs then handle_of a i x new_private s else fault
])

abbrev read_tiling : ℕ → Screen → Result (ℕ × Screen)
read_tiling x s = elim (s.private x) [ none ↦ fault | some p ↦ ok (p.tiling_info, s) ]

abbrev has_handle : Option Private → Bool
has_handle none = false
has_handle (some p) = p.handle_valid

unfoldable pub get_tiling_info : Answers → Settings → ℕ → Screen → Result (ℕ × Screen)
get_tiling_info a i x s =
    if has_handle (s.private x)
    then read_tiling x s
    else (do (_, s') ← get_handle a i x s; read_tiling x s')

-- The framebuffer starts with one reference, that of the slot it is stored in.
unfoldable pub fb_create : Answers → (handle : ℕ) → Slot → Fbs → Fbs
fb_create a h σ f = elim a.address [
  | none ↦ set_slot σ none f
  | some q ↦ (elim (a.add_fb h) [
    | none ↦ set_slot σ none f
    | some fb_handle ↦
        set_slot σ (some q) (set_fb q (some (record { refcnt = 1; handle = fb_handle })) f)
  ])
]

-- Whether there is a pointer to the framebuffer of the pixmap.
unfoldable pub has_fb_ptr : Settings → ℕ → Screen → Bool
has_fb_ptr i x s = i.use_glamor && (elim (s.private x) [ none ↦ false | some _ ↦ true ])

unfoldable pub fb_at : Settings → ℕ → Screen → Option ℕ
fb_at i x s = if has_fb_ptr i x s then s.fbs.held (pixmap_fb x) else none

-- A pixmap whose handle is found but that has no pointer to a framebuffer makes the function write
-- through NULL.
unfoldable pub get_fb : Answers → Settings → ℕ → Screen → Result (Option ℕ × Screen)
get_fb a i x s = elim (fb_at i x s) [
  | some q ↦ ok (some q, s)
  | none ↦ (do
    (found, s') ← get_handle a i x s
    elim found [
      | none ↦ ok (fb_at i x s', s')
      | some h ↦
          if has_fb_ptr i x s'
          then (let s'' = record s' { fbs = fb_create a h (pixmap_fb x) s'.fbs } in
              ok (s''.fbs.held (pixmap_fb x), s''))
          else fault
    ])
]
