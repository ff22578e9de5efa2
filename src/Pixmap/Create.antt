-- ===== src/Pixmap/Create.antt =====
-- src/amdgpu_pixmap.c: pixmaps that are created and destroyed where glamor is disabled.
use xf86_video_amdgpu.Prelude.{
  ℕ, Bool, true, false, ◌||◌, not, Option, none, some, List, [], ◌∷◌, if◌then◌else◌, ◌==◌, ltb,
}
use xf86_video_amdgpu.Framebuffer.{Result, ok, ◌>>=◌}
use xf86_video_amdgpu.Pixmap.{
  Settings, Memory, Mapping, Grant, Request, alloc_pixmap_bo, bo_map, bo_unref, has_bit, with_bit,
  dri2_bit, linear_bit,
}
use xf86_video_amdgpu.Pixmap.Private.{Screen, new_private, set_private, set_pixmap_bo}

-- Calls of the X server's framebuffer layer.
pub data FbCall : Type 0 where
  fb_create_pixmap : (width height depth usage : ℕ) → FbCall
  modify_pixmap_header : (pixmap width height pitch pixels : ℕ) → FbCall
  fb_destroy_pixmap : (pixmap : ℕ) → FbCall

-- What a call of amdgpu_pixmap_create is answered: the pixmaps that fbCreatePixmap makes, the first
-- one with its depth in bits, calloc's answer, the allocation's, and the mapping's.
pub record Offer : Type 0 where
  pub first : Option ℕ
  pub second : Option ℕ
  pub bits_per_pixel : ℕ
  pub callocs : Bool
  pub grant : Grant
  pub mapping : Mapping

abbrev pub or_zero : Option ℕ → ℕ
or_zero none = 0
or_zero (some n) = n

-- The label fallback_pixmap: the empty pixmap, and its private with it, makes way for one in main
-- memory.
abbrev pub fall_back : Offer → ℕ → Request → Screen → Option ℕ × List FbCall × Screen
fall_back o x r s = (
  o.second,
  fb_destroy_pixmap x ∷ fb_create_pixmap r.width r.height r.depth r.usage_hint ∷ [],
  set_private x none s,
)

abbrev pub cpu_ptr_of : ℕ → Memory → ℕ
cpu_ptr_of b m = elim (m.buffer b) [ none ↦ 0 | some r ↦ r.cpu_ptr ]

-- From amdgpu_bo_map on.
unfoldable pub map_pixmap :
    Offer → ℕ → Request → (bo pitch : ℕ) → Screen → Result (Option ℕ × List FbCall × Screen)
map_pixmap o x r b pitch s = do
  (mapped, m) ← bo_map o.mapping b s.memory
  if mapped
      then ok (
        some x,
        modify_pixmap_header x r.width r.height pitch (cpu_ptr_of b m) ∷ [],
        record s { memory = m },
      )
      else (do m' ← bo_unref b m; ok (fall_back o x r (record s { memory = m' })))

-- `if (w && h)`, once the private is allocated.
unfoldable pub fill :
    Offer → Settings → ℕ → Request → Screen → Result (Option ℕ × List FbCall × Screen)
fill o i x r s =
    let (bo, pitch, m) = alloc_pixmap_bo o.grant i r s.memory in
    elim bo [
      | none ↦ ok (fall_back o x r (record s { memory = m }))
      | some b ↦
          map_pixmap o x r b (or_zero pitch)
            (set_private x (some (record new_private { bo = some b })) (record s { memory = m }))
    ]

-- The request of the caller, with the bits per pixel of the pixmap that has been made; without
-- glamor, `usage |= AMDGPU_CREATE_PIXMAP_LINEAR`.
abbrev pub request_of : Offer → Settings → Request → Request
request_of o i r = record r {
  usage_hint = if i.use_glamor then r.usage_hint else with_bit linear_bit r.usage_hint;
  bits_per_pixel = o.bits_per_pixel;
}

-- From `if (w && h)` on.
unfoldable pub equip :
    Offer → Settings → ℕ → Request → Screen → Result (Option ℕ × List FbCall × Screen)
equip o i x r s =
    if r.width == 0 || r.height == 0
    then ok (some x, [], s)
    else if o.callocs
    then fill o i x (request_of o i r) s
    else ok (fall_back o x r s)

abbrev after : FbCall → Option ℕ × List FbCall × Screen → Option ℕ × List FbCall × Screen
after c (x, calls, s) = (x, c ∷ calls, s)

-- The pixmap, the calls, and the screen.
unfoldable pub pixmap_create :
    Offer → Settings → Request → Screen → Result (Option ℕ × List FbCall × Screen)
pixmap_create o i r s =
    if not (has_bit dri2_bit r.usage_hint)
    then ok (o.first, fb_create_pixmap r.width r.height r.depth r.usage_hint ∷ [], s)
    else if ltb 32767 r.width || ltb 32767 r.height
    then ok (none, [], s)
    else if r.depth == 1
    then ok (o.first, fb_create_pixmap r.width r.height r.depth r.usage_hint ∷ [], s)
    else (elim o.first [
      | none ↦ ok (none, fb_create_pixmap 0 0 r.depth r.usage_hint ∷ [], s)
      | some x ↦ (do
        made ← equip o i x r s
        ok (after (fb_create_pixmap 0 0 r.depth r.usage_hint) made))
    ])

-- `refcnt` is the count of the pixmap.
unfoldable pub pixmap_destroy : (refcnt : ℕ) → ℕ → Screen → Result (List FbCall × Screen)
pixmap_destroy refcnt x s = do
  (_, s') ← (if refcnt == 1 then set_pixmap_bo false x none s else ok (true, s))
  ok (fb_destroy_pixmap x ∷ [], s')
