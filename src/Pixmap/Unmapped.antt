-- ===== src/Pixmap/Unmapped.antt =====
-- src/amdgpu_bo_helper.c and src/amdgpu_pixmap.c: a pixmap whose GBM buffer mmap refuses to map.
use xf86_video_amdgpu.Prelude.{
  ℕ, ◌≤◌, ◌<◌, ◌≡◌, refl, ap, ◌∙◌, true, false, ◌||◌, some, [], ◌∷◌, ◌==◌, ltb, arith,
}
use xf86_video_amdgpu.Framebuffer.{ok}
use xf86_video_amdgpu.Pixmap.{
  Settings, Grant, Buffer, Request, GbmFormat, gbm_bo_create, Memory, note, set_buffer, has_bit,
  gtt_bit, dri2_bit, front_bit, scanout_bit, linear_bit, get_gbm_format, map_failed, granted,
  alloc_pixmap_bo, mapped_at, bo_map,
}
use xf86_video_amdgpu.Pixmap.Private.{Screen, new_private, set_private, get_pixmap_bo}
use xf86_video_amdgpu.Pixmap.Create.{
  cpu_ptr_of, fb_create_pixmap, modify_pixmap_header, Offer, request_of, map_pixmap, fill, equip,
  pixmap_create,
}

-- A GBM buffer is allocated.
allocated :
    (g : Grant) (i : Settings) (r : Request) (m : Memory) (b : ℕ) (format : GbmFormat)
    → i.gbm ≡ true
    → has_bit gtt_bit r.usage_hint ≡ false
    → get_gbm_format r.depth r.bits_per_pixel ≡ some format
    → g.address ≡ some b
    → g.creates ≡ true
    → (n : Memory) × (new : Buffer) × (alloc_pixmap_bo g i r m ≡ (some b, some g.stride, n))
      × (n.buffer b ≡ some new)
      × (new.gbm ≡ true)
unfolding alloc_pixmap_bo granted
allocated g i r m b format gbm gtt fmt address creates =
    let call =
      gbm_bo_create r.width r.height format (has_bit scanout_bit r.usage_hint)
        (has_bit front_bit r.usage_hint)
        (r.usage_hint == i.usage_shared || has_bit linear_bit r.usage_hint) in
    let new : Buffer = record { gbm = true; cpu_ptr = 0; ref_count = 1 } in
    (
      set_buffer b (some new) (note call m),
      new,
      simp (alloc_pixmap_bo, gtt, gbm, fmt, granted, address, creates) refl,
      ground arith,
      refl,
    )

-- It is kept, and mapped at MAP_FAILED.
mapped :
    (o : Offer) (x : ℕ) (r : Request) (b pitch : ℕ) (s : Screen) (new : Buffer)
    → s.memory.buffer b ≡ some new
    → new.gbm ≡ true
    → o.mapping.gem_mmap ≡ true
    → o.mapping.mmap ≡ map_failed
    → (t : Screen) × (map_pixmap o x r b pitch s
        ≡ ok (some x, modify_pixmap_header x r.width r.height pitch map_failed ∷ [], t))
      × (t.private ≡ s.private)
unfolding map_pixmap bo_map mapped_at
mapped o x r b pitch s new there gbm mmaps failed =
    let m : Memory = set_buffer b (some (record new { cpu_ptr = map_failed })) s.memory in
    let at : mapped_at o.mapping new.gbm ≡ some map_failed = ground arith in
    let stored : cpu_ptr_of b m ≡ map_failed = ground arith in
    (record s { memory = m }, simp (map_pixmap, bo_map, there, at) (rw stored refl), refl)

-- For a DRI2 pixmap of 1 to 32767 pixels each way, of a depth other than 1 that has a GBM format, and
-- without the hint GTT, where there is GBM, the allocations succeed, the kernel gives the offset for
-- mmap, and mmap fails: the pixmap is made and keeps the buffer all the same, and MAP_FAILED is the
-- address of its pixels.
pub pixmap_create-map_failed :
    (o : Offer) (i : Settings) (r : Request) (s : Screen) (x b : ℕ) (format : GbmFormat)
    → has_bit dri2_bit r.usage_hint ≡ true
    → 0 < r.width
    → r.width ≤ 32767
    → 0 < r.height
    → r.height ≤ 32767
    → (r.depth == 1) ≡ false
    → o.first ≡ some x
    → o.callocs ≡ true
    → i.gbm ≡ true
    → has_bit gtt_bit (request_of o i r).usage_hint ≡ false
    → get_gbm_format r.depth o.bits_per_pixel ≡ some format
    → o.grant.address ≡ some b
    → o.grant.creates ≡ true
    → o.mapping.gem_mmap ≡ true
    → o.mapping.mmap ≡ map_failed
    → (t : Screen) × (pixmap_create o i r s
        ≡ ok (
          some x,
          fb_create_pixmap 0 0 r.depth r.usage_hint
              ∷ modify_pixmap_header x r.width r.height o.grant.stride map_failed
              ∷ [],
          t,
        ))
      × (get_pixmap_bo t.private x ≡ some b)
unfolding pixmap_create equip fill get_pixmap_bo
pixmap_create-map_failed o i r s x b format dri2 w w' h h' deep first callocs gbm gtt fmt address
      creates mmaps failed =
    let area : (r.width == 0 || r.height == 0) ≡ false = ground arith in
    let fits : (ltb 32767 r.width || ltb 32767 r.height) ≡ false = ground arith in
    let (m, new, granted, there, is_gbm) =
      allocated o.grant i (request_of o i r) s.memory b format gbm gtt fmt address creates in
    let s' : Screen =
      set_private x (some (record new_private { bo = some b })) (record s { memory = m }) in
    let (t, maps, same) =
      mapped o x (request_of o i r) b o.grant.stride s' new there is_gbm mmaps failed in
    (
      t,
      simp (pixmap_create, dri2, fits, deep, first, equip, area, callocs, fill, granted, maps) refl,
      ap (λ f. get_pixmap_bo f x) same ∙ ground arith,
    )
