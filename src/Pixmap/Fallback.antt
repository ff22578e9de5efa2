-- ===== src/Pixmap/Fallback.antt =====
-- src/amdgpu_pixmap.c: the counts of buffers over the creation of a pixmap, failures included.
use xf86_video_amdgpu.Prelude.{
  ℕ, ◌+◌, ◌-◌, ◌≤◌, ◌<◌, ◌≡◌, refl, inl, inr, Bool, true, false, ◌&&◌, ◌||◌, not, Option, none,
  some, List, [], ◌∷◌, ◌==◌, ltb, arith, Bool-cases, Option-cases,
}
use xf86_video_amdgpu.Framebuffer.{Result, ok}
use xf86_video_amdgpu.Framebuffer.Counting.{points}
use xf86_video_amdgpu.Pixmap.{
  Settings, Grant, Request, Call, Memory, set_buffer, note, granted, bo_open, alloc_pixmap_bo,
  Mapping, mapped_at, bo_map, bo_unref, has_bit, gtt_bit, dri2_bit, get_gbm_format,
}
use xf86_video_amdgpu.Pixmap.Private.{Screen, new_private, set_private, bo_of, drop_bo}
use xf86_video_amdgpu.Pixmap.Counting.{
  IsHeldBy, IsHeldBy-cong, drop_bo-IsHeldBy, keepers-update_once, times, holders,
}
use xf86_video_amdgpu.Pixmap.Create.{
  cpu_ptr_of, Offer, FbCall, modify_pixmap_header, fb_destroy_pixmap, fb_create_pixmap, or_zero,
  map_pixmap, fill, equip, request_of, pixmap_create,
}

module _ (h : ℕ → ℕ) (g : Grant) where
  -- The buffer that is made has one reference, the caller's.
  granted-IsHeldBy :
      (c : Call) (gbm : Bool) (m : Memory)
      → IsHeldBy h m
      → ((b : ℕ) → g.address ≡ some b → m.buffer b ≡ none)
      → IsHeldBy (λ b. h b + points (granted g c gbm m).0 b) (granted g c gbm m).1
  unfolding granted
  granted-IsHeldBy c gbm m held fresh = elim (Option-cases g.address) [
    | inl nowhere ↦ rw nowhere (IsHeldBy-cong h _ m (λ b. omega arith) held)
    | inr (a, there) ↦ elim (Bool-cases g.creates) [
      | inr refused ↦ rw (there, refused) (IsHeldBy-cong h _ (note c m) (λ b. omega arith) held)
      | inl made ↦ rw (there, made) (λ b. ground (arith, held b, held a, fresh a there))
    ]
  ]

  alloc_pixmap_bo-IsHeldBy :
      (i : Settings) (r : Request) (m : Memory)
      → IsHeldBy h m
      → ((b : ℕ) → g.address ≡ some b → m.buffer b ≡ none)
      → let made = alloc_pixmap_bo g i r m in IsHeldBy (λ b. h b + points made.0 b) made.2
  unfolding alloc_pixmap_bo bo_open
  alloc_pixmap_bo-IsHeldBy i r m held fresh =
      elim (Bool-cases (not (has_bit gtt_bit r.usage_hint) && i.gbm)) [
        | inr plain ↦ rw plain (granted-IsHeldBy _ _ m held fresh)
        | inl gbm ↦ elim (Option-cases (get_gbm_format r.depth r.bits_per_pixel)) [
          | inl unsupported ↦ rw (gbm, unsupported) (IsHeldBy-cong h _ m (λ b. omega arith) held)
          | inr (format, supported) ↦ rw (gbm, supported) (granted-IsHeldBy _ _ m held fresh)
        ]
      ]

bo_map-IsHeldBy :
    (h : ℕ → ℕ) (a : Mapping) (b : ℕ) (m : Memory)
    → IsHeldBy h m
    → 0 < h b
    → (mapped : Bool) × (t : Memory) × (bo_map a b m ≡ ok (mapped, t)) × IsHeldBy h t
unfolding bo_map
bo_map-IsHeldBy h a b m held used = elim (held b) [
  | inl (gone, zero_holders) ↦ absurd (ground arith)
  | inr (r, there, count, positive, small) ↦ elim (Option-cases (mapped_at a r.gbm)) [
    | inr (p, mapped) ↦ (
      true,
      set_buffer b (some (record r { cpu_ptr = p })) m,
      simp (bo_map, there, mapped) refl,
      λ c. ground (arith, held c),
    )
    | inl failed ↦ (false, m, simp (bo_map, there, failed) refl, held)
  ]
]

module _ (xs : List ℕ) (owned : ℕ → ℕ) (o : Offer) where
  abbrev Counted : Result (Option ℕ × List FbCall × Screen) → Type 0
  Counted a =
      (y : Option ℕ) × (calls : List FbCall) × (t : Screen) × (a ≡ ok (y, calls, t))
      × IsHeldBy (holders xs owned t) t.memory

  -- The reference of a private goes with the pixmap.
  forgotten :
      (x : ℕ) (s : Screen) (m : Memory)
      → IsHeldBy (λ b. holders xs owned s b - points (bo_of (s.private x)) b) m
      → times x xs ≡ 1
      → IsHeldBy (holders xs owned (set_private x none s)) m
  forgotten x s m held once =
      IsHeldBy-cong _ (holders xs owned (set_private x none s)) m
        (λ b. omega (arith, keepers-update_once xs s.private x none b once)) held

  map_pixmap-IsHeldBy :
      (x : ℕ) (r : Request) (b pitch : ℕ) (s : Screen)
      → IsHeldBy (holders xs owned s) s.memory
      → times x xs ≡ 1
      → bo_of (s.private x) ≡ some b
      → Counted (map_pixmap o x r b pitch s)
  unfolding map_pixmap drop_bo
  map_pixmap-IsHeldBy x r b pitch s held once keeps =
      let room : (c : ℕ) → points (some b) c ≤ holders xs owned s c =
        λ c. omega (arith, rw keeps at (keepers-update_once xs s.private x none c once)) in
      let (ret, m, mapped, held') =
        bo_map-IsHeldBy _ o.mapping b s.memory held (ground (arith, room b)) in
      elim (Bool-cases ret) [
        | inl maps ↦ (
          some x,
          modify_pixmap_header x r.width r.height pitch (cpu_ptr_of b m) ∷ [],
          record s { memory = m },
          simp (map_pixmap, mapped) (rw maps refl),
          held',
        )
        | inr fails ↦
            let (m', freed, held'') = drop_bo-IsHeldBy _ (some b) m held' room in
            let gone : bo_unref b m ≡ ok m' = freed in
            (
              o.second,
              fb_destroy_pixmap x ∷ fb_create_pixmap r.width r.height r.depth r.usage_hint ∷ [],
              set_private x none (record s { memory = m' }),
              simp (map_pixmap, mapped, gone) (rw fails refl),
              forgotten x s m' (rw keeps held'') once,
            )
      ]

  fill-IsHeldBy :
      (i : Settings) (x : ℕ) (r : Request) (s : Screen)
      → IsHeldBy (holders xs owned s) s.memory
      → times x xs ≡ 1
      → s.private x ≡ none
      → ((b : ℕ) → o.grant.address ≡ some b → s.memory.buffer b ≡ none)
      → Counted (fill o i x r s)
  unfolding fill
  fill-IsHeldBy i x r s held once empty fresh =
      let (bo, pitch, m) = alloc_pixmap_bo o.grant i r s.memory in
      let held' = alloc_pixmap_bo-IsHeldBy (holders xs owned s) o.grant i r s.memory held fresh in
      elim (Option-cases bo) [
        | inl refused ↦ (
          o.second,
          fb_destroy_pixmap x ∷ fb_create_pixmap r.width r.height r.depth r.usage_hint ∷ [],
          set_private x none (record s { memory = m }),
          simp (fill, refused) refl,
          forgotten x s m (IsHeldBy-cong _ _ m (λ c. rw (refused, empty) (omega arith)) held') once,
        )
        | inr (b, made) ↦
            let s' =
              set_private x (some (record new_private { bo = some b })) (record s { memory = m }) in
            let (y, calls, t, mapped, held'') =
              map_pixmap-IsHeldBy x r b (or_zero pitch) s'
                (IsHeldBy-cong _ (holders xs owned s') m
                  (λ c. rw made (
                    omega (
                      arith,
                      rw empty at (
                          keepers-update_once xs s.private x
                            (some (record new_private { bo = some b })) c once),
                    )))
                  held')
                once (ground arith) in
            (y, calls, t, simp (fill, made) mapped, held'')
      ]

  equip-IsHeldBy :
      (i : Settings) (x : ℕ) (r : Request) (s : Screen)
      → IsHeldBy (holders xs owned s) s.memory
      → times x xs ≡ 1
      → s.private x ≡ none
      → ((b : ℕ) → o.grant.address ≡ some b → s.memory.buffer b ≡ none)
      → Counted (equip o i x r s)
  unfolding equip
  equip-IsHeldBy i x r s held once empty fresh = elim (Bool-cases (r.width == 0 || r.height == 0)) [
    | inl nothing ↦ simp (equip, nothing) (some x, [], s, refl, held)
    | inr area ↦ elim (Bool-cases o.callocs) [
      | inl has ↦
          simp (equip, area, has) (fill-IsHeldBy i x (request_of o i r) s held once empty fresh)
      | inr lacks ↦
          simp (equip, area, lacks)
            (
              o.second,
              _,
              set_private x none s,
              refl,
              forgotten x s s.memory (IsHeldBy-cong _ _ s.memory (λ b. rw empty (omega arith)) held)
                  once,
            )
    ]
  ]

  -- With the buffers counted, a new pixmap that is listed once and has no private, and a new buffer at
  -- an address that is free: however the allocations and the mapping are answered, creating a pixmap
  -- returns, and the buffers are counted after it, so that one that no listed pixmap and nothing else
  -- holds is not allocated.
  pub pixmap_create-IsHeldBy :
      (i : Settings) (r : Request) (s : Screen)
      → IsHeldBy (holders xs owned s) s.memory
      → ((x : ℕ) → o.first ≡ some x → (times x xs ≡ 1) × (s.private x ≡ none))
      → ((b : ℕ) → o.grant.address ≡ some b → s.memory.buffer b ≡ none)
      → Counted (pixmap_create o i r s)
  unfolding pixmap_create
  pixmap_create-IsHeldBy i r s held new fresh =
      elim (Bool-cases (not (has_bit dri2_bit r.usage_hint))) [
        | inl plain ↦ simp (pixmap_create, plain) (o.first, _, s, refl, held)
        | inr dri2 ↦ elim (Bool-cases (ltb 32767 r.width || ltb 32767 r.height)) [
          | inl large ↦ simp (pixmap_create, dri2, large) (none, _, s, refl, held)
          | inr fits ↦ elim (Bool-cases (r.depth == 1)) [
            | inl bitmap ↦ simp (pixmap_create, dri2, fits, bitmap) (o.first, _, s, refl, held)
            | inr deep ↦ elim (Option-cases o.first) [
              | inl nowhere ↦
                  simp (pixmap_create, dri2, fits, deep, nowhere) (none, _, s, refl, held)
              | inr (x, there) ↦
                  let (y, calls, t, made, held') =
                    equip-IsHeldBy i x r s held (new x there).0 (new x there).1 fresh in
                  simp (pixmap_create, dri2, fits, deep, there, made) (y, _, t, refl, held')
            ]
          ]
        ]
      ]
