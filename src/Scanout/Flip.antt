-- ===== src/Scanout/Flip.antt =====
-- src/amdgpu_kms.c: updates and flips of the scanout pixmaps on the event queue of
-- src/amdgpu_drm_queue.c, from the block handler to the callbacks of the queue.
use xf86_video_amdgpu.Prelude.{
  ℕ, ◌+◌, ◌-◌, true, false, ◌&&◌, ◌||◌, not, Option, none, some, List, [], ◌∷◌, if◌then◌else◌, ◌==◌,
}
use xf86_video_amdgpu.DrmQueue.{
  Driver, State, Event, queue_alloc, queue_handler, abort_entry, handle_deferred, queue_error,
  update,
}
use xf86_video_amdgpu.Framebuffer.{ok, fatal, fault, ◌>>=◌, fb_reference, flip_pending}
use xf86_video_amdgpu.Pageflip.{is_some}
use xf86_video_amdgpu.Scanout.Regions.{Drawing}
use xf86_video_amdgpu.Scanout.{
  Scanouts, flushes, sets_mode, destroys_pixmap, emit, extents_intersect, scanout_do_update,
}
use xf86_video_amdgpu.Scanout.Callbacks.{
  World, Setting, default_id, scanout_flip_handler_proc, scanout_flip_abort_proc,
  scanout_update_handler_proc, scanout_update_abort_proc, on_crtc, with_fbs, scanout_update_handler,
  scanout_driver,
}

-- The event with which the driver stands in for the kernel.
abbrev pub null_event : (queue_seq : ℕ) → Event
null_event seq = record { frame = 0; sec = 0; usec = 0; user_ptr = seq }

module _ {R P : Type 0} (x : Drawing R P) (e : Setting) (other : Driver (World R P)) where
  -- From drmmode_wait_vblank on.
  unfoldable pub wait_update : (c queue_seq : ℕ) → State (World R P) → Option (State (World R P))
  wait_update c seq t =
      if not (e.accepts_vblank seq)
      then (let failed : World R P =
            t.world >>= λ s. ok (on_crtc c (λ v. record v { vblank_failed = true }) s) in
          let t' =
            queue_handler (scanout_driver x e other) (null_event seq)
              (record t { world = failed }) in
          handle_deferred (scanout_driver x e other) e.fuel c
            (record t' { nesting = update t'.nesting c (t'.nesting c + 1) }))
      else some (record t {
        world = t.world >>= λ s.
            let s' =
              if (s.crtc c).flip_failed && (s.crtc c).vblank_failed
              then emit (sets_mode c) s
              else s in
            ok (on_crtc c (λ v. record v { vblank_failed = false }) s');
      })

  -- From amdgpu_drm_queue_alloc on. The data of the entry is the private of the CRTC.
  unfoldable pub queue_update : (c : ℕ) → State (World R P) → Option (State (World R P))
  queue_update c t =
      let (t', seq) =
        queue_alloc (scanout_driver x e other) e.update_memory c e.client default_id c
          scanout_update_handler_proc scanout_update_abort_proc false t in
      if seq == queue_error
      then some (record t' { world = t'.world >>= scanout_update_handler x e c })
      else wait_update c seq (record t' {
        world = t'.world >>= λ s. ok (on_crtc c (λ v. record v { update_pending = seq }) s);
      })

  -- amdgpu_scanout_update with the CRTC's state
  unfoldable pub update_crtc :
      (c : ℕ) → Scanouts R P → State (World R P) → Option (State (World R P))
  update_crtc c s t =
      let v = s.crtc c in
      if not v.enabled
        || not (v.update_pending == 0)
        || is_some (s.fbs.held (flip_pending c))
        || not v.dpms_on
      then some t
      else (elim v.damage [
        | none ↦ some t
        | some r ↦
            if x.is_nil r
            then some t
            else if not (extents_intersect x c v (x.extents r))
            then some (record t {
              world = ok (on_crtc c (λ v. record v { damage = some x.no_region }) s);
            })
            else queue_update c t
      ])

  unfoldable pub scanout_update : (c : ℕ) → State (World R P) → Option (State (World R P))
  scanout_update c t = elim t.world [ ok s ↦ update_crtc c s t | fatal ↦ some t | fault ↦ some t ]

  -- Where the kernel takes the flip.
  unfoldable pub flip_taken : (c id fb queue_seq : ℕ) → Scanouts R P → World R P
  flip_taken c id fb seq s = do
    f ← fb_reference (flip_pending c) (some fb) s.fbs
    ok (
        on_crtc c (λ v. record v { flip_failed = false; scanout_id = id; update_pending = seq })
          (with_fbs f s))

  abbrev destroyed : Option ℕ → Scanouts R P → Scanouts R P
  destroyed none s = s
  destroyed (some p) s = emit (destroys_pixmap p) s

  -- drmmode_crtc_scanout_destroy, and TearFree goes off.
  unfoldable pub give_up : (c id : ℕ) → Scanouts R P → Scanouts R P
  give_up c id s =
      on_crtc c (λ v. record v { scanout = update v.scanout id none; tear_free = false })
        (destroyed ((s.crtc c).scanout id) s)

  -- Where it does not.
  unfoldable pub flip_refused :
      (c id queue_seq : ℕ) → State (World R P) → Option (State (World R P))
  flip_refused c id seq t =
      let failed : World R P =
        t.world >>= λ s. ok (on_crtc c (λ v. record v { flip_failed = true }) s) in
      let t' = abort_entry (scanout_driver x e other) seq (record t { world = failed }) in
      let synced : World R P = t'.world >>= λ s.
      ok (on_crtc c (λ v. record v { damage = some v.last_region; last_region = x.no_region }) s) in
      elim (scanout_update c (record t' { world = synced })) [
        | none ↦ none
        | some t'' ↦ some (record t'' { world = t''.world >>= λ s. ok (give_up c id s) })
      ]

  abbrev pub scanout_fb : Option ℕ → Option ℕ
  scanout_fb none = none
  scanout_fb (some p) = e.fb_of p

  -- Once the scanout pixmap has been drawn to.
  unfoldable pub queue_flip :
      (c id : ℕ) → Scanouts R P → State (World R P) → Option (State (World R P))
  queue_flip c id s t = elim (scanout_fb ((s.crtc c).scanout id)) [
    | none ↦ some (record t { world = ok s })
    | some fb ↦
        let (t', seq) =
          queue_alloc (scanout_driver x e other) e.flip_memory c e.client default_id fb
            scanout_flip_handler_proc scanout_flip_abort_proc true (record t { world = ok s }) in
        if seq == queue_error
        then some t'
        else if not (e.accepts_flip fb seq)
        then flip_refused c id seq t'
        else some (record t' { world = t'.world >>= flip_taken c id fb seq })
  ]

  -- `RegionEmpty(region)`, after the flush
  abbrev pub cleaned : ℕ → Scanouts R P → Scanouts R P
  cleaned c s = on_crtc c (λ v. record v { damage = some x.no_region }) (emit flushes s)

  -- amdgpu_scanout_flip with the CRTC's state
  unfoldable pub flip_crtc : (c : ℕ) → Scanouts R P → State (World R P) → Option (State (World R P))
  flip_crtc c s t =
      let v = s.crtc c in
      let id = 1 - v.scanout_id in
      if not (v.update_pending == 0) || is_some (s.fbs.held (flip_pending c)) || not v.dpms_on
      then some t
      else (elim v.damage [
        | none ↦ some (record t { world = fault })
        | some r ↦ elim (scanout_do_update x e.gc c id s.root (x.extents r) s) [
          | ok (false, s') ↦ some (record t { world = ok s' })
          | ok (true, s') ↦ queue_flip c id (cleaned c s') t
          | fatal ↦ some (record t { world = fatal })
          | fault ↦ some (record t { world = fault })
        ]
      ])

  unfoldable pub scanout_flip : (c : ℕ) → State (World R P) → Option (State (World R P))
  scanout_flip c t = elim t.world [ ok s ↦ flip_crtc c s t | fatal ↦ some t | fault ↦ some t ]

  -- The body of the loop of AMDGPUBlockHandler_KMS.
  unfoldable pub block_crtc :
      (c : ℕ) → Scanouts R P → State (World R P) → Option (State (World R P))
  block_crtc c s t =
      let v = s.crtc c in
      if v.rotate
      then some t
      else if v.tear_free
      then scanout_flip c t
      else if is_some (v.scanout v.scanout_id)
      then scanout_update c t
      else some t

  unfoldable pub block_round : (c : ℕ) → State (World R P) → Option (State (World R P))
  block_round c t = elim t.world [ ok s ↦ block_crtc c s t | fatal ↦ some t | fault ↦ some t ]

  unfoldable pub block_loop : List ℕ → State (World R P) → Option (State (World R P))
  block_loop [] t = some t
  block_loop (c ∷ cs) t = elim (block_round c t) [ none ↦ none | some t' ↦ block_loop cs t' ]
