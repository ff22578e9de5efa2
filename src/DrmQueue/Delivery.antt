-- ===== src/DrmQueue/Delivery.antt =====
-- src/amdgpu_drm_queue.c: from amdgpu_drm_queue_alloc over the kernel's event to the callback, and
-- what amdgpu_drm_abort_client and amdgpu_drm_abort_entry change on that way.
use xf86_video_amdgpu.Prelude.{
  ℕ, suc, ◌+◌, ◌*◌, ◌%◌, ◌^◌, ◌≡◌, ◌≢◌, sym, ◌∙◌, ◌⊎◌, inl, inr, Bool, true, false, none, some,
  List, [], ◌∷◌, ◌++◌, map, arith, if◌then◌else◌, ◌==◌, Bool-cases, Option-cases, length,
}
use xf86_video_amdgpu.DrmQueue.{
  Entry, State, Event, Driver, take_first, with_seq, queue_handler, handle_vblank_signalled,
  queue_alloc, next_seq, abort_client, abort_entry, abort_in_queue, abort_in_deferred,
  abort_in_signalled, queue_error,
}
use xf86_video_amdgpu.DrmQueue.Count.{count_seq, take_first-Taken}
use xf86_video_amdgpu.DrmQueue.Invariant.{IsValid, live_count}

-- The entry that queue_alloc makes, after its event.
abbrev pub delivered_entry :
    (n crtc client id event_data handler abort : ℕ) (is_flip : Bool) → Event → Entry
delivered_entry n crtc client id event_data handler abort is_flip ev = record {
  usec = (ev.sec * 1000000 + ev.usec) % 2 ^ 64;
  id = id;
  seq = n;
  event_data = event_data;
  client = client;
  crtc = crtc;
  handler = some handler;
  abort = abort;
  is_flip = is_flip;
  frame = ev.frame;
}

pub take_first-append :
    (n : ℕ) (xs : List Entry) (e : Entry)
    → e.seq ≡ n
    → count_seq n xs ≡ 0
    → take_first (with_seq n) (xs ++ e ∷ []) ≡ some (e, xs)
unfolding take_first
take_first-append n [] e h c = ground arith
take_first-append n (x ∷ xs) e h c = ground (arith, take_first-append n xs e h)

take_first-map :
    (n : ℕ) (f : Entry → Entry) (xs : List Entry) (e : Entry) (rest : List Entry)
    → ((x : Entry) → (f x).seq ≡ x.seq)
    → take_first (with_seq n) xs ≡ some (e, rest)
    → take_first (with_seq n) (map f xs) ≡ some (f e, map f rest)
unfolding take_first
take_first-map n f [] e rest h eq = cc
take_first-map n f (x ∷ xs) e rest h eq = elim (Bool-cases (with_seq n x)) [
  | inl t ↦ ground (arith, h x)
  | inr miss ↦ elim (Option-cases (take_first (with_seq n) xs)) [
    | inl none_left ↦ absurd (ground arith)
    | inr ((y, ys), later) ↦ ground (arith, h x, take_first-map n f xs y ys h later)
  ]
]

module _ {W : Type 0} (d : Driver W) where
  -- The event of a fresh entry finds that entry, also behind older ones, and moves it to the end
  -- of the signalled list of its kind with its time stamp in microseconds; the pending list is
  -- again the one from before the allocation.
  pub queue_handler-queue_alloc :
      (crtc client id event_data handler abort : ℕ) (is_flip : Bool) (ev : Event) (s : State W)
      → IsValid s
      → ev.user_ptr ≡ (queue_alloc d true crtc client id event_data handler abort is_flip s).1
      → let e = delivered_entry ev.user_ptr crtc client id event_data handler abort is_flip ev in
        queue_handler d ev (queue_alloc d true crtc client id event_data handler abort is_flip s).0
        ≡ (if is_flip
            then record s {
              queue_seq = (ev.user_ptr + 1) % 2 ^ 64;
              flip_signalled = s.flip_signalled ++ e ∷ [];
            }
            else record s {
              queue_seq = (ev.user_ptr + 1) % 2 ^ 64;
              vblank_signalled = s.vblank_signalled ++ e ∷ [];
            })
  unfolding queue_handler queue_alloc
  queue_handler-queue_alloc crtc client id event_data handler abort is_flip ev s v same =
      rw (found, queue_handler) (ground arith)
    where
      new : Entry
      new = record {
        usec = 0;
        id = id;
        seq = next_seq s.queue_seq;
        event_data = event_data;
        client = client;
        crtc = crtc;
        handler = some handler;
        abort = abort;
        is_flip = is_flip;
        frame = 0;
      }

      found : take_first (with_seq ev.user_ptr) (s.queue ++ new ∷ []) ≡ some (new, s.queue)
      found =
          take_first-append ev.user_ptr s.queue new (sym same)
            (ground (arith, v.fresh ev.user_ptr, v.nonzero))

  -- A vblank event of a CRTC that no flip is waited for, with no older event in the way, runs the
  -- handler that was registered, with the frame, the time and the data, and nothing else.
  pub alloc_event_handled :
      (crtc client id event_data handler abort : ℕ) (ev : Event) (s : State W) (f : ℕ)
      → IsValid s
      → ev.user_ptr ≡ (queue_alloc d true crtc client id event_data handler abort false s).1
      → s.vblank_signalled ≡ []
      → s.nesting crtc ≡ 0
      → handle_vblank_signalled d (suc f) (
          queue_handler d ev (queue_alloc d true crtc client id event_data handler abort false s).0)
        ≡ handle_vblank_signalled d f (
            d.run_handler handler crtc ev.frame
              ((ev.sec * 1000000 + ev.usec) % 2 ^ 64)
              event_data
              (record s { queue_seq = (ev.user_ptr + 1) % 2 ^ 64 }))
  unfolding handle_vblank_signalled
  alloc_event_handled crtc client id event_data handler abort ev s f v same empty idle =
      rw (queue_handler-queue_alloc crtc client id event_data handler abort false ev s v same)
        (ground arith)

  -- After amdgpu_drm_abort_client the event of a pending entry of that client runs its abort
  -- callback, takes it off the queue, and puts nothing on the signalled lists.
  pub queue_handler-abort_client :
      (client : ℕ) (ev : Event) (s : State W) (e : Entry) (rest : List Entry)
      → take_first (with_seq ev.user_ptr) s.queue ≡ some (e, rest)
      → e.client ≡ client
      → let t = queue_handler d ev (abort_client d client s) in
        (t.world ≡ d.run_abort e.abort e.crtc e.event_data s.world)
        × (t.flip_signalled ≡ s.flip_signalled)
        × (t.vblank_signalled ≡ s.vblank_signalled)
        × (take_first (with_seq ev.user_ptr) (abort_client d client s).queue
            ≡ some (record e { handler = none }, t.queue))
  unfolding queue_handler abort_client
  queue_handler-abort_client client ev s e rest found own = rw (there, queue_handler) (ground arith)
    where
      there :
          take_first (with_seq ev.user_ptr) (abort_client d client s).queue
          ≡ some (
            record e { handler = none },
            (abort_client d client (record s { queue = rest })).queue,
          )
      there =
          take_first-map ev.user_ptr
            (λ x. if x.client == client then record x { handler = none } else x) s.queue e rest
            (λ x. ground arith) found
          ∙ ground arith

  -- amdgpu_drm_abort_entry takes a number other than the error out of the pending entries and of
  -- the signalled and deferred vblank events, and leaves all other numbers and the signalled flips
  -- as they are.
  pub abort_entry-live_count :
      (seq n : ℕ) (s : State W)
      → IsValid s
      → seq ≢ queue_error
      → (live_count n (abort_entry d seq s)
          ≡ (if n == seq then count_seq n s.flip_signalled else live_count n s))
        × ((abort_entry d seq s).flip_signalled ≡ s.flip_signalled)
  unfolding abort_entry abort_in_signalled abort_in_deferred abort_in_queue
  abort_entry-live_count seq n s v ne = elim (taken s.vblank_signalled) [
    | inr (e, rest, eq, pe, c, _) ↦ ground (arith, ne, eq, c n, v.distinct n)
    | inl (no_signalled, zs) ↦ elim (taken s.vblank_deferred) [
      | inr (e, rest, eq, pe, c, _) ↦ ground (arith, ne, zs, eq, c n, v.distinct n)
      | inl (no_deferred, zd) ↦ elim (taken s.queue) [
        | inr (e, rest, eq, pe, c, _) ↦ ground (arith, ne, zs, zd, eq, c n, v.distinct n)
        | inl (no_pending, zq) ↦ ground (arith, ne, zs, zd, zq)
      ]
    ]
  ]
    where
      taken :
          (xs : List Entry)
          → ((take_first (with_seq seq) xs ≡ none) × (count_seq seq xs ≡ 0))
            ⊎ ((e : Entry) × (rest : List Entry) × (take_first (with_seq seq) xs ≡ some (e, rest))
                × (e.seq ≡ seq)
                × ((m : ℕ) → count_seq m xs ≡ (if e.seq == m then 1 else 0) + count_seq m rest)
                × (length xs ≡ suc (length rest)))
      taken xs = elim (take_first-Taken (with_seq seq) xs) [
        | inl (none_left, zero_of) ↦ inl (none_left, zero_of seq (λ e. ground arith))
        | inr (e, rest, eq, pe, c, l) ↦ inr (e, rest, eq, ground arith, c, l)
      ]
