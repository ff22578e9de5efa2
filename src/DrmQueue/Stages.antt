-- ===== src/DrmQueue/Stages.antt =====
-- src/amdgpu_drm_queue.c: an abstract view of the queue, in which a number has a stage, without the
-- lists and their order.
use xf86_video_amdgpu.Prelude.{
  ℕ, ◌+◌, ◌≡◌, ◌≢◌, refl, ◌⊎◌, inl, inr, Bool, true, none, some, List, [], ◌∷◌, arith,
  if◌then◌else◌, ◌==◌, ltb, Bool-cases, Option-cases,
}
use xf86_video_amdgpu.DrmQueue.{
  Entry, State, Event, Driver, select, with_seq, take_first, queue_handler, signal, signalled_entry,
  requeue_deferred, abort_entry, abort_in_queue, abort_in_deferred, abort_in_signalled, abort_one,
  abort_client, queue_alloc, next_seq, queue_error,
}
use xf86_video_amdgpu.DrmQueue.Count.{
  count_seq, count_seq-append, count_seq-select, count_seq-map, take_first-Taken,
}
use xf86_video_amdgpu.DrmQueue.Invariant.{IsValid}

pub data Stage : Type 0 where
  absent pending flip_signalled vblank_signalled vblank_deferred : Stage

-- The stage of a number in the queue.
abbrev pub stage : {W : Type 0} → State W → ℕ → Stage
stage s n =
    if ltb 0 (count_seq n s.queue)
    then pending
    else if ltb 0 (count_seq n s.flip_signalled)
    then flip_signalled
    else if ltb 0 (count_seq n s.vblank_signalled)
    then vblank_signalled
    else if ltb 0 (count_seq n s.vblank_deferred)
    then vblank_deferred
    else absent

-- The abstract operations. An event moves a pending number to a stage that it has been given.
abbrev pub allocated : ℕ → (ℕ → Stage) → ℕ → Stage
allocated m f n = if n == m then pending else f n

abbrev pub signalled : (m : ℕ) → Stage → (ℕ → Stage) → ℕ → Stage
signalled m x f n =
    if n == m
    then (elim (f n) [
      | pending ↦ x
      | absent ↦ absent
      | flip_signalled ↦ flip_signalled
      | vblank_signalled ↦ vblank_signalled
      | vblank_deferred ↦ vblank_deferred
    ])
    else f n

abbrev pub aborted : (m : ℕ) → (ℕ → Stage) → ℕ → Stage
aborted m f n =
    if n == m
    then (elim (f n) [
      | flip_signalled ↦ flip_signalled
      | pending ↦ absent
      | absent ↦ absent
      | vblank_signalled ↦ absent
      | vblank_deferred ↦ absent
    ])
    else f n

-- Deferred numbers for which the test holds are signalled again.
abbrev pub returned : (ℕ → Bool) → (ℕ → Stage) → ℕ → Stage
returned back f n = elim (f n) [
  | vblank_deferred ↦ if back n then vblank_signalled else vblank_deferred
  | pending ↦ pending
  | absent ↦ absent
  | flip_signalled ↦ flip_signalled
  | vblank_signalled ↦ vblank_signalled
]

-- Where an event can take a number: to a list of signalled entries, or out of the queue, if the
-- client of the entry is gone.
abbrev pub IsOutcome : Stage → Type 0
IsOutcome x = (x ≡ absent) ⊎ ((x ≡ flip_signalled) ⊎ (x ≡ vblank_signalled))

module _ {W : Type 0} (d : Driver W) where
  queue_alloc-stage :
      (crtc client id event_data handler abort : ℕ) (is_flip : Bool) (s : State W) (n : ℕ)
      → let (t, m) = queue_alloc d true crtc client id event_data handler abort is_flip s in
        stage t n ≡ allocated m (stage s) n
  unfolding queue_alloc
  queue_alloc-stage crtc client id event_data handler abort is_flip s n =
      ground (arith, count_seq-append n s.queue (new ∷ []))
    where
      new : Entry
      new = record {
        usec = 0;
        id = id;
        seq = next_seq s.queue_seq;
        event_data = event_data;
        client = client;
        crtc = crtc;
        handler = some handler;
        abort = abort;
        is_flip = is_flip;
        frame = 0;
      }

  taken :
      (seq : ℕ) (xs : List Entry)
      → ((take_first (with_seq seq) xs ≡ none) × (count_seq seq xs ≡ 0))
        ⊎ ((e : Entry) × (rest : List Entry) × (take_first (with_seq seq) xs ≡ some (e, rest))
            × (e.seq ≡ seq)
            × ((n : ℕ) → count_seq n xs ≡ (if seq == n then 1 else 0) + count_seq n rest))
  taken seq xs = elim (take_first-Taken (with_seq seq) xs) [
    | inl (none_found, c) ↦ inl (none_found, c seq (λ e h. ground arith))
    | inr (e, rest, eq, pe, c, _) ↦ inr (e, rest, eq, ground arith, λ n. ground (arith, c n))
  ]

  abort_entry-stage :
      (seq n : ℕ) (s : State W)
      → IsValid s
      → seq ≢ queue_error
      → stage (abort_entry d seq s) n ≡ aborted seq (stage s) n
  unfolding abort_entry abort_in_signalled abort_in_deferred abort_in_queue
  abort_entry-stage seq n s v ne = elim (taken seq s.vblank_signalled) [
    | inr (e, rest, eq, _, c) ↦ ground (arith, ne, eq, c n, v.distinct n)
    | inl (no_signalled, zs) ↦ elim (taken seq s.vblank_deferred) [
      | inr (e, rest, eq, _, c) ↦ ground (arith, ne, zs, eq, c n, v.distinct n)
      | inl (no_deferred, zd) ↦ elim (taken seq s.queue) [
        | inr (e, rest, eq, _, c) ↦ ground (arith, ne, zs, zd, eq, c n, v.distinct n)
        | inl (no_pending, zq) ↦ ground (arith, ne, zs, zd, zq)
      ]
    ]
  ]

  signal-stage :
      (ev : Event) (e : Entry) (rest : List Entry) (s : State W)
      → e.seq ≡ ev.user_ptr
      → ((n : ℕ) → count_seq n s.queue ≡ (if ev.user_ptr == n then 1 else 0) + count_seq n rest)
      → IsValid s
      → (x : Stage) × IsOutcome x
        × ((n : ℕ)
            → stage (signal d ev e (record s { queue = rest })) n
              ≡ signalled ev.user_ptr x (stage s) n)
  unfolding signal signalled_entry abort_one
  signal-stage ev e rest s same c v = elim (Option-cases e.handler) [
    | inl gone ↦ (absent, inl refl, λ n. rw (gone, signal) (ground (arith, c n, v.distinct n)))
    | inr (h, set) ↦ elim (Bool-cases e.is_flip) [
      | inl t ↦ (
        flip_signalled,
        inr (inl refl),
        λ n.
            simp (set, signal, t)
              (ground (
                arith,
                same,
                c n,
                v.distinct n,
                count_seq-append n s.flip_signalled (signalled_entry ev e ∷ []),
              )),
      )
      | inr f ↦ (
        vblank_signalled,
        inr (inr refl),
        λ n.
            simp (set, signal, f)
              (ground (
                arith,
                same,
                c n,
                v.distinct n,
                count_seq-append n s.vblank_signalled (signalled_entry ev e ∷ []),
              )),
      )
    ]
  ]

  queue_handler-stage :
      (ev : Event) (s : State W)
      → IsValid s
      → (x : Stage) × IsOutcome x
        × ((n : ℕ) → stage (queue_handler d ev s) n ≡ signalled ev.user_ptr x (stage s) n)
  unfolding queue_handler
  queue_handler-stage ev s v = elim (taken ev.user_ptr s.queue) [
    | inl (missing, c) ↦ (absent, inl refl, λ n. ground (arith, missing, c))
    | inr (e, rest, eq, same, c) ↦
        let (x, outcome, moves) = signal-stage ev e rest s same c v in
        (x, outcome, λ n. rw (eq, queue_handler) (moves n))
  ]

  requeue_deferred-stage :
      (crtc n : ℕ) (s : State W)
      → IsValid s
      → stage (requeue_deferred d crtc s) n
        ≡ returned
            (λ m. ltb 0 (count_seq m (select (λ e. e.crtc == crtc) s.vblank_deferred)))
            (stage s)
            n
  unfolding requeue_deferred
  requeue_deferred-stage crtc n s v = ground (
    arith,
    v.distinct n,
    count_seq-select n (λ e. e.crtc == crtc) s.vblank_deferred,
    count_seq-append n s.vblank_signalled (select (λ e. e.crtc == crtc) s.vblank_deferred),
  )

  abort_client-stage : (client n : ℕ) (s : State W) → stage (abort_client d client s) n ≡ stage s n
  unfolding abort_client
  abort_client-stage client n s =
      rw
        (count_seq-map n (λ e. if e.client == client then record e { handler = none } else e)
          s.queue (λ e. ground arith))
        refl

  -- On a valid queue, every operation that calls no handler does to the stages of the numbers what
  -- the abstract operation does: an allocation makes the new number pending and returns a number
  -- that was absent; an event moves its number, if it is pending, to a signalled stage or out of the queue;
  -- an abort takes its number out, unless it is a signalled flip; the end of a wait signals the
  -- deferred numbers of the CRTC again; and the end of a client changes no stage. No operation
  -- changes the stage of any other number.
  pub operations-stage :
      (crtc client id event_data handler abort : ℕ) (is_flip : Bool) (ev : Event)
      (gone seq shown : ℕ) (s : State W)
      → IsValid s
      → seq ≢ queue_error
      → let (t, m) = queue_alloc d true crtc client id event_data handler abort is_flip s in
        ((n : ℕ) → stage t n ≡ allocated m (stage s) n)
        × (stage s m ≡ absent)
        × ((x : Stage) × IsOutcome x
            × ((n : ℕ) → stage (queue_handler d ev s) n ≡ signalled ev.user_ptr x (stage s) n))
        × ((n : ℕ) → stage (abort_entry d seq s) n ≡ aborted seq (stage s) n)
        × ((n : ℕ)
            → stage (requeue_deferred d shown s) n
              ≡ returned
                  (λ m. ltb 0 (count_seq m (select (λ e. e.crtc == shown) s.vblank_deferred)))
                  (stage s)
                  n)
        × ((n : ℕ) → stage (abort_client d gone s) n ≡ stage s n)
  unfolding queue_alloc
  operations-stage crtc client id event_data handler abort is_flip ev gone seq shown s v ne = (
    λ n. queue_alloc-stage crtc client id event_data handler abort is_flip s n,
    ground (arith, v.fresh (next_seq s.queue_seq), v.nonzero),
    queue_handler-stage ev s v,
    λ n. abort_entry-stage seq n s v ne,
    λ n. requeue_deferred-stage shown n s v,
    λ n. abort_client-stage gone n s,
  )
