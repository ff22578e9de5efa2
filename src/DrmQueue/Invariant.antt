-- ===== src/DrmQueue/Invariant.antt =====
-- src/amdgpu_drm_queue.c: the invariant of the queue, and the operations that call no handler.
use xf86_video_amdgpu.Prelude.{
  ℕ, ◌+◌, ◌≤◌, ◌<◌, ◌^◌, ◌≡◌, refl, inl, inr, Bool, true, false, none, some, List, [], ◌∷◌, arith,
  if◌then◌else◌, ◌==◌, Bool-cases, Option-cases,
}
use xf86_video_amdgpu.DrmQueue.{
  Entry, State, Event, Driver, select, with_seq, queue_handler, signal, requeue_deferred,
  abort_entry, abort_id, abort_client, abort_in_queue, abort_in_deferred, abort_in_signalled,
  queue_alloc, next_seq, queue_error, signalled_entry,
}
use xf86_video_amdgpu.DrmQueue.Count.{
  count_seq, count_seq-append, count_seq-select, count_seq-map, take_first-Taken, All, All-append,
  All-select, All-take_first,
}

-- How many entries the four lists hold under a number.
abbrev pub live_count : {W : Type 0} → ℕ → State W → ℕ
live_count n s =
    count_seq n s.queue
    + count_seq n s.flip_signalled
    + count_seq n s.vblank_signalled
    + count_seq n s.vblank_deferred

abbrev pub has_handler : Entry → Bool
has_handler e = elim e.handler [ none ↦ false | some _ ↦ true ]

abbrev pub IsReadyFlip : Entry → Type 0
IsReadyFlip e = (e.is_flip ≡ true) × (has_handler e ≡ true)

abbrev pub IsReadyVblank : Entry → Type 0
IsReadyVblank e = (e.is_flip ≡ false) × (has_handler e ≡ true)

-- Numbers are unique, are not the error value and lie below the counter. An entry with an event
-- has a handler, and stands in the list of its kind.
pub record IsValid {W : Type 0} (s : State W) : Type 0 where
  pub distinct : (n : ℕ) → live_count n s ≤ 1
  pub nonzero : live_count queue_error s ≡ 0
  pub fresh : (n : ℕ) → s.queue_seq ≤ n → live_count n s ≡ 0
  pub flips : All IsReadyFlip s.flip_signalled
  pub vblanks : All IsReadyVblank s.vblank_signalled
  pub deferreds : All IsReadyVblank s.vblank_deferred

-- A state whose lists hold no new number, in the lists of the right kind.
pub record Shrinks {W : Type 0} (s t : State W) : Type 0 where
  pub counts : (n : ℕ) → live_count n t ≤ live_count n s
  pub same_seq : t.queue_seq ≡ s.queue_seq
  pub flips : All IsReadyFlip s.flip_signalled → All IsReadyFlip t.flip_signalled
  pub vblanks :
      All IsReadyVblank s.vblank_signalled
      → All IsReadyVblank s.vblank_deferred
      → All IsReadyVblank t.vblank_signalled
  pub deferreds :
      All IsReadyVblank s.vblank_signalled
      → All IsReadyVblank s.vblank_deferred
      → All IsReadyVblank t.vblank_deferred

pub Shrinks-IsValid : {W : Type 0} {s t : State W} → Shrinks s t → IsValid s → IsValid t
Shrinks-IsValid {s} {t} h v = record {
  distinct = λ n. omega (arith, h.counts n, v.distinct n);
  nonzero = omega (arith, h.counts queue_error, v.nonzero);
  fresh = λ n le. omega (arith, h.counts n, v.fresh n, h.same_seq);
  flips = h.flips v.flips;
  vblanks = h.vblanks v.vblanks v.deferreds;
  deferreds = h.deferreds v.vblanks v.deferreds;
}

pub Shrinks-refl : {W : Type 0} (s : State W) → Shrinks s s
Shrinks-refl s = record {
  counts = λ n. omega arith;
  same_seq = refl;
  flips = λ h. h;
  vblanks = λ h k. h;
  deferreds = λ h k. k;
}

module _ {W : Type 0} (d : Driver W) where
  signal-Shrinks :
      (ev : Event) (e : Entry) (rest : List Entry) (s : State W)
      → ((n : ℕ) → count_seq n s.queue ≡ (if e.seq == n then 1 else 0) + count_seq n rest)
      → Shrinks s (signal d ev e (record s { queue = rest }))
  unfolding signal signalled_entry
  signal-Shrinks ev e rest s c = elim (Option-cases e.handler) [
    | inl gone ↦
        rw (gone, signal)
          (record {
            counts = λ n. ground (arith, c n);
            same_seq = refl;
            flips = λ h. h;
            vblanks = λ h k. h;
            deferreds = λ h k. k;
          })
    | inr (f, set) ↦ elim (Bool-cases e.is_flip) [
      | inl t ↦
          rw (set, signal)
            (rw t (record {
              counts = λ n.
                  ground
                    (arith, c n, count_seq-append n s.flip_signalled (signalled_entry ev e ∷ []));
              same_seq = refl;
              flips = λ h.
                  All-append IsReadyFlip s.flip_signalled _ h ((ground arith, ground arith), tt);
              vblanks = λ h k. h;
              deferreds = λ h k. k;
            }))
      | inr t ↦
          rw (set, signal)
            (rw t (record {
              counts = λ n.
                  ground
                    (arith, c n, count_seq-append n s.vblank_signalled (signalled_entry ev e ∷ []));
              same_seq = refl;
              flips = λ h. h;
              vblanks = λ h k.
                  All-append IsReadyVblank s.vblank_signalled _ h
                    ((ground arith, ground arith), tt);
              deferreds = λ h k. k;
            }))
    ]
  ]

  pub queue_handler-Shrinks : (ev : Event) (s : State W) → Shrinks s (queue_handler d ev s)
  unfolding queue_handler
  queue_handler-Shrinks ev s = elim (take_first-Taken (with_seq ev.user_ptr) s.queue) [
    | inl (e, _) ↦ rw (e, queue_handler) (Shrinks-refl s)
    | inr (e, rest, eq, _, c, _) ↦ rw (eq, queue_handler) (signal-Shrinks ev e rest s c)
  ]

  pub requeue_deferred-Shrinks : (crtc : ℕ) (s : State W) → Shrinks s (requeue_deferred d crtc s)
  unfolding requeue_deferred
  requeue_deferred-Shrinks crtc s = record {
    counts = λ n. omega (
      arith,
      count_seq-append n s.vblank_signalled (select (λ e. e.crtc == crtc) s.vblank_deferred),
      count_seq-select n (λ e. e.crtc == crtc) s.vblank_deferred,
    );
    same_seq = refl;
    flips = λ h. h;
    vblanks = λ h k.
        All-append IsReadyVblank s.vblank_signalled _ h
          (All-select IsReadyVblank _ s.vblank_deferred k);
    deferreds = λ h k. All-select IsReadyVblank _ s.vblank_deferred k;
  }

  abort_in_queue-Shrinks : (p : Entry → Bool) (s : State W) → Shrinks s (abort_in_queue d p s)
  unfolding abort_in_queue
  abort_in_queue-Shrinks p s = elim (take_first-Taken p s.queue) [
    | inl (e, _) ↦ rw (e, abort_in_queue) (Shrinks-refl s)
    | inr (e, rest, eq, _, c, _) ↦
        rw (eq, abort_in_queue)
          (record {
            counts = λ n. omega (arith, c n);
            same_seq = refl;
            flips = λ h. h;
            vblanks = λ h k. h;
            deferreds = λ h k. k;
          })
  ]

  abort_in_deferred-Shrinks : (p : Entry → Bool) (s : State W) → Shrinks s (abort_in_deferred d p s)
  unfolding abort_in_deferred
  abort_in_deferred-Shrinks p s = elim (take_first-Taken p s.vblank_deferred) [
    | inl (e, _) ↦ rw (e, abort_in_deferred) (abort_in_queue-Shrinks p s)
    | inr (e, rest, eq, _, c, _) ↦
        rw (eq, abort_in_deferred)
          (record {
            counts = λ n. omega (arith, c n);
            same_seq = refl;
            flips = λ h. h;
            vblanks = λ h k. h;
            deferreds = λ h k. (All-take_first IsReadyVblank p s.vblank_deferred e rest eq k).1;
          })
  ]

  abort_in_signalled-Shrinks :
      (p : Entry → Bool) (s : State W) → Shrinks s (abort_in_signalled d p s)
  unfolding abort_in_signalled
  abort_in_signalled-Shrinks p s = elim (take_first-Taken p s.vblank_signalled) [
    | inl (e, _) ↦ rw (e, abort_in_signalled) (abort_in_deferred-Shrinks p s)
    | inr (e, rest, eq, _, c, _) ↦
        rw (eq, abort_in_signalled)
          (record {
            counts = λ n. omega (arith, c n);
            same_seq = refl;
            flips = λ h. h;
            vblanks = λ h k. (All-take_first IsReadyVblank p s.vblank_signalled e rest eq h).1;
            deferreds = λ h k. k;
          })
  ]

  pub abort_entry-Shrinks : (seq : ℕ) (s : State W) → Shrinks s (abort_entry d seq s)
  unfolding abort_entry
  abort_entry-Shrinks seq s = elim (Bool-cases (seq == queue_error)) [
    | inl t ↦ rw t (Shrinks-refl s)
    | inr f ↦ rw f (abort_in_signalled-Shrinks (with_seq seq) s)
  ]

  pub abort_id-Shrinks : (id : ℕ) (s : State W) → Shrinks s (abort_id d id s)
  unfolding abort_id
  abort_id-Shrinks id s = abort_in_queue-Shrinks (λ e. e.id == id) s

  pub abort_client-Shrinks : (client : ℕ) (s : State W) → Shrinks s (abort_client d client s)
  unfolding abort_client
  abort_client-Shrinks client s = record {
    counts = λ n. omega (
      arith,
      count_seq-map n (λ e. if e.client == client then record e { handler = none } else e) s.queue
          (λ e. ground arith),
    );
    same_seq = refl;
    flips = λ h. h;
    vblanks = λ h k. h;
    deferreds = λ h k. k;
  }

  pub queue_alloc-IsValid :
      (memory : Bool) (crtc client id event_data handler abort : ℕ) (is_flip : Bool) (s : State W)
      → s.queue_seq + 2 < 2 ^ 64
      → IsValid s
      → IsValid (queue_alloc d memory crtc client id event_data handler abort is_flip s).0
  unfolding queue_alloc
  queue_alloc-IsValid false crtc client id event_data handler abort is_flip s h v = v
  queue_alloc-IsValid true crtc client id event_data handler abort is_flip s h v = record {
    distinct = λ n. ground (arith, count_seq-append n s.queue (new ∷ []), v.distinct n, v.fresh n);
    nonzero = ground (arith, count_seq-append 0 s.queue (new ∷ []), v.nonzero);
    fresh = λ n le. ground (arith, count_seq-append n s.queue (new ∷ []), v.fresh n);
    flips = v.flips;
    vblanks = v.vblanks;
    deferreds = v.deferreds;
  }
    where
      new : Entry
      new = record {
        usec = 0;
        id = id;
        seq = next_seq s.queue_seq;
        event_data = event_data;
        client = client;
        crtc = crtc;
        handler = some handler;
        abort = abort;
        is_flip = is_flip;
        frame = 0;
      }

  -- Every operation on the queue that calls no handler keeps its invariant: an event, an allocation
  -- (while the 64-bit counter does not wrap), the three aborts, and the return of deferred events.
  pub operations-IsValid :
      (s : State W)
      → IsValid s
      → (ev : Event) (memory : Bool) (crtc client id event_data handler abort : ℕ) (is_flip : Bool)
      → (gone seq aborted shown : ℕ) → s.queue_seq + 2 < 2 ^ 64
      → IsValid (queue_handler d ev s)
        × IsValid (queue_alloc d memory crtc client id event_data handler abort is_flip s).0
        × IsValid (abort_client d gone s)
        × IsValid (abort_entry d seq s)
        × IsValid (abort_id d aborted s)
        × IsValid (requeue_deferred d shown s)
  operations-IsValid s v ev memory crtc client id event_data handler abort is_flip gone seq aborted
        shown h =
      (
        Shrinks-IsValid (queue_handler-Shrinks ev s) v,
        queue_alloc-IsValid memory crtc client id event_data handler abort is_flip s h v,
        Shrinks-IsValid (abort_client-Shrinks gone s) v,
        Shrinks-IsValid (abort_entry-Shrinks seq s) v,
        Shrinks-IsValid (abort_id-Shrinks aborted s) v,
        Shrinks-IsValid (requeue_deferred-Shrinks shown s) v,
      )
