-- ===== src/Pageflip/Submit/Undo.antt =====
-- src/amdgpu_drm_queue.c and src/drmmode_display.c: the abort of a queue entry that has just been
-- allocated, and of a flip on one CRTC.
use xf86_video_amdgpu.Prelude.{
  ℕ, ◌+◌, ◌%◌, ◌^◌, ◌≡◌, refl, inl, inr, Bool, true, false, none, some, List, [], ◌∷◌, ◌++◌, ◌==◌,
  arith,
}
use xf86_video_amdgpu.DrmQueue.{
  Entry, State, Driver, take_first, with_seq, queue_alloc, abort_entry, abort_in_signalled,
  abort_in_deferred, abort_in_queue, next_seq, queue_error,
}
use xf86_video_amdgpu.DrmQueue.Count.{count_seq, take_first-Taken}
use xf86_video_amdgpu.DrmQueue.Invariant.{IsValid, live_count}
use xf86_video_amdgpu.DrmQueue.Delivery.{take_first-append}

take_first_absent :
    (n : ℕ) (xs : List Entry) → count_seq n xs ≡ 0 → take_first (with_seq n) xs ≡ none
take_first_absent n xs h = elim (take_first-Taken (with_seq n) xs) [
  | inl (absent, _) ↦ absent
  | inr (e, rest, eq, pe, c, _) ↦ absurd (ground (arith, c n))
]

-- An entry that has just been allocated, aborted after a change of the rest of the driver's state:
-- its abort callback runs, and the queue is the one from before.
pub abort_entry-queue_alloc :
    {W : Type 0} (d : Driver W) (crtc client id event_data handler abort : ℕ) (is_flip : Bool)
    (s : State W) (w : W)
    → IsValid s
    → let (t, n) = queue_alloc d true crtc client id event_data handler abort is_flip s in
      abort_entry d n (record t { world = w })
      ≡ record s { queue_seq = (n + 1) % 2 ^ 64; world = d.run_abort abort crtc event_data w }
unfolding queue_alloc abort_entry
abort_entry-queue_alloc d crtc client id event_data handler abort is_flip s w v =
    rw (known, abort_entry)
      (rw (absent s.vblank_signalled no_signalled, abort_in_signalled)
        (rw (absent s.vblank_deferred no_deferred, abort_in_deferred)
          (rw (found, abort_in_queue) refl)))
  where
    n : ℕ
    n = next_seq s.queue_seq

    new : Entry
    new = record {
      usec = 0;
      id = id;
      seq = n;
      event_data = event_data;
      client = client;
      crtc = crtc;
      handler = some handler;
      abort = abort;
      is_flip = is_flip;
      frame = 0;
    }

    fresh : live_count n s ≡ 0
    fresh = ground (arith, v.fresh n, v.nonzero)

    known : (n == queue_error) ≡ false
    known = ground arith

    no_signalled : count_seq n s.vblank_signalled ≡ 0
    no_signalled = omega (arith, fresh)

    no_deferred : count_seq n s.vblank_deferred ≡ 0
    no_deferred = omega (arith, fresh)

    absent : (xs : List Entry) → count_seq n xs ≡ 0 → take_first (with_seq n) xs ≡ none
    absent xs h = take_first_absent n xs h

    found : take_first (with_seq n) (s.queue ++ new ∷ []) ≡ some (new, s.queue)
    found = take_first-append n s.queue new refl (omega (arith, fresh))
