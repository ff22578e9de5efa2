-- ===== src/Tests/Vblanks.antt =====
-- Vblank events of the Present extension, and the stages of their numbers, for
-- src/amdgpu_present.c and src/amdgpu_drm_queue.c.
use xf86_video_amdgpu.Prelude.{
  ℕ, ◌≡◌, refl, Bool, true, false, some, List, [], ◌∷◌, ◌==◌, arith, ltb,
}
use xf86_video_amdgpu.DrmQueue.{
  State, Entry, queue_alloc, queue_handler, abort_entry, requeue_deferred, abort_client, select,
  next_seq,
}
use xf86_video_amdgpu.DrmQueue.Count.{count_seq}
use xf86_video_amdgpu.DrmQueue.Wait.{delivered, interrupted}
use xf86_video_amdgpu.DrmQueue.Invariant.{IsValid, live_count}
use xf86_video_amdgpu.DrmQueue.Stages.{
  Stage, stage, absent, allocated, signalled, aborted, returned, IsOutcome, operations-stage,
}
use xf86_video_amdgpu.Present.Vblank.{
  poll_interrupted, poll_ready, poll, refused, busy, queue_vblank, queue_vblank-IsQueued,
}
use xf86_video_amdgpu.Tests.Queue.{driver, driver-Contract, pending, pending-IsValid, vblank}

-- The queue is full at first; its event 1 is handled, and then the kernel refuses the request.
queue_vblank-IsQueued_example :
    (b : Bool) × (t : State (List ℕ)) × (queue_vblank driver 3 true true 1 8 10 6 3 4
        (busy (poll_interrupted ∷ poll_ready ∷ []) (interrupted ∷ delivered (vblank 1 ∷ []) ∷ [])
          ∷ refused
          ∷ [])
        pending
      ≡ some (b, t))
    × IsValid t
    × (b ≡ false → live_count 2 t ≡ 0)
unfolding next_seq poll
queue_vblank-IsQueued_example =
    queue_vblank-IsQueued driver driver-Contract 3 true true 1 8 10 6 3 4
      (busy (poll_interrupted ∷ poll_ready ∷ []) (interrupted ∷ delivered (vblank 1 ∷ []) ∷ [])
        ∷ refused
        ∷ [])
      pending pending-IsValid (omega arith) ((true, refl), refl, omega arith, tt)

operations-stage_example :
    ((n : ℕ)
      → stage (queue_alloc driver true 1 8 10 6 3 4 false pending).0 n
        ≡ allocated 2 (stage pending) n)
    × (stage pending 2 ≡ absent)
    × ((x : Stage) × IsOutcome x
        × ((n : ℕ)
            → stage (queue_handler driver (vblank 1) pending) n ≡ signalled 1 x (stage pending) n))
    × ((n : ℕ) → stage (abort_entry driver 1 pending) n ≡ aborted 1 (stage pending) n)
    × ((n : ℕ)
        → stage (requeue_deferred driver 0 pending) n
          ≡ returned
              (λ m. ltb 0 (count_seq m (select (λ (e : Entry). e.crtc == 0) [])))
              (stage pending)
              n)
    × ((n : ℕ) → stage (abort_client driver 7 pending) n ≡ stage pending n)
unfolding queue_alloc next_seq
operations-stage_example =
    operations-stage driver 1 8 10 6 3 4 false (vblank 1) 7 1 0 pending pending-IsValid
      (λ e. ground arith)
