-- ===== src/Tests/Queue.antt =====
-- A queue whose callbacks write a log, for src/amdgpu_drm_queue.c.
use xf86_video_amdgpu.Prelude.{ℕ, ◌≡◌, ◌∷◌, refl, true, false, some, List, [], arith}
use xf86_video_amdgpu.DrmQueue.{
  Entry, State, Event, Driver, queue_alloc, queue_handler, abort_client, abort_entry, next_seq,
}
use xf86_video_amdgpu.DrmQueue.{abort_id, requeue_deferred}
use xf86_video_amdgpu.DrmQueue.Wait.{delivered, interrupted, Handled, handle_event}
use xf86_video_amdgpu.DrmQueue.Invariant.{IsValid, operations-IsValid}
use xf86_video_amdgpu.DrmQueue.Loops.{Contract, IsValid-world}
use xf86_video_amdgpu.DrmQueue.Events.{handle_event-total}
use xf86_video_amdgpu.DrmQueue.Delivery.{queue_handler-queue_alloc}

-- The callbacks note the time of an event, or the data of an aborted one.
abbrev pub driver : Driver (List ℕ)
driver = record {
  run_handler = λ h crtc frame usec event_data s. record s { world = usec ∷ s.world };
  run_abort = λ a crtc event_data w. event_data ∷ w;
  flip_pending = λ w crtc. false;
  scrn = λ crtc. 0;
}

abbrev idle : State (List ℕ)
idle = record {
  refcnt = 1;
  queue = [];
  flip_signalled = [];
  vblank_signalled = [];
  vblank_deferred = [];
  queue_seq = 1;
  nesting = λ c. 0;
  world = [];
}

idle-IsValid : IsValid idle
idle-IsValid = record {
  distinct = λ n. omega arith;
  nonzero = refl;
  fresh = λ n h. refl;
  flips = tt;
  vblanks = tt;
  deferreds = tt;
}

-- One vblank entry of client 7 on CRTC 0, with the data 5.
abbrev pub pending : State (List ℕ)
pending = record idle { queue = waiting_entry ∷ []; queue_seq = 2 }
  where
    waiting_entry : Entry
    waiting_entry = record {
      usec = 0;
      id = 9;
      seq = 1;
      event_data = 5;
      client = 7;
      crtc = 0;
      handler = some 3;
      abort = 4;
      is_flip = false;
      frame = 0;
    }

pub pending-IsValid : IsValid pending
pending-IsValid = record {
  distinct = λ n. ground arith;
  nonzero = refl;
  fresh = λ n h. ground arith;
  flips = tt;
  vblanks = tt;
  deferreds = tt;
}

pub driver-Contract : Contract driver
driver-Contract = record {
  valid = λ h crtc frame usec event_data s v. IsValid-world s _ v;
  vblanks_le = λ h crtc frame usec event_data s. omega arith;
  flips_le = λ h crtc frame usec event_data s. omega arith;
}

abbrev pub vblank : ℕ → Event
vblank n = record { frame = 60; sec = 2; usec = 30; user_ptr = n }

-- The vblank entry, after its event.
abbrev signalled : Entry
signalled = record {
  usec = 2000030;
  id = 9;
  seq = 1;
  event_data = 5;
  client = 7;
  crtc = 0;
  handler = some 3;
  abort = 4;
  is_flip = false;
  frame = 60;
}

-- A nested wait on CRTC 0, with the entry signalled.
abbrev waiting : State (List ℕ)
waiting = record idle { vblank_signalled = signalled ∷ []; queue_seq = 2; nesting = λ c. 1 }

waiting-IsValid : IsValid waiting
waiting-IsValid = record {
  distinct = λ n. ground arith;
  nonzero = refl;
  fresh = λ n h. ground arith;
  flips = tt;
  vblanks = ((refl, refl), tt);
  deferreds = tt;
}

abbrev after_event : Entry → State (List ℕ)
after_event e = record pending { vblank_signalled = e ∷ []; queue_seq = 3 }

abbrev second : Entry
second = record {
  usec = 2000030;
  id = 10;
  seq = 2;
  event_data = 6;
  client = 8;
  crtc = 1;
  handler = some 3;
  abort = 4;
  is_flip = false;
  frame = 60;
}

queue_handler-queue_alloc_example :
    queue_handler driver (vblank 2) (queue_alloc driver true 1 8 10 6 3 4 false pending).0
    ≡ after_event second
unfolding queue_handler queue_alloc next_seq
queue_handler-queue_alloc_example =
    queue_handler-queue_alloc driver 1 8 10 6 3 4 false (vblank 2) pending pending-IsValid refl

handle_event-total_example :
    (h : Handled (List ℕ)) × (handle_event driver 3
        (interrupted ∷ delivered (vblank 1 ∷ vblank 9 ∷ []) ∷ [])
        pending
      ≡ some h)
    × (h.success ≡ true)
    × (h.state.flip_signalled ≡ [])
    × (h.state.vblank_signalled ≡ [])
    × IsValid h.state
handle_event-total_example =
    handle_event-total driver driver-Contract 3
      (interrupted ∷ delivered (vblank 1 ∷ vblank 9 ∷ []) ∷ []) pending refl (omega arith)
      pending-IsValid

operations-IsValid_example :
    IsValid (queue_handler driver (vblank 1) pending)
    × IsValid (queue_alloc driver true 1 8 10 6 3 4 false pending).0
    × IsValid (abort_client driver 7 pending)
    × IsValid (abort_entry driver 1 pending)
    × IsValid (abort_id driver 9 pending)
    × IsValid (requeue_deferred driver 0 pending)
operations-IsValid_example =
    operations-IsValid driver pending pending-IsValid (vblank 1) true 1 8 10 6 3 4 false 7 1 9 0
      (omega arith)
