-- ===== src/DrmQueue/Wait.antt =====
-- src/amdgpu_drm_queue.c: reading events, waiting for a flip, and the start and end of the queue.
use xf86_video_amdgpu.Prelude.{
  ℕ, zero, suc, ◌+◌, ◌-◌, Bool, true, false, not, Option, none, some, List, [], ◌∷◌, if◌then◌else◌,
  ◌==◌,
}
use xf86_video_amdgpu.DrmQueue.{
  Entry, State, Event, Driver, ◌>>=◌, update, select, queue_handler, handle_one, abort_one,
  handle_flip_signalled, handle_vblank_signalled,
}

-- What a call of drmHandleEvent does: it delivers events, is interrupted by a signal (EINTR or
-- EAGAIN), or fails.
pub data ReadResult : Type 0 where
  delivered : List Event → ReadResult
  interrupted failed : ReadResult

-- What the loop of drmHandleEvent calls and the functions above it return: whether the last call
-- succeeded (r >= 0), the results that have not been read, and the state.
pub record Handled (W : Type 0) : Type 0 where
  pub success : Bool
  pub unread : List ReadResult
  pub state : State W

module _ {W : Type 0} (d : Driver W) where
  -- Both callbacks of the event context are amdgpu_drm_queue_handler.
  unfoldable pub deliver : List Event → State W → State W
  unfolding queue_handler
  deliver [] s = s
  deliver (ev ∷ evs) s = deliver evs (queue_handler d ev s)

  -- The calls of drmHandleEvent: those that a signal interrupts are repeated. `none`: the given
  -- results are used up, and the last call has not returned.
  unfoldable pub read_events : List ReadResult → State W → Option (Handled W)
  unfolding deliver
  read_events [] s = none
  read_events (interrupted ∷ rs) s = read_events rs s
  read_events (failed ∷ rs) s = some (record { success = false; unread = rs; state = s })
  read_events (delivered evs ∷ rs) s =
      some (record { success = true; unread = rs; state = deliver evs s })

  unfoldable pub handle_event : ℕ → List ReadResult → State W → Option (Handled W)
  unfolding read_events
  handle_event fuel rs s = do
    h ← read_events rs s
    s' ← handle_flip_signalled d fuel h.state
    s'' ← handle_vblank_signalled d fuel s'
    some (record h { state = s'' })

  -- The first loop of amdgpu_drm_wait_pending_flip.
  unfoldable pub wait_signalled : ℕ → ℕ → State W → Option (State W)
  wait_signalled zero crtc s = none
  wait_signalled (suc f) crtc s = elim (d.flip_pending s.world crtc) [
    | false ↦ some s
    | true ↦ elim s.flip_signalled [
      | [] ↦ some s
      | e ∷ rest ↦ wait_signalled f crtc (handle_one d e (record s { flip_signalled = rest }))
    ]
  ]

  -- The second loop. The fuel bounds its rounds; each round gets the fuel `inner`.
  unfoldable pub wait_read : ℕ → ℕ → ℕ → List ReadResult → State W → Option (State W)
  unfolding handle_event
  wait_read inner zero crtc rs s = none
  wait_read inner (suc f) crtc rs s = elim (d.flip_pending s.world crtc) [
    | false ↦ some s
    | true ↦ elim (handle_event inner rs s) [
      | none ↦ none
      | some h ↦ elim h.success [
        | false ↦ some h.state
        | true ↦ wait_read inner f crtc h.unread h.state
      ]
    ]
  ]

  unfoldable pub wait_pending_flip : ℕ → ℕ → List ReadResult → State W → Option (State W)
  unfolding wait_signalled wait_read
  wait_pending_flip fuel crtc rs s = do
    s' ←
        wait_signalled fuel crtc (record s { nesting = update s.nesting crtc (s.nesting crtc + 1) })
    wait_read fuel fuel crtc rs s'

  -- The loop of amdgpu_drm_queue_close aborts the entries of the screen in order.
  unfoldable pub abort_all : List Entry → State W → State W
  unfolding abort_one
  abort_all [] s = s
  abort_all (e ∷ es) s = abort_all es (abort_one d e s)

  unfoldable pub queue_close : ℕ → State W → State W
  unfolding abort_all select
  queue_close scrn s = record (abort_all (select on_screen s.queue) s) {
    queue = select (λ e. not (on_screen e)) s.queue;
    refcnt = s.refcnt - 1;
  }
    where
      on_screen : Entry → Bool
      on_screen e = d.scrn e.crtc == scrn

unfoldable pub queue_init : {W : Type 0} → State W → State W
queue_init s =
    if s.refcnt == 0
    then record s {
      refcnt = 1;
      queue = [];
      flip_signalled = [];
      vblank_signalled = [];
      vblank_deferred = [];
    }
    else record s { refcnt = s.refcnt + 1 }
