-- ===== src/Present/Vblank.antt =====
-- src/amdgpu_present.c: amdgpu_present_queue_vblank, on the event queue.
use xf86_video_amdgpu.Prelude.{
  ℕ, ◌+◌, ◌<◌, ◌≤◌, ◌^◌, ◌≡◌, ◌≢◌, refl, inl, inr, Bool, true, false, not, Option, none, some, List,
  [], ◌∷◌, if◌then◌else◌, ◌==◌, arith, Bool-cases,
}
use xf86_video_amdgpu.DrmQueue.{Driver, State, queue_alloc, abort_entry, queue_error, next_seq}
use xf86_video_amdgpu.DrmQueue.Count.{count_seq}
use xf86_video_amdgpu.DrmQueue.Wait.{ReadResult, handle_event}
use xf86_video_amdgpu.DrmQueue.Invariant.{
  IsValid, live_count, queue_alloc-IsValid, Shrinks-IsValid, abort_entry-Shrinks,
}
use xf86_video_amdgpu.DrmQueue.Loops.{Contract}
use xf86_video_amdgpu.DrmQueue.Delivery.{abort_entry-live_count}
use xf86_video_amdgpu.DrmQueue.Events.{read_returns, read_size, signalled_size, handle_event-total}

-- The results of poll: -1 with EINTR or EAGAIN, more than 0, and any other.
pub data PollResult : Type 0 where
  poll_interrupted poll_ready poll_nothing : PollResult

-- An attempt of drmmode_wait_vblank succeeds, fails, or fails with EBUSY, and then the queue is
-- flushed.
pub data Attempt : Type 0 where
  accepted refused : Attempt
  busy : List PollResult → List ReadResult → Attempt

-- The loop around poll. `none`: it has not returned.
unfoldable pub poll : List PollResult → Option Bool
poll [] = none
poll (poll_interrupted ∷ rs) = poll rs
poll (poll_ready ∷ rs) = some true
poll (poll_nothing ∷ rs) = some false

module _ {W : Type 0} (d : Driver W) (fuel : ℕ) where
  unfoldable pub flush_drm_events :
      List PollResult → List ReadResult → State W → Option (Bool × State W)
  flush_drm_events ps rs s = elim (poll ps) [
    | none ↦ none
    | some false ↦ some (false, s)
    | some true ↦ elim (handle_event d fuel rs s) [
      | none ↦ none
      | some h ↦ some (h.success, h.state)
    ]
  ]

  -- The loop of amdgpu_present_queue_vblank: whether it ends with Success.
  unfoldable pub wait_vblank : (queue_seq : ℕ) → List Attempt → State W → Option (Bool × State W)
  wait_vblank seq [] s = none
  wait_vblank seq (accepted ∷ rest) s = some (true, s)
  wait_vblank seq (refused ∷ rest) s = some (false, abort_entry d seq s)
  wait_vblank seq (busy ps rs ∷ rest) s = elim (flush_drm_events ps rs s) [
    | none ↦ none
    | some (true, t) ↦ wait_vblank seq rest t
    | some (false, t) ↦ some (false, abort_entry d seq t)
  ]

  -- amdgpu_present_queue_vblank. `event` is the address of its event, `client` is
  -- AMDGPU_DRM_QUEUE_CLIENT_DEFAULT, and the callbacks are those of a vblank.
  unfoldable pub queue_vblank :
      (event_memory entry_memory : Bool) (crtc client event_id event handler abort : ℕ)
      → List Attempt
      → State W
      → Option (Bool × State W)
  queue_vblank event_memory entry_memory crtc client event_id event handler abort attempts s =
      let (t, seq) = queue_alloc d entry_memory crtc client event_id event handler abort false s in
      if not event_memory
      then some (false, s)
      else if seq == queue_error
      then some (false, t)
      else wait_vblank seq attempts t

-- The calls of the attempts return, up to one that ends the loop, and the fuel suffices for the
-- events that they read, with n entries signalled before.
abbrev pub AllReturn : (fuel n : ℕ) → List Attempt → Type 0
AllReturn fuel n [] = ⊥
AllReturn fuel n (accepted ∷ rest) = Unit {0}
AllReturn fuel n (refused ∷ rest) = Unit {0}
AllReturn fuel n (busy ps rs ∷ rest) =
    ((b : Bool) × (poll ps ≡ some b))
    × (read_returns rs ≡ true)
    × (n + read_size rs < fuel)
    × AllReturn fuel n rest

module _ {W : Type 0} (d : Driver W) (k : Contract d) (fuel : ℕ) where
  -- What is kept in the loop.
  abbrev InLoop : (seq n : ℕ) → State W → Type 0
  InLoop seq n s = IsValid s × (signalled_size s ≤ n) × (count_seq seq s.flip_signalled ≡ 0)

  abbrev IsQueued : (seq : ℕ) → Option (Bool × State W) → Type 0
  IsQueued seq r =
      (b : Bool) × (t : State W) × (r ≡ some (b, t))
      × IsValid t
      × (b ≡ false → live_count seq t ≡ 0)

  aborted-IsQueued :
      (seq n : ℕ) (s : State W)
      → seq ≢ queue_error
      → InLoop seq n s
      → IsQueued seq (some (false, abort_entry d seq s))
  aborted-IsQueued seq n s ne (v, size, zero_flips) =
      let (counts, _) = abort_entry-live_count d seq seq s v ne in
      (
        false,
        abort_entry d seq s,
        refl,
        Shrinks-IsValid (abort_entry-Shrinks d seq s) v,
        λ h. ground arith,
      )

  flush-InLoop :
      (seq n : ℕ) (ps : List PollResult) (rs : List ReadResult) (s : State W)
      → ((b : Bool) × (poll ps ≡ some b))
      → read_returns rs ≡ true
      → n + read_size rs < fuel
      → InLoop seq n s
      → (b : Bool) × (t : State W) × (flush_drm_events d fuel ps rs s ≡ some (b, t))
        × InLoop seq n t
  unfolding flush_drm_events
  flush-InLoop seq n ps rs s (false, polls) reads size h =
      (false, s, rw (polls, flush_drm_events) refl, h)
  flush-InLoop seq n ps rs s (true, polls) reads size h =
      let (r, runs, _, no_flips, no_vblanks, valid) =
        handle_event-total d k fuel rs s reads (omega (arith, h.1)) h.0 in
      (
        r.success,
        r.state,
        rw (polls, flush_drm_events) (rw runs refl),
        (valid, rw (no_flips, no_vblanks) (omega arith), rw no_flips refl),
      )

  wait_vblank-IsQueued :
      (seq n : ℕ) (attempts : List Attempt) (s : State W)
      → seq ≢ queue_error
      → AllReturn fuel n attempts
      → InLoop seq n s
      → IsQueued seq (wait_vblank d fuel seq attempts s)
  unfolding wait_vblank
  wait_vblank-IsQueued seq n [] s ne h l = absurd h
  wait_vblank-IsQueued seq n (accepted ∷ rest) s ne h l = (true, s, refl, l.0, λ e. cc)
  wait_vblank-IsQueued seq n (refused ∷ rest) s ne h l = aborted-IsQueued seq n s ne l
  wait_vblank-IsQueued seq n (busy ps rs ∷ rest) s ne (polls, reads, size, later) l =
      let (b, t, flushed, l') = flush-InLoop seq n ps rs s polls reads size l in
      elim (Bool-cases b) [
        | inl more ↦
            rw (flushed, wait_vblank) (rw more (wait_vblank-IsQueued seq n rest t ne later l'))
        | inr full ↦ rw (flushed, wait_vblank) (rw full (aborted-IsQueued seq n t ne l'))
      ]

  unused : (s : State W) → IsValid s → live_count (next_seq s.queue_seq) s ≡ 0
  unfolding next_seq
  unused s v = ground (arith, v.fresh (next_seq s.queue_seq), v.nonzero)

  -- Where the callbacks keep to their contract, the calls of the attempts return, and the fuel
  -- suffices for the events that they read: the call returns, whatever allocation fails and however
  -- often the kernel answers EBUSY, and the queue is valid. If it returns an error, no list holds
  -- the number of the entry any more, so that the event is not reported later.
  pub queue_vblank-IsQueued :
      (event_memory entry_memory : Bool) (crtc client event_id event handler abort : ℕ)
      (attempts : List Attempt) (s : State W)
      → IsValid s
      → s.queue_seq + 2 < 2 ^ 64
      → AllReturn fuel (signalled_size s) attempts
      → IsQueued (next_seq s.queue_seq) (
          queue_vblank d fuel event_memory entry_memory crtc client event_id event handler abort
            attempts s)
  unfolding queue_vblank queue_alloc next_seq
  queue_vblank-IsQueued false entry_memory crtc client event_id event handler abort attempts s v
        room h =
      (false, s, ground arith, v, λ e. unused s v)
  queue_vblank-IsQueued true false crtc client event_id event handler abort attempts s v room h =
      (false, s, refl, v, λ e. unused s v)
  queue_vblank-IsQueued true true crtc client event_id event handler abort attempts s v room h =
      let known : (next_seq s.queue_seq == queue_error) ≡ false = ground arith in
      let new = queue_alloc d true crtc client event_id event handler abort false s in
      simp known (
        wait_vblank-IsQueued (next_seq s.queue_seq) (signalled_size s) attempts new.0
          (λ e. ground arith) h
          (
            queue_alloc-IsValid d true crtc client event_id event handler abort false s room v,
            omega arith,
            omega (arith, unused s v),
          ))
