-- ===== src/DrmQueue/Events.antt =====
-- src/amdgpu_drm_queue.c: amdgpu_drm_handle_event, from the calls of drmHandleEvent to its loops.
use xf86_video_amdgpu.Prelude.{
  ℕ, ◌+◌, ◌≤◌, ◌<◌, ◌≡◌, refl, ap, inl, inr, Bool, true, false, some, List, [], ◌∷◌, arith,
  Option-cases, length, length-append,
}
use xf86_video_amdgpu.DrmQueue.{
  Entry, State, Event, Driver, take_first, with_seq, queue_handler, signal, signalled_entry,
}
use xf86_video_amdgpu.DrmQueue.Invariant.{IsValid, Shrinks-IsValid, queue_handler-Shrinks}
use xf86_video_amdgpu.DrmQueue.Wait.{
  ReadResult, delivered, interrupted, failed, Handled, deliver, read_events, handle_event,
}
use xf86_video_amdgpu.DrmQueue.Loops.{
  Contract, handle_vblank_signalled-total, handle_flip_signalled-total,
}

-- Whether one of the calls returns without an interruption, and what the first such call gives.
abbrev pub read_returns : List ReadResult → Bool
read_returns [] = false
read_returns (interrupted ∷ rs) = read_returns rs
read_returns (failed ∷ rs) = true
read_returns (delivered evs ∷ rs) = true

abbrev pub read_success : List ReadResult → Bool
read_success [] = false
read_success (interrupted ∷ rs) = read_success rs
read_success (failed ∷ rs) = false
read_success (delivered evs ∷ rs) = true

abbrev pub read_size : List ReadResult → ℕ
read_size [] = 0
read_size (interrupted ∷ rs) = read_size rs
read_size (failed ∷ rs) = 0
read_size (delivered evs ∷ rs) = length evs

abbrev pub signalled_size : {W : Type 0} → State W → ℕ
signalled_size s = length s.flip_signalled + length s.vblank_signalled

module _ {W : Type 0} (d : Driver W) where
  queue_handler-size :
      (ev : Event) (s : State W) → signalled_size (queue_handler d ev s) ≤ signalled_size s + 1
  unfolding queue_handler signal
  queue_handler-size ev s = elim (Option-cases (take_first (with_seq ev.user_ptr) s.queue)) [
    | inl n ↦ rw (n, queue_handler) (omega arith)
    | inr ((e, rest), eq) ↦
        rw (eq, queue_handler)
          (ground (
            arith,
            length-append s.flip_signalled (signalled_entry ev e ∷ []),
            length-append s.vblank_signalled (signalled_entry ev e ∷ []),
          ))
  ]

  deliver-size :
      (evs : List Event) (s : State W)
      → signalled_size (deliver d evs s) ≤ signalled_size s + length evs
  unfolding deliver
  deliver-size [] s = omega arith
  deliver-size (ev ∷ evs) s =
      omega (arith, deliver-size evs (queue_handler d ev s), queue_handler-size ev s)

  pub deliver-IsValid : (evs : List Event) (s : State W) → IsValid s → IsValid (deliver d evs s)
  unfolding deliver
  deliver-IsValid [] s v = v
  deliver-IsValid (ev ∷ evs) s v =
      deliver-IsValid evs _ (Shrinks-IsValid (queue_handler-Shrinks d ev s) v)

  read_events-total :
      (rs : List ReadResult) (s : State W)
      → read_returns rs ≡ true
      → IsValid s
      → (h : Handled W) × (read_events d rs s ≡ some h)
        × (h.success ≡ read_success rs)
        × IsValid h.state
        × (signalled_size h.state ≤ signalled_size s + read_size rs)
  unfolding read_events
  read_events-total [] s r v = cc
  read_events-total (interrupted ∷ rs) s r v = read_events-total rs s r v
  read_events-total (failed ∷ rs) s r v =
      (record { success = false; unread = rs; state = s }, refl, refl, v, omega arith)
  read_events-total (delivered evs ∷ rs) s r v = (
    record { success = true; unread = rs; state = deliver d evs s },
    refl,
    refl,
    deliver-IsValid evs s v,
    deliver-size evs s,
  )

module _ {W : Type 0} (d : Driver W) (k : Contract d) where
  -- If one of the calls of drmHandleEvent returns, and the signalled entries and the events it reads
  -- are fewer than the fuel, amdgpu_drm_handle_event returns whether that call succeeded, no flip or
  -- vblank is left signalled, and the invariant holds, whatever the callbacks do within their contract.
  pub handle_event-total :
      (fuel : ℕ) (rs : List ReadResult) (s : State W)
      → read_returns rs ≡ true
      → signalled_size s + read_size rs < fuel
      → IsValid s
      → (h : Handled W) × (handle_event d fuel rs s ≡ some h)
        × (h.success ≡ read_success rs)
        × (h.state.flip_signalled ≡ [])
        × (h.state.vblank_signalled ≡ [])
        × IsValid h.state
  unfolding handle_event
  handle_event-total fuel rs s r f v =
      let (h, read, ok, valid, size) = read_events-total d rs s r v in
      let (t, flips, no_flips, valid_t, fewer) =
        handle_flip_signalled-total d k fuel h.state (omega arith) valid in
      let (u, vblanks, no_vblanks, valid_u, still) =
        handle_vblank_signalled-total d k fuel t (omega arith) valid_t in
      (
        record h { state = u },
        rw (read, flips, vblanks),
        ok,
        nil_of_length _ (omega (arith, ap length no_flips)),
        no_vblanks,
        valid_u,
      )
    where
      nil_of_length : (l : List Entry) → length l ≤ 0 → l ≡ []
      nil_of_length [] h = refl
      nil_of_length (x ∷ l) h = absurd (omega arith)
