-- ===== src/DrmQueue.antt =====
-- src/amdgpu_drm_queue.c: the queue of expected DRM events.
pub mod Wait
pub mod Deferral
pub mod Delivery
pub mod Events
pub mod Loops
pub mod Invariant
pub mod Count
pub mod Stages
use xf86_video_amdgpu.Prelude.{
  ℕ, zero, suc, ◌+◌, ◌-◌, ◌*◌, ◌%◌, ◌^◌, Bool, true, false, not, ◌&&◌, Option, none, some, List, [],
  ◌∷◌, ◌++◌, map, if◌then◌else◌, ◌==◌,
}

-- struct amdgpu_drm_queue_entry. `handler` and `abort` are the two function pointers; the
-- handler is NULL once the client of the entry is gone.
pub record Entry : Type 0 where
  pub usec : ℕ
  pub id : ℕ
  pub seq : ℕ
  pub event_data : ℕ
  pub client : ℕ
  pub crtc : ℕ
  pub handler : Option ℕ
  pub abort : ℕ
  pub is_flip : Bool
  pub frame : ℕ

-- The lists and counters of the file, the field wait_flip_nesting_level of each CRTC, and the
-- rest of the driver's state, on which the callbacks act.
pub record State (W : Type 0) : Type 0 where
  pub refcnt : ℕ
  pub queue : List Entry
  pub flip_signalled : List Entry
  pub vblank_signalled : List Entry
  pub vblank_deferred : List Entry
  pub queue_seq : ℕ
  pub nesting : ℕ → ℕ
  pub world : W

abbrev pub queue_error : ℕ
queue_error = 0

-- xorg_list_for_each_entry_safe, up to the first entry that passes the test, and xorg_list_del.
unfoldable pub take_first {ℓ} : {A : Type ℓ} → (A → Bool) → List A → Option (A × List A)
take_first p [] = none
take_first p (x ∷ xs) =
    if p x
    then some (x, xs)
    else elim (take_first p xs) [ none ↦ none | some (y, ys) ↦ some (y, x ∷ ys) ]

-- The entries of a list that pass a test, in order.
unfoldable pub select {ℓ} : {A : Type ℓ} → (A → Bool) → List A → List A
select p [] = []
select p (x ∷ xs) = if p x then x ∷ select p xs else select p xs

abbrev pub with_seq : ℕ → Entry → Bool
with_seq s e = e.seq == s

abbrev pub update {ℓ} : {A : Type ℓ} → (ℕ → A) → ℕ → A → ℕ → A
update f k v j = if j == k then v else f j

-- What the queue is given: the code behind the function pointers, two fields of a CRTC. The abort
-- callbacks of the driver do not call into the queue, so they change `world` alone.
pub record Driver (W : Type 0) : Type 0 where
  -- handler crtc frame usec data
  pub run_handler : ℕ → ℕ → ℕ → ℕ → ℕ → State W → State W
  -- abort crtc data
  pub run_abort : ℕ → ℕ → ℕ → W → W
  -- Whether drmmode_crtc->flip_pending is set.
  pub flip_pending : W → ℕ → Bool
  -- crtc->scrn
  pub scrn : ℕ → ℕ

-- A DRM event: the arguments of amdgpu_drm_queue_handler.
pub record Event : Type 0 where
  pub frame : ℕ
  pub sec : ℕ
  pub usec : ℕ
  pub user_ptr : ℕ

infixl 5 ◌>>=◌
abbrev pub ◌>>=◌ {ℓ κ} : {A : Type ℓ} {B : Type κ} → Option A → (A → Option B) → Option B
none >>= f = none
some a >>= f = f a

-- The flip_signalled and vblank_signalled lists get an entry by `signal` alone.
unfoldable pub signalled_entry : Event → Entry → Entry
signalled_entry ev e = record e { usec = (ev.sec * 1000000 + ev.usec) % 2 ^ 64; frame = ev.frame }

-- The sequence number that the next entry gets: the counter skips AMDGPU_DRM_QUEUE_ERROR.
unfoldable pub next_seq : ℕ → ℕ
next_seq n = if n == queue_error then n + 1 else n

module _ {W : Type 0} (d : Driver W) where
  -- The entry has been unlinked by the caller.
  unfoldable pub abort_one : Entry → State W → State W
  abort_one e s = record s { world = d.run_abort e.abort e.crtc e.event_data s.world }

  unfoldable pub handle_one : Entry → State W → State W
  unfolding abort_one
  handle_one e s = elim e.handler [
    | some h ↦ d.run_handler h e.crtc e.frame e.usec e.event_data s
    | none ↦ abort_one e s
  ]

  -- The body of the loop of amdgpu_drm_queue_handler at the entry with the number of the event.
  unfoldable pub signal : Event → Entry → State W → State W
  unfolding abort_one signalled_entry
  signal ev e s = elim e.handler [
    | none ↦ abort_one e s
    | some _ ↦
        if e.is_flip
        then record s { flip_signalled = s.flip_signalled ++ signalled_entry ev e ∷ [] }
        else record s { vblank_signalled = s.vblank_signalled ++ signalled_entry ev e ∷ [] }
  ]

  unfoldable pub queue_handler : Event → State W → State W
  unfolding signal take_first
  queue_handler ev s = elim (take_first (with_seq ev.user_ptr) s.queue) [
    | none ↦ s
    | some (e, rest) ↦ signal ev e (record s { queue = rest })
  ]

  -- One round of the loop of amdgpu_drm_handle_vblank_signalled.
  unfoldable pub vblank_round : Entry → State W → State W
  unfolding handle_one
  vblank_round e s =
      if s.nesting e.crtc == 0
      then handle_one e s
      else record s { vblank_deferred = s.vblank_deferred ++ e ∷ [] }

  -- `none`: the fuel has run out.
  unfoldable pub handle_vblank_signalled : ℕ → State W → Option (State W)
  unfolding vblank_round
  handle_vblank_signalled zero s = none
  handle_vblank_signalled (suc f) s = elim s.vblank_signalled [
    | [] ↦ some s
    | e ∷ rest ↦ handle_vblank_signalled f (vblank_round e (record s { vblank_signalled = rest }))
  ]

  -- The loop of amdgpu_drm_handle_event over the flips.
  unfoldable pub handle_flip_signalled : ℕ → State W → Option (State W)
  unfolding handle_one
  handle_flip_signalled zero s = none
  handle_flip_signalled (suc f) s = elim s.flip_signalled [
    | [] ↦ some s
    | e ∷ rest ↦ handle_flip_signalled f (handle_one e (record s { flip_signalled = rest }))
  ]

  -- Deferred vblank events of the CRTC go back to the signalled list.
  unfoldable pub requeue_deferred : ℕ → State W → State W
  unfolding select
  requeue_deferred crtc s = record s {
    vblank_signalled = s.vblank_signalled ++ select (λ e. e.crtc == crtc) s.vblank_deferred;
    vblank_deferred = select (λ e. not (e.crtc == crtc)) s.vblank_deferred;
  }

  -- drm_queue_handle_deferred, once wait_flip_nesting_level is found to be `suc n`.
  unfoldable pub lower_nesting : ℕ → ℕ → ℕ → State W → Option (State W)
  unfolding handle_vblank_signalled requeue_deferred
  lower_nesting fuel crtc n s =
      let s' : State W = record s { nesting = update s.nesting crtc n } in
      if n == 0 then handle_vblank_signalled fuel (requeue_deferred crtc s') else some s'

  unfoldable pub handle_deferred : ℕ → ℕ → State W → Option (State W)
  unfolding lower_nesting
  handle_deferred fuel crtc s =
      if s.nesting crtc == 0 then some s else lower_nesting fuel crtc (s.nesting crtc - 1) s

  -- `memory`: whether calloc succeeds. The result is the new entry's number, or the error.
  unfoldable pub queue_alloc :
      (memory : Bool) (crtc client id event_data handler abort : ℕ) (is_flip : Bool)
      → State W
      → State W × ℕ
  unfolding next_seq
  queue_alloc memory crtc client id event_data handler abort is_flip s =
      if memory
      then (record s { queue = s.queue ++ e ∷ []; queue_seq = (n + 1) % 2 ^ 64 }, n)
      else (s, queue_error)
    where
      n : ℕ
      n = next_seq s.queue_seq

      e : Entry
      e = record {
        usec = 0;
        id = id;
        seq = n;
        event_data = event_data;
        client = client;
        crtc = crtc;
        handler = some handler;
        abort = abort;
        is_flip = is_flip;
        frame = 0;
      }

  unfoldable pub abort_client : ℕ → State W → State W
  abort_client client s = record s {
    queue = map (λ e. if e.client == client then record e { handler = none } else e) s.queue;
  }

  -- The three loops of amdgpu_drm_abort_entry, over the signalled, deferred and pending entries.
  unfoldable pub abort_in_queue : (Entry → Bool) → State W → State W
  unfolding abort_one take_first
  abort_in_queue p s = elim (take_first p s.queue) [
    | none ↦ s
    | some (e, rest) ↦ abort_one e (record s { queue = rest })
  ]

  unfoldable pub abort_in_deferred : (Entry → Bool) → State W → State W
  unfolding abort_in_queue
  abort_in_deferred p s = elim (take_first p s.vblank_deferred) [
    | none ↦ abort_in_queue p s
    | some (e, rest) ↦ abort_one e (record s { vblank_deferred = rest })
  ]

  unfoldable pub abort_in_signalled : (Entry → Bool) → State W → State W
  unfolding abort_in_deferred
  abort_in_signalled p s = elim (take_first p s.vblank_signalled) [
    | none ↦ abort_in_deferred p s
    | some (e, rest) ↦ abort_one e (record s { vblank_signalled = rest })
  ]

  unfoldable pub abort_entry : ℕ → State W → State W
  unfolding abort_in_signalled
  abort_entry seq s = if seq == queue_error then s else abort_in_signalled (with_seq seq) s

  unfoldable pub abort_id : ℕ → State W → State W
  unfolding abort_in_queue
  abort_id id s = abort_in_queue (λ e. e.id == id) s
