-- ===== src/Pageflip/Submit.antt =====
-- src/drmmode_display.c, amdgpu_do_pageflip: the submission of a page flip on every CRTC that can
-- flip, on the event queue of src/amdgpu_drm_queue.c.
pub mod Undo
pub mod Account
pub mod Rounds
pub mod Loop
pub mod Outcome
pub mod Deliveries
pub mod Uncounted
use xf86_video_amdgpu.Prelude.{
  ℕ, ◌+◌, ◌-◌, ◌%◌, ◌^◌, Bool, true, false, ◌&&◌, ◌||◌, not, Option, none, some, List, [], ◌∷◌,
  ◌++◌, if◌then◌else◌, ◌==◌, ltb,
}
use xf86_video_amdgpu.Framebuffer.{
  Fb, Slot, Fbs, Result, ok, fatal, fault, ◌>>=◌, fb_reference, flip_pending, flipdata_fb,
}
use xf86_video_amdgpu.DrmQueue.{
  Driver, State, queue_alloc, abort_entry, handle_deferred, queue_error, update,
}
use xf86_video_amdgpu.DrmQueue.Wait.{ReadResult, wait_pending_flip}
use xf86_video_amdgpu.Pageflip.{
  FlipData, Flips, Call, calls_abort_early, pointer_eq, is_some, set_flipdata, flip_abort,
  flip_handler,
}

-- The part of the driver that a submission changes: the flips and framebuffers, the scanout fields
-- of the CRTCs, and the calls of the callbacks of the higher levels, in order.
pub record Screen : Type 0 where
  pub flips : Flips
  pub scanout_id : ℕ → ℕ
  pub ignore_damage : ℕ → Bool
  pub update_pending : ℕ → ℕ
  pub calls : List Call

-- A FatalError or an access to freed memory makes the rest of the driver's state meaningless.
abbrev pub World : Type 0
World = Result Screen

-- drmmode_flip_handler and drmmode_flip_abort as function pointers.
abbrev pub flip_handler_proc : ℕ
flip_handler_proc = 1

abbrev pub flip_abort_proc : ℕ
flip_abort_proc = 2

abbrev pub logged : Option Call → List Call → List Call
logged none cs = cs
logged (some c) cs = cs ++ c ∷ []

abbrev pub settle : Screen → Flips × Option Call → World
settle s (fl, call) = ok (record s { flips = fl; calls = logged call s.calls })

unfoldable pub abort_in : (crtc f : ℕ) → World → World
abort_in crtc f w = w >>= λ s. flip_abort crtc f s.flips >>= λ r. settle s r

unfoldable pub complete_in : (crtc frame usec f : ℕ) → World → World
complete_in crtc frame usec f w =
    w >>= λ s. flip_handler crtc frame usec f s.flips >>= λ r. settle s r

abbrev pub pending_in : World → ℕ → Bool
pending_in (ok s) crtc = is_some (s.flips.fbs.held (flip_pending crtc))
pending_in _ crtc = false

-- The queue's driver: the two callbacks of page flips, and any others.
unfoldable pub flip_driver : Driver World → Driver World
flip_driver other = record {
  run_handler = λ h crtc frame usec event_data s.
      if h == flip_handler_proc
      then record s { world = complete_in crtc frame usec event_data s.world }
      else other.run_handler h crtc frame usec event_data s;
  run_abort = λ a crtc event_data w.
      if a == flip_abort_proc
      then abort_in crtc event_data w
      else other.run_abort a crtc event_data w;
  flip_pending = pending_in;
  scrn = other.scrn;
}

-- drmModePageFlip, or drmModePageFlipTarget where the kernel has it.
pub data FlipTarget : Type 0 where
  absolute relative : ℕ → FlipTarget
  untargeted : FlipTarget

pub record FlipRequest : Type 0 where
  pub crtc : ℕ
  pub fb_id : ℕ
  pub async : Bool
  pub target : FlipTarget
  pub queue_seq : ℕ

-- The arguments of amdgpu_do_pageflip, with the framebuffer of `new_front`, if it has one, and the
-- options of the driver: can_async_flip && async_flip_secondaries, and has_page_flip_target.
pub record Submission : Type 0 where
  pub client : ℕ
  pub id : ℕ
  pub event_data : ℕ
  pub ref_crtc : Option ℕ
  pub handler : ℕ
  pub abort : ℕ
  pub async : Bool
  pub target_msc : ℕ
  pub front_fb : Option ℕ
  pub async_secondaries : Bool
  pub has_page_flip_target : Bool

-- What the submission finds: which CRTCs can flip (drmmode_crtc_can_flip) and use TearFree, the
-- framebuffers of their scanout pixmaps, whether the allocations succeed, and what the kernel
-- answers and delivers. `address` is the flip's.
pub record Setting : Type 0 where
  pub can_flip : ℕ → Bool
  pub tear_free : ℕ → Bool
  pub scanout_fb : ℕ → ℕ → Option ℕ
  pub flipdata_memory : Bool
  pub entry_memory : ℕ → Bool
  pub accepts_vblank : (crtc queue_seq : ℕ) → Bool
  pub accepts_flip : FlipRequest → Bool
  pub reads : ℕ → List ReadResult
  pub fuel : ℕ
  pub address : ℕ

-- The state in the loop, and whether handle_deferred is set.
pub record Progress : Type 0 where
  pub state : State World
  pub deferred : Bool

-- A round of the loop goes on, or jumps to `error` with drm_queue_seq. (At `flip_error` a message is
-- logged in addition.)
pub data Round : Type 0 where
  goes_on : Progress → Round
  fails : Progress → (queue_seq : ℕ) → Round

abbrev pub on_world : (World → World) → State World → State World
on_world g s = record s { world = g s.world }

abbrev pub held_fb : Slot → World → Option ℕ
held_fb σ (ok s) = s.flips.fbs.held σ
held_fb σ _ = none

abbrev pub fb_handle : Option ℕ → World → ℕ
fb_handle (some p) (ok s) = elim (s.flips.fbs.fb p) [ some r ↦ r.handle | none ↦ 0 ]
fb_handle _ _ = 0

abbrev pub on_fbs : (Fbs → Result Fbs) → World → World
on_fbs g w = w >>= λ s. g s.flips.fbs >>= λ b. ok (record s { flips = record s.flips { fbs = b } })

unfoldable pub set_reference : Slot → Option ℕ → World → World
set_reference σ new w = on_fbs (fb_reference σ new) w

-- flipdata->flip_count++
unfoldable pub count_up : ℕ → World → World
count_up f w = w >>= λ s. elim (s.flips.flipdata f) [
  | none ↦ fault
  | some d ↦ ok (record s {
    flips = set_flipdata f (some (record d { flip_count = (d.flip_count + 1) % 2 ^ 32 })) s.flips;
  })
]

-- `if (drmmode_crtc->tear_free)` after a flip has been accepted.
unfoldable pub switch_scanout : ℕ → World → World
switch_scanout crtc w = w >>= λ s. ok (record s {
  scanout_id = update s.scanout_id crtc (1 - s.scanout_id crtc);
  ignore_damage = update s.ignore_damage crtc true;
})

abbrev pub is_ref : Submission → ℕ → Bool
is_ref a crtc = pointer_eq (some crtc) a.ref_crtc

unfoldable pub flip_request : Submission → (crtc fb_id queue_seq : ℕ) → FlipRequest
flip_request a crtc fb_id queue_seq = record {
  crtc = crtc;
  fb_id = fb_id;
  async = if is_ref a crtc then a.async else a.async || a.async_secondaries;
  target =
      if a.has_page_flip_target
      then (if is_ref a crtc then absolute a.target_msc else relative 0)
      else untargeted;
  queue_seq = queue_seq;
}

module _ (other : Driver World) (a : Submission) (e : Setting) where
  -- From `if (crtc == ref_crtc)` to the label `next`.
  unfoldable pub request_flip : (crtc queue_seq : ℕ) → Progress → Round
  request_flip crtc queue_seq p =
      let w : World = p.state.world in
      let new : Option ℕ = held_fb (flipdata_fb e.address crtc) w in
      if e.accepts_flip (flip_request a crtc (fb_handle new w) queue_seq)
      then goes_on (record p {
        state =
            on_world (set_reference (flip_pending crtc) new)
              (on_world (λ v. if e.tear_free crtc then switch_scanout crtc v else v) p.state);
      })
      else fails p queue_seq

  abbrev pub scanout_of : ℕ → World → ℕ
  scanout_of crtc (ok s) = 1 - s.scanout_id crtc
  scanout_of crtc _ = 0

  abbrev pub update_of : ℕ → World → ℕ
  update_of crtc (ok s) = s.update_pending crtc
  update_of crtc _ = 0

  abbrev pub clear_update : ℕ → World → World
  clear_update crtc w = w >>= λ s. ok (record s { update_pending = update s.update_pending crtc 0 })

  -- A pending update of the scanout pixmap is awaited and aborted. `none`: the fuel has run out.
  unfoldable pub drop_update : ℕ → Progress → Option Progress
  drop_update crtc p =
      if update_of crtc p.state.world == 0
      then some p
      else (elim (wait_pending_flip (flip_driver other) e.fuel crtc (e.reads crtc) p.state) [
        | none ↦ none
        | some s ↦ some (record {
          state =
              on_world (clear_update crtc)
                (abort_entry (flip_driver other) (update_of crtc s.world) s);
          deferred = true;
        })
      ])

  -- With TearFree the flip shows the CRTC's other scanout pixmap, or, if it is asynchronous, only
  -- waits for the next vblank.
  unfoldable pub flip_tear_free : (crtc queue_seq : ℕ) → Progress → Option Round
  flip_tear_free crtc queue_seq p =
      if a.async
      then some (if e.accepts_vblank crtc queue_seq then goes_on p else fails p queue_seq)
      else (let fb : Option ℕ = e.scanout_fb crtc (scanout_of crtc p.state.world) in
          let p' : Progress = record p {
            state = on_world (set_reference (flipdata_fb e.address crtc) fb) p.state;
          } in
          if is_some fb
          then (elim (drop_update crtc p') [
            | none ↦ none
            | some p'' ↦ some (request_flip crtc queue_seq p'')
          ])
          else some (fails p' queue_seq))

  -- The body of the loop, once the entry is allocated.
  unfoldable pub flip_allocated : (crtc queue_seq fb : ℕ) → Progress → Option Round
  flip_allocated crtc queue_seq fb p =
      if e.tear_free crtc
      then flip_tear_free crtc queue_seq p
      else some (
          request_flip crtc queue_seq (record p {
            state = on_world (set_reference (flipdata_fb e.address crtc) (some fb)) p.state;
          }))

  abbrev pub is_flipped : ℕ → Bool
  is_flipped crtc = e.can_flip crtc && not (e.tear_free crtc && not (is_ref a crtc))

  unfoldable pub allocate : ℕ → Progress → State World × ℕ
  allocate crtc p =
      queue_alloc (flip_driver other) (e.entry_memory crtc) crtc a.client a.id e.address
        flip_handler_proc flip_abort_proc true (on_world (count_up e.address) p.state)

  unfoldable pub flip_crtc : (fb crtc : ℕ) → Progress → Option Round
  flip_crtc fb crtc p =
      if is_flipped crtc
      then (let (s, seq) = allocate crtc p in
          if seq == queue_error
          then some (fails (record p { state = s }) queue_error)
          else flip_allocated crtc seq fb (record p { state = s }))
      else some (goes_on p)

  -- The loop over the CRTCs. The result has the last CRTC that was looked at, `crtc` of the source.
  unfoldable pub flip_crtcs : (fb : ℕ) → List ℕ → Option ℕ → Progress → Option (Round × Option ℕ)
  flip_crtcs fb [] last p = some (goes_on p, last)
  flip_crtcs fb (crtc ∷ crtcs) last p = elim (flip_crtc fb crtc p) [
    | none ↦ none
    | some (fails p' seq) ↦ some (fails p' seq, some crtc)
    | some (goes_on p') ↦ flip_crtcs fb crtcs (some crtc) p'
  ]

  -- The label `error`, once the flip is allocated.
  unfoldable pub undo : (queue_seq : ℕ) → Option ℕ → State World → State World
  undo queue_seq last s =
      if queue_seq == 0
      then (elim last [
        | some crtc ↦ on_world (abort_in crtc e.address) s
        | none ↦
            on_world
              (λ w. w >>= λ v. ok (record v {
                flips = set_flipdata e.address none v.flips;
                calls = v.calls ++ calls_abort_early a.abort a.event_data ∷ [];
              }))
              s
      ])
      else abort_entry (flip_driver other) queue_seq s

  -- amdgpu_drm_queue_handle_deferred of the reference CRTC.
  unfoldable pub release_deferred : Progress → Option (State World)
  release_deferred p =
      if p.deferred
      then (elim a.ref_crtc [
        | none ↦ some p.state
        | some c ↦ handle_deferred (flip_driver other) e.fuel c p.state
      ])
      else some p.state

  abbrev pub flip_count_of : World → ℕ
  flip_count_of (ok s) = elim (s.flips.flipdata e.address) [ none ↦ 0 | some d ↦ d.flip_count ]
  flip_count_of _ = 0

  abbrev pub with_result : Bool → Option (State World) → Option (Bool × State World)
  with_result b none = none
  with_result b (some s) = some (b, s)

  -- After the loop. flip_count is an int, and is positive below 2 ^ 31.
  unfoldable pub finish : Round × Option ℕ → Option (Bool × State World)
  finish (goes_on p, last) = elim (release_deferred p) [
    | none ↦ none
    | some s ↦
        if ltb 0 (flip_count_of s.world) && ltb (flip_count_of s.world) (2 ^ 31)
        then some (true, s)
        else with_result false (release_deferred (record p { state = undo 0 last s }))
  ]
  finish (fails p seq, last) =
      with_result false (release_deferred (record p { state = undo seq last p.state }))

  abbrev pub new_flipdata : FlipData
  new_flipdata = record {
    event_data = a.event_data;
    flip_count = 0;
    fe_frame = 0;
    fe_usec = 0;
    fe_crtc = a.ref_crtc;
    handler = a.handler;
    abort = a.abort;
  }

  abbrev pub allocate_flip : World → World
  allocate_flip w =
      w >>= λ s. ok (record s { flips = set_flipdata e.address (some new_flipdata) s.flips })

  -- amdgpu_do_pageflip on the CRTCs of the screen. Without memory for the flip, or a framebuffer for
  -- the pixmap, it calls `abort` at once.
  unfoldable pub do_pageflip : List ℕ → State World → Option (Bool × State World)
  do_pageflip crtcs s =
      if not e.flipdata_memory then some (false, undo 0 none s) else (elim a.front_fb [
        | none ↦ some (false, undo 0 none s)
        | some fb ↦
            elim (flip_crtcs fb crtcs none
              (record { state = on_world allocate_flip s; deferred = false })) [
                | none ↦ none
                | some r ↦ finish r
              ]
      ])
