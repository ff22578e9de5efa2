-- ===== src/Dri2/Handlers.antt =====
-- src/amdgpu_dri2.c: amdgpu_dri2_schedule_flip, and the handlers and abort callbacks of flips and of
-- frame events.
use xf86_video_amdgpu.Prelude.{
  ℕ, ◌+◌, ◌-◌, ◌/◌, ◌%◌, ◌^◌, Bool, true, false, ◌&&◌, not, Option, none, some, if◌then◌else◌, ltb,
}
use xf86_video_amdgpu.DrmQueue.{Driver, State, update}
use xf86_video_amdgpu.Msc.{u32, get_msc_delta}
use xf86_video_amdgpu.Pageflip.Submit.{World, Submission, Setting, do_pageflip}
use xf86_video_amdgpu.Present.{setting_of}
use xf86_video_amdgpu.Dri2.{
  Drawable, dri2_swap, dri2_flip, dri2_wait_msc, SwapType, exchange_complete, blit_complete,
  flip_complete, FrameEvent, completes_swap, completes_wait, copies, Dri2, emit, unref_buffer,
  can_exchange, can_flip_buffers, exchange_buffers,
}

abbrev pub window_delta : Drawable → Option ℕ
window_delta draw = if draw.is_window then some draw.vblank_delta else none

-- amdgpu_get_msc_delta of a drawable and a CRTC
abbrev pub delta_of : Drawable → (crtc : ℕ) → Dri2 → ℕ
delta_of draw crtc d = get_msc_delta (d.timing crtc) (window_delta draw)

-- amdgpu_dri2_flip_event_abort. `crtc` is none where it is NULL.
unfoldable pub flip_event_abort : (crtc : Option ℕ) → (event : ℕ) → Dri2 → Dri2
flip_event_abort crtc event d =
    let d' : Dri2 = record d { flips = update d.flips event none } in
    elim crtc [
      | none ↦ d'
      | some c ↦ record d' { server = record d'.server { dri2_flipping = false } }
    ]

-- amdgpu_update_flip_stats
unfoldable pub update_flip_stats : (drawable ust : ℕ) → Drawable → Dri2 → Dri2
update_flip_stats drawable ust draw d =
    if draw.is_window
    then record d {
      drawables =
          update d.drawables drawable
            (some (record draw { last_flip_ust = ust; flip_count = u32 (draw.flip_count + 1) }));
    }
    else d

-- The frame and the time that a client is told, all of them 0 if the frame is impossible.
unfoldable pub reported : (frame target usec : ℕ) → ℕ × ℕ × ℕ
reported frame target usec =
    if ltb frame target && ltb (target - frame) 5
    then (0, 0, 0)
    else (frame, u32 (usec / 1000000), usec % 1000000)

-- amdgpu_dri2_flip_event_handler, on the event at an address. The event of a flip is a DRI2_SWAP.
unfoldable pub flip_event_handler : (crtc frame usec event : ℕ) → Dri2 → Dri2
flip_event_handler crtc frame usec event d = elim (d.flips event) [
  | none ↦ d
  | some v ↦ elim (d.drawables v.drawable_id) [
    | none ↦ flip_event_abort (some crtc) event d
    | some draw ↦
        let (msc, sec, micro) = reported (u32 (frame + delta_of draw crtc d)) v.frame usec in
        flip_event_abort (some crtc) event (
          update_flip_stats v.drawable_id usec draw (
            emit
              (completes_swap v.client v.drawable_id msc sec micro flip_complete v.event_complete
                v.event_data)
              d))
  ]
]

-- amdgpu_dri2_flip_event_handler and amdgpu_dri2_flip_event_abort as function pointers.
abbrev pub flip_event_proc : ℕ
flip_event_proc = 5

abbrev pub flip_event_abort_proc : ℕ
flip_event_abort_proc = 6

-- What a flip is given: memory and an address for its event, the framebuffer of the back buffer's
-- pixmap, and the rest of the setting of amdgpu_do_pageflip.
pub record Grant : Type 0 where
  pub memory : Bool
  pub event : ℕ
  pub fb : Option ℕ
  pub id : ℕ
  pub async_secondaries : Bool
  pub has_page_flip_target : Bool
  pub setting : Setting

abbrev pub swap_submission : Grant → (client crtc target_msc : ℕ) → Submission
swap_submission g client crtc target_msc = record {
  client = client;
  id = g.id;
  event_data = g.event;
  ref_crtc = some crtc;
  handler = flip_event_proc;
  abort = flip_event_abort_proc;
  async = false;
  target_msc = target_msc;
  front_fb = g.fb;
  async_secondaries = g.async_secondaries;
  has_page_flip_target = g.has_page_flip_target;
}

module _ (other : Driver World) (g : Grant) where
  -- amdgpu_dri2_schedule_flip for the event of a frame. `none`: the fuel has run out.
  unfoldable pub schedule_flip :
      (crtc : ℕ) → Drawable → FrameEvent → Dri2 → State World → Option (Bool × Dri2 × State World)
  schedule_flip crtc draw v d t =
      if not g.memory
      then some (false, d, t)
      else (let a : Submission =
            swap_submission g v.client crtc (u32 (v.frame + 2 ^ 32 - delta_of draw crtc d)) in
          let d' : Dri2 = record d {
            flips =
                update d.flips g.event
                  (some (record v { kind = dri2_swap; front = none; back = none }));
          } in
          elim (do_pageflip other a (setting_of d.server g.setting) d.server.crtcs t) [
            | none ↦ none
            | some (true, t') ↦
                some (true, record d' { server = record d'.server { dri2_flipping = true } }, t')
            | some (false, t') ↦ some (false, d', t')
          ])

  -- amdgpu_dri2_frame_event_abort, without the event's timer and memory.
  unfoldable pub frame_event_abort : FrameEvent → Dri2 → Dri2
  frame_event_abort v d = unref_buffer v.back (unref_buffer v.front d)

  -- The case DRI2_SWAP: an exchange or a copy, and the completion.
  unfoldable pub swap : (msc usec : ℕ) → Drawable → FrameEvent → (front back : ℕ) → Dri2 → Dri2
  swap msc usec draw v front back d =
      let (exchange, d') =
        if draw.dri2_can_exchange then can_exchange draw front back d else (false, d) in
      let complete : SwapType → Dri2 → Dri2 = λ kind. emit (
        completes_swap v.client v.drawable_id msc (usec / 1000000) (usec % 1000000) kind
          v.event_complete v.event_data) in
      if exchange
      then complete exchange_complete (exchange_buffers front back d')
      else complete blit_complete (emit (copies v.drawable_id draw.width draw.height front back) d')

  -- The switch on the type of the event, once the drawable is found. A flip that is not possible
  -- falls through to DRI2_SWAP.
  unfoldable pub dispatch :
      (crtc msc usec : ℕ)
      → Drawable
      → FrameEvent
      → (front back : ℕ) → Dri2
      → State World
      → Option (Dri2 × State World)
  dispatch crtc msc usec draw v front back d t = elim v.kind [
    | dri2_wait_msc ↦
        some
          (emit (completes_wait v.client v.drawable_id msc (usec / 1000000) (usec % 1000000)) d, t)
    | dri2_swap ↦ some (swap msc usec draw v front back d, t)
    | dri2_flip ↦
        let (can, d') = can_flip_buffers draw front back d in
        if not can
        then some (swap msc usec draw v front back d', t)
        else (elim (schedule_flip crtc draw v d' t) [
          | none ↦ none
          | some (true, d'', t') ↦ some (exchange_buffers front back d'', t')
          | some (false, d'', t') ↦ some (swap msc usec draw v front back d'', t')
        ])
  ]

  abbrev pub or_zero : Option ℕ → ℕ
  or_zero none = 0
  or_zero (some b) = b

  -- amdgpu_dri2_frame_event_handler. Only the event of a wait has no buffers.
  unfoldable pub frame_event_handler :
      (crtc seq usec : ℕ) → FrameEvent → Dri2 → State World → Option (Dri2 × State World)
  frame_event_handler crtc seq usec v d t = elim (d.drawables v.drawable_id) [
    | none ↦ some (frame_event_abort v d, t)
    | some draw ↦
        elim (dispatch crtc (u32 (seq + delta_of draw crtc d)) usec draw v (or_zero v.front)
          (or_zero v.back) d t) [ none ↦ none | some (d', t') ↦ some (frame_event_abort v d', t') ]
  ]
