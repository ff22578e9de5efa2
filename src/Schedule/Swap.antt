-- ===== src/Schedule/Swap.antt =====
-- src/amdgpu_dri2.c: amdgpu_dri2_schedule_swap as a whole.
use xf86_video_amdgpu.Prelude.{ℕ, ◌+◌, Bool, not, Option, none, some, if◌then◌else◌}
use xf86_video_amdgpu.Msc.{Timing, Reading, ok, failed, crash, u32, sub64}
use xf86_video_amdgpu.Schedule.{
  Delay, extrapolate_msc_delay, flip_frames, swap_target, swap_request,
}

-- What the calls outside the function give. `accepts` is the vblank counter with which the kernel
-- answers a request, if it accepts it; `can_flip` the result of the function of that name.
pub record SwapCalls : Type 0 where
  pub memory : Bool
  pub queue_entry : Bool
  pub enabled : Bool
  pub clock : Option ℕ
  pub counter : Option ℕ
  pub can_flip : Bool
  pub allow_page_flip : Bool
  pub accepts : (next_on_miss : Bool) → ℕ → Option ℕ

-- An event that is queued: its kind, the vblank that was asked for, and the target that the client
-- is told, which is also the frame that the event is checked against.
pub record Queued : Type 0 where
  pub is_flip : Bool
  pub next_on_miss : Bool
  pub sequence : ℕ
  pub target : ℕ

-- The swap is copied at once, copied when a timer fires (the CRTC is off, or something failed), or
-- queued.
pub data SwapOutcome : Type 0 where
  blits fallback_timer division_by_zero : SwapOutcome
  off_timer : (target delay : ℕ) → SwapOutcome
  queued : Queued → SwapOutcome

abbrev pub off_outcome : (delta : ℕ) → Reading Delay → SwapOutcome
off_outcome delta (ok d) = off_timer (u32 (d.target + delta)) d.delay
off_outcome delta failed = division_by_zero
off_outcome delta crash = division_by_zero

-- The request and its answer. A flip takes one frame more, and is not asked to wait for the next
-- vblank if its own has passed.
unfoldable pub request_swap : SwapCalls → (delta sequence : ℕ) → SwapOutcome
request_swap c delta sequence = elim (c.accepts (not c.can_flip) sequence) [
  | none ↦ fallback_timer
  | some seq ↦ queued (record {
    is_flip = c.can_flip;
    next_on_miss = not c.can_flip;
    sequence = sequence;
    target = u32 (seq + flip_frames c.can_flip + delta);
  })
]

unfoldable pub schedule_swap :
    SwapCalls → (crtc : Option (Timing × ℕ)) → (target divisor remainder : ℕ) → SwapOutcome
schedule_swap c none target divisor remainder = blits
schedule_swap c (some (t, delta)) target divisor remainder =
    if not c.memory
    then blits
    else if not c.queue_entry
    then fallback_timer
    else if not c.enabled
    then off_outcome delta
        (extrapolate_msc_delay c.clock t (sub64 (u32 target) delta) (u32 divisor) (u32 remainder))
    else (elim c.counter [
      | none ↦ fallback_timer
      | some seq ↦ request_swap c delta (
          swap_request c.can_flip delta (u32 (seq + delta))
            (swap_target c.allow_page_flip t.dpms_last_fps c.can_flip (u32 (seq + delta))
              (u32 target))
            (u32 divisor) (u32 remainder))
    ])
