-- ===== src/Schedule.antt =====
-- src/amdgpu_dri2.c: for which vblank a client's wait or swap is queued
-- (amdgpu_dri2_schedule_wait_msc, amdgpu_dri2_schedule_swap, amdgpu_get_optimal_flip_target,
-- amdgpu_dri2_extrapolate_msc_delay).
pub mod Swap
pub mod Outcome
pub mod Timers
pub mod Targets
pub mod Late
use xf86_video_amdgpu.Prelude.{
  ℕ, ◌+◌, ◌-◌, ◌*◌, ◌/◌, ◌%◌, ◌^◌, Bool, true, false, ◌&&◌, ◌||◌, not, Option, none, some,
  if◌then◌else◌, ◌==◌, ltb, leb,
}
use xf86_video_amdgpu.Msc.{Timing, Reading, ok, failed, crash, u32, u64, sub64}

abbrev pub fallback_swap_delay : ℕ
fallback_swap_delay = 16

-- int64_t division by a positive int: the quotient is rounded towards 0.
abbrev pub sdiv64 : ℕ → ℕ → ℕ
sdiv64 a n = if ltb a (2 ^ 63) then a / n else sub64 0 ((2 ^ 64 - a) / n)

-- The target that the client is told, and the delay in milliseconds.
pub record Delay : Type 0 where
  pub target : ℕ
  pub delay : ℕ

-- The first frame after `current` that leaves the remainder, as both functions compute it.
unfoldable pub next_match : (current divisor remainder : ℕ) → ℕ
next_match current divisor remainder =
    let base : ℕ = current - current % divisor + remainder in
    if leb remainder (current % divisor) then base + divisor else base

-- When the vblank with the number comes, by the clock.
unfoldable pub target_time : Timing → ℕ → ℕ
target_time t target =
    u64 (t.dpms_last_ust + sdiv64 (u64 (sub64 target t.dpms_last_seq * 1000000)) t.dpms_last_fps)

unfoldable pub to_milliseconds : ℕ → ℕ
to_milliseconds d =
    if ltb 0 (u32 d - u32 d / 1000 * 1000) then u32 d / 1000 + 2 else u32 d / 1000 + 1

unfoldable pub missed_delay : (now : ℕ) → Timing → (current divisor remainder : ℕ) → Delay
missed_delay now t current divisor remainder =
    if divisor == 0 then record { target = current; delay = to_milliseconds 0 } else record {
      target = u32 (next_match current divisor remainder);
      delay =
          to_milliseconds (sub64 (target_time t (u32 (next_match current divisor remainder))) now);
    }

-- The count that the CRTC would have now, if it ran.
unfoldable pub current_msc : (now : ℕ) → Timing → ℕ
current_msc now t =
    u32 (t.dpms_last_seq + sdiv64 (u64 (sub64 now t.dpms_last_ust * t.dpms_last_fps)) 1000000)

-- `clock` is the result of drmmode_get_current_ust.
unfoldable pub extrapolate_msc_delay :
    Option ℕ → Timing → (target divisor remainder : ℕ) → Reading Delay
extrapolate_msc_delay clock t target divisor remainder =
    if t.dpms_last_ust == 0
    then ok (record { target = 0; delay = fallback_swap_delay })
    else (elim clock [
      | none ↦ ok (record { target = 0; delay = fallback_swap_delay })
      | some now ↦
          if t.dpms_last_fps == 0
          then crash
          else if leb (2 ^ 63) (sub64 (target_time t target) now)
          then ok (missed_delay now t (current_msc now t) divisor remainder)
          else ok (record {
            target = target;
            delay = to_milliseconds (sub64 (target_time t target) now);
          })
    ])

-- What schedule_wait_msc does: it wakes the client at once, it runs the event at once, it sets a
-- timer, or it asks the kernel for an event at a vblank.
pub data WaitOutcome : Type 0 where
  completes runs_event division_by_zero : WaitOutcome
  sleeps : (delay : ℕ) → WaitOutcome
  waits_for : (sequence : ℕ) → WaitOutcome

-- The vblank that schedule_wait_msc asks for, in the numbers of the kernel.
unfoldable pub wait_request : (delta current target divisor remainder : ℕ) → ℕ
wait_request delta current target divisor remainder =
    if divisor == 0 || ltb current target
    then u32 (sub64 (if leb target current then current else target) delta)
    else u32 (sub64 (next_match current divisor remainder) delta)

abbrev pub sleep : Reading Delay → WaitOutcome
sleep (ok d) = sleeps d.delay
sleep failed = division_by_zero
sleep crash = division_by_zero

-- What the calls outside the function give: the allocation of the event, the CRTC's state, the
-- vblank counter, the allocation of the queue entry, and whether the request is accepted.
pub record Calls : Type 0 where
  pub memory : Bool
  pub enabled : Bool
  pub clock : Option ℕ
  pub counter : Option ℕ
  pub queue_entry : Bool
  pub accepts : ℕ → Bool

abbrev pub request_wait : Calls → ℕ → WaitOutcome
request_wait c sequence = if c.accepts sequence then waits_for sequence else runs_event

-- `crtc` is the CRTC's timing and the sum that amdgpu_get_msc_delta gives.
unfoldable pub schedule_wait_msc :
    Calls → (crtc : Option (Timing × ℕ)) → (target divisor remainder : ℕ) → WaitOutcome
schedule_wait_msc c none target divisor remainder = completes
schedule_wait_msc c (some (t, delta)) target divisor remainder =
    if not c.memory
    then completes
    else if not c.enabled
    then sleep
        (extrapolate_msc_delay c.clock t (sub64 (u32 target) delta) (u32 divisor) (u32 remainder))
    else (elim c.counter [
      | none ↦ runs_event
      | some seq ↦
          if c.queue_entry
          then request_wait c
              (wait_request delta (u32 (seq + delta)) (u32 target) (u32 divisor) (u32 remainder))
          else runs_event
    ])

unfoldable pub get_optimal_flip_target : (allow : Bool) → (fps current target : ℕ) → ℕ
get_optimal_flip_target allow fps current target =
    if ltb 0 fps && allow
    then (if leb target current
        then u64 (current + 1)
        else if ltb (current + 1 + 2) target
        then u64 (current + 1)
        else target)
    else target

abbrev pub flip_frames : Bool → ℕ
flip_frames flip = if flip then 1 else 0

-- `if (*target_msc > 0) *target_msc -= flip`, after the target has been adjusted for a flip.
unfoldable pub swap_target : (allow : Bool) → (fps : ℕ) → (flip : Bool) → (current target : ℕ) → ℕ
swap_target allow fps flip current target =
    let t : ℕ = if flip then get_optimal_flip_target allow fps current target else target in
    if ltb 0 t then t - flip_frames flip else t

-- The frame that satisfies the divisor and the remainder, as schedule_swap computes it.
unfoldable pub swap_event : (flip : Bool) → (delta current divisor remainder : ℕ) → ℕ
swap_event flip delta current divisor remainder =
    let event : ℕ = sub64 (current - current % divisor + remainder) delta in
    sub64 (if leb event current then u64 (event + divisor) else event) (flip_frames flip)

-- The vblank that schedule_swap asks for; `target` is the result of swap_target.
unfoldable pub swap_request : (flip : Bool) → (delta current target divisor remainder : ℕ) → ℕ
swap_request flip delta current target divisor remainder =
    if divisor == 0 || ltb current target
    then u32 (sub64 (if leb target current then current else target) delta)
    else u32 (swap_event flip delta current divisor remainder)
