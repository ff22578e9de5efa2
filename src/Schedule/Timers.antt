-- ===== src/Schedule/Timers.antt =====
-- src/amdgpu_dri2.c: amdgpu_dri2_extrapolate_msc_delay, the timers of waits and swaps on a CRTC that
-- is off.
use xf86_video_amdgpu.Prelude.{
  ℕ, ◌+◌, ◌-◌, ◌*◌, ◌^◌, ◌≤◌, ◌<◌, ◌≡◌, ◌≢◌, ◌⊎◌, inl, inr, refl, true, false, some, ◌==◌, leb,
  arith,
}
use xf86_video_amdgpu.Msc.{Timing, ok, sub64}
use xf86_video_amdgpu.Schedule.{
  Delay, next_match, extrapolate_msc_delay, target_time, missed_delay, current_msc, to_milliseconds,
}
use xf86_video_amdgpu.Schedule.Targets.{IsNextMatch, next_match-IsNextMatch}

to_milliseconds_bounds :
    (d : ℕ) → d < 2 ^ 32 → (d < 1000 * to_milliseconds d) × (1000 * to_milliseconds d ≤ d + 2000)
unfolding to_milliseconds
to_milliseconds_bounds d h = ground arith

-- On a CRTC with a recorded vblank and a frame rate, a target that the clock has not reached, and
-- reaches within 2 ^ 32 microseconds, is kept, and the timer fires after the target's time and at
-- most two milliseconds later.
pub extrapolate_msc_delay-ahead :
    (t : Timing) (now target divisor remainder : ℕ)
    → t.dpms_last_ust ≢ 0
    → t.dpms_last_fps ≢ 0
    → now ≤ target_time t target
    → target_time t target < 2 ^ 64
    → target_time t target - now < 2 ^ 32
    → (delay : ℕ) × (extrapolate_msc_delay (some now) t target divisor remainder
        ≡ ok (record { target = target; delay = delay }))
      × (target_time t target < now + 1000 * delay)
      × (now + 1000 * delay ≤ target_time t target + 2000)
unfolding extrapolate_msc_delay
extrapolate_msc_delay-ahead t now target divisor remainder seen rate ahead small near =
    let d : sub64 (target_time t target) now ≡ target_time t target - now = omega arith in
    let bounds = to_milliseconds_bounds (target_time t target - now) near in
    (to_milliseconds (target_time t target - now), ground (arith, d), omega arith, omega arith)

missed_lem :
    (t : Timing) (now target divisor remainder : ℕ)
    → t.dpms_last_ust ≢ 0
    → t.dpms_last_fps ≢ 0
    → target_time t target < now
    → now < target_time t target + 2 ^ 63
    → now < 2 ^ 64
    → extrapolate_msc_delay (some now) t target divisor remainder
      ≡ ok (missed_delay now t (current_msc now t) divisor remainder)
unfolding extrapolate_msc_delay
missed_lem t now target divisor remainder seen rate past near small =
    rw (running, extrapolate_msc_delay) (rw (counts, missed) refl)
  where
    running : (t.dpms_last_ust == 0) ≡ false
    running = ground arith

    counts : (t.dpms_last_fps == 0) ≡ false
    counts = ground arith

    missed : leb (2 ^ 63) (sub64 (target_time t target) now) ≡ true
    missed = ground arith

-- On such a CRTC a target that the clock has passed is replaced: by the current count where there is
-- no divisor, with a delay of one millisecond, and else by the next count with the remainder, if that
-- is below the divisor and the 32-bit count does not wrap before it.
pub extrapolate_msc_delay-missed :
    (t : Timing) (now target divisor remainder : ℕ)
    → t.dpms_last_ust ≢ 0
    → t.dpms_last_fps ≢ 0
    → target_time t target < now
    → now < target_time t target + 2 ^ 63
    → now < 2 ^ 64
    → current_msc now t + divisor < 2 ^ 32
    → (divisor ≡ 0) ⊎ (remainder < divisor)
    → (d : Delay) × (extrapolate_msc_delay (some now) t target divisor remainder ≡ ok d)
      × (((divisor ≡ 0) × (d.target ≡ current_msc now t) × (d.delay ≡ 1))
          ⊎ IsNextMatch (current_msc now t) divisor remainder d.target)
unfolding missed_delay to_milliseconds
extrapolate_msc_delay-missed t now target divisor remainder seen rate past near small room (inl z) =
    (
      missed_delay now t (current_msc now t) divisor remainder,
      missed_lem t now target divisor remainder seen rate past near small,
      inl (z, ground (arith, z), ground (arith, z)),
    )
extrapolate_msc_delay-missed t now target divisor remainder seen rate past near small room (inr r) =
    (
      missed_delay now t (current_msc now t) divisor remainder,
      missed_lem t now target divisor remainder seen rate past near small,
      inr (rw same next),
    )
  where
    next :
        IsNextMatch
          (current_msc now t)
          divisor
          remainder
          (next_match (current_msc now t) divisor remainder)
    next = next_match-IsNextMatch (current_msc now t) divisor remainder r

    divides : (divisor == 0) ≡ false
    divides = ground arith

    same :
        (missed_delay now t (current_msc now t) divisor remainder).target
        ≡ next_match (current_msc now t) divisor remainder
    same = rw divides (omega (arith, next.within))
