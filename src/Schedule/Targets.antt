-- ===== src/Schedule/Targets.antt =====
-- src/amdgpu_dri2.c: the vblank that a wait or a swap is queued for. A number of the kernel plus
-- msc_delta is the frame count that the client sees.
use xf86_video_amdgpu.Prelude.{
  ℕ, ◌+◌, ◌-◌, ◌*◌, ◌/◌, ◌%◌, ◌^◌, ◌≤◌, ◌<◌, ◌≡◌, ◌⊎◌, inl, inr, Bool, leb, arith,
  mod-eq-of-multiple, Bool-cases,
}
use Prim.Native.Nat.{max}
use native.Mathlib.Nat.{div-add-mod', mod-le}
use xf86_video_amdgpu.Msc.{u32}
use xf86_video_amdgpu.Schedule.{next_match, flip_frames, wait_request, swap_request, swap_event}

-- The first frame after `current` whose remainder by `divisor` is `remainder`.
pub record IsNextMatch (current divisor remainder m : ℕ) : Type 0 where
  pub after : current < m
  pub within : m ≤ current + divisor
  pub matches : m % divisor ≡ remainder

pub next_match-IsNextMatch :
    (current divisor remainder : ℕ)
    → remainder < divisor
    → IsNextMatch current divisor remainder (next_match current divisor remainder)
unfolding next_match
next_match-IsNextMatch current divisor remainder h = record {
  after = ground arith;
  within = ground arith;
  matches = elim (Bool-cases (leb remainder (current % divisor))) [
    | inl t ↦ rw (t, late) (mod-eq-of-multiple (current / divisor + 1) divisor remainder h)
    | inr f ↦ rw (f, early) (mod-eq-of-multiple (current / divisor) divisor remainder h)
  ];
}
  where
    early : current - current % divisor + remainder ≡ current / divisor * divisor + remainder
    early = omega (arith, div-add-mod' current divisor)

    late :
        current - current % divisor + remainder + divisor
        ≡ (current / divisor + 1) * divisor + remainder
    late = omega (arith, div-add-mod' current divisor)

-- A client that waits for a frame that has not passed, or names no divisor, gets an event at that
-- frame, or at once.
pub wait_request-target :
    (delta current target divisor remainder : ℕ)
    → delta < 2 ^ 32
    → current < 2 ^ 32
    → target < 2 ^ 32
    → (divisor ≡ 0) ⊎ (current < target)
    → u32 (wait_request delta current target divisor remainder + delta) ≡ max current target
unfolding wait_request
wait_request-target delta current target divisor remainder hd hc ht (inl e) = ground arith
wait_request-target delta current target divisor remainder hd hc ht (inr e) = ground arith

-- Otherwise the event comes at the first frame after the current one that leaves the remainder,
-- unless the counter wraps in between.
pub wait_request-IsNextMatch :
    (delta current target divisor remainder : ℕ)
    → delta < 2 ^ 32
    → current + divisor < 2 ^ 32
    → target ≤ current
    → remainder < divisor
    → IsNextMatch current divisor remainder
        (u32 (wait_request delta current target divisor remainder + delta))
unfolding wait_request
wait_request-IsNextMatch delta current target divisor remainder hd hc ht hr =
    let next = next_match-IsNextMatch current divisor remainder hr in
    let same : u32 (wait_request delta current target divisor remainder + delta)
        ≡ next_match current divisor remainder =
      ground (arith, next.within) in
    rw same next

-- A swap whose target has passed is queued for the first frame after the current one that leaves
-- the remainder, where no vblanks are interpolated and the window has not moved (msc_delta is 0)
-- and the counter does not wrap. A flip is queued one vblank early, since it shows a frame later.
pub swap_request-IsNextMatch :
    (flip : Bool) (current target divisor remainder : ℕ)
    → current + divisor < 2 ^ 32
    → target ≤ current
    → remainder < divisor
    → IsNextMatch current divisor remainder
        (u32 (swap_request flip 0 current target divisor remainder + flip_frames flip))
unfolding swap_request swap_event next_match
swap_request-IsNextMatch flip current target divisor remainder hc ht hr =
    let next = next_match-IsNextMatch current divisor remainder hr in
    let same : u32 (swap_request flip 0 current target divisor remainder + flip_frames flip)
        ≡ next_match current divisor remainder =
      ground (arith, mod-le current divisor, next.within) in
    rw same next

-- A swap whose target lies ahead is queued for it, or for now if the target has passed and there is
-- no divisor.
pub swap_request-target :
    (flip : Bool) (delta current target divisor remainder : ℕ)
    → delta < 2 ^ 32
    → current < 2 ^ 32
    → target < 2 ^ 32
    → (divisor ≡ 0) ⊎ (current < target)
    → u32 (swap_request flip delta current target divisor remainder + delta) ≡ max current target
unfolding swap_request
swap_request-target flip delta current target divisor remainder hd hc ht (inl e) = ground arith
swap_request-target flip delta current target divisor remainder hd hc ht (inr e) = ground arith
