-- ===== src/Schedule/Late.antt =====
-- src/amdgpu_dri2.c: the effect of msc_delta on a swap with a divisor.
use xf86_video_amdgpu.Prelude.{ℕ, ◌+◌, ◌-◌, ◌*◌, ◌/◌, ◌%◌, ◌^◌, ◌≤◌, ◌<◌, ◌≡◌, ◌∙◌, false, arith}
use native.Mathlib.Nat.{mod-le, mod-add-div', add-mul-mod_self_right}
use xf86_video_amdgpu.Msc.{u32}
use xf86_video_amdgpu.Schedule.{next_match, wait_request, swap_request, swap_event}

-- For a copy, with no wrap of the counts, a target that has passed, a remainder between that of the
-- current frame and the divisor, and a msc_delta between the divisor and the current frame:
-- schedule_wait_msc asks for the first frame after the current one that has the remainder, and
-- schedule_swap, which compares a number of the kernel with a frame count of the client, for the
-- frame one divisor later.
pub swap_request-late :
    (delta current target divisor remainder : ℕ)
    → current + divisor + divisor < 2 ^ 32
    → target ≤ current
    → current % divisor < remainder
    → remainder < divisor
    → divisor ≤ delta
    → delta ≤ current
    → let first = current - current % divisor + remainder in
      (first % divisor ≡ remainder)
      × (current < first)
      × (first < current + divisor)
      × (u32 (wait_request delta current target divisor remainder + delta) ≡ first)
      × (u32 (swap_request false delta current target divisor remainder + delta) ≡ first + divisor)
unfolding swap_request swap_event wait_request next_match
swap_request-late delta current target divisor remainder room past before small far seen =
    let le : current % divisor ≤ current = mod-le current divisor in
    let sum : current - current % divisor + remainder ≡ remainder + current / divisor * divisor =
      omega (arith, mod-add-div' current divisor) in
    (
      rw sum (add-mul-mod_self_right remainder (current / divisor) divisor ∙ grind arith),
      omega arith,
      omega arith,
      ground arith,
      ground arith,
    )
