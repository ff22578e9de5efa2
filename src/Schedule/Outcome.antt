-- ===== src/Schedule/Outcome.antt =====
-- src/amdgpu_dri2.c: a swap whose target lies ahead, through amdgpu_dri2_schedule_swap.
use xf86_video_amdgpu.Prelude.{
  ℕ, ◌+◌, ◌-◌, ◌^◌, ◌≤◌, ◌<◌, ◌≡◌, inr, refl, Bool, true, not, some, arith,
}
use Prim.Native.Nat.{max}
use xf86_video_amdgpu.Msc.{Timing, u32}
use xf86_video_amdgpu.Schedule.{flip_frames, swap_target, swap_request, get_optimal_flip_target}
use xf86_video_amdgpu.Schedule.Swap.{SwapCalls, Queued, queued, request_swap, schedule_swap}
use xf86_video_amdgpu.Schedule.Targets.{swap_request-target}

near_target :
    (allow flip : Bool) (fps current target : ℕ)
    → current + 1 < target
    → target ≤ current + 3
    → swap_target allow fps flip current target ≡ target - flip_frames flip
unfolding swap_target get_optimal_flip_target
near_target allow flip fps current target ahead near = ground arith

-- A swap on a running CRTC, where every call succeeds and the kernel answers a request with the
-- vblank that was asked for, is queued if its target lies two or three frames ahead: as a flip one
-- vblank before its target and as a copy at it, and the client is told that it comes at its target.
-- A copy, but no flip, may come at the next vblank if its own has passed.
pub schedule_swap-queued :
    (c : SwapCalls) (t : Timing) (delta seq target divisor remainder : ℕ)
    → c.memory ≡ true
    → c.queue_entry ≡ true
    → c.enabled ≡ true
    → c.counter ≡ some seq
    → ((b : Bool) (n : ℕ) → c.accepts b n ≡ some n)
    → delta < 2 ^ 32
    → target < 2 ^ 32
    → u32 (seq + delta) + 1 < target
    → target ≤ u32 (seq + delta) + 3
    → (q : Queued) × (schedule_swap c (some (t, delta)) target divisor remainder ≡ queued q)
      × (q.is_flip ≡ c.can_flip)
      × (q.next_on_miss ≡ not c.can_flip)
      × (u32 (q.sequence + delta) + flip_frames c.can_flip ≡ target)
      × (q.target ≡ target)
unfolding schedule_swap request_swap
schedule_swap-queued c t delta seq target divisor remainder hm hq he hs ha hd ht ahead near =
    let same : u32 target ≡ target = omega arith in
    let goal =
      near_target c.allow_page_flip c.can_flip t.dpms_last_fps (u32 (seq + delta)) target ahead
        near in
    let asked : u32 (sequence + delta) ≡ max (u32 (seq + delta)) (target - flip_frames c.can_flip) =
      swap_request-target c.can_flip delta (u32 (seq + delta)) (target - flip_frames c.can_flip)
        (u32 divisor) (u32 remainder) hd (omega arith) (omega arith) (inr small) in
    (
      result,
      rw (hm, schedule_swap)
          (rw hq (
            rw he
              (rw hs (rw same (rw goal (rw (ha (not c.can_flip) sequence, request_swap) refl)))))),
      refl,
      refl,
      ground (arith, asked, small),
      ground (arith, asked, small),
    )
  where
    sequence : ℕ
    sequence =
        swap_request c.can_flip delta (u32 (seq + delta)) (target - flip_frames c.can_flip)
          (u32 divisor) (u32 remainder)

    small : u32 (seq + delta) < target - flip_frames c.can_flip
    small = ground arith

    result : Queued
    result = record {
      is_flip = c.can_flip;
      next_on_miss = not c.can_flip;
      sequence = sequence;
      target = u32 (sequence + flip_frames c.can_flip + delta);
    }
