-- ===== src/Tests/Timings.antt =====
-- A CRTC that was switched off, and requests of a client, for src/amdgpu_dri2.c.
use xf86_video_amdgpu.Prelude.{
  ℕ, ◌+◌, ◌%◌, ◌≡◌, ◌<◌, refl, true, false, none, some, if◌then◌else◌, ◌==◌, arith,
}
use xf86_video_amdgpu.Msc.{Timing, Reading, ok, UstMsc, u32, WindowPriv, drawable_crtc, get_msc}
use xf86_video_amdgpu.Msc.Continuity.{msc_of, drawable_crtc-continuous}
use xf86_video_amdgpu.Schedule.{Calls, swap_request, wait_request}
use xf86_video_amdgpu.Schedule.Swap.{SwapCalls, Queued, queued, schedule_swap}
use xf86_video_amdgpu.Schedule.Outcome.{schedule_swap-queued}
use xf86_video_amdgpu.Schedule.Late.{swap_request-late}

-- Off since time 1000000 and frame 100, at 60 frames a second.
abbrev off : Timing
off = record {
  dpms_on = false;
  dpms_last_ust = 1000000;
  dpms_last_seq = 100;
  dpms_last_fps = 60;
  interpolated_vblanks = 0;
}

abbrev reading : ℕ → Reading UstMsc
reading c = ok (record { ust = 5; msc = if c == 0 then 100 else 4000000000 })

abbrev window : WindowPriv
window = record { crtc = some 0; vblank_delta = 3 }

drawable_crtc-continuous_example :
    (priv : WindowPriv) × (drawable_crtc (some 1) reading window ≡ ok (priv, some 1))
    × (priv.crtc ≡ some 1)
    × (msc_of (get_msc (some (reading 1)) (some priv.vblank_delta))
        ≡ msc_of (get_msc (some (reading 0)) (some 3)))
drawable_crtc-continuous_example =
    drawable_crtc-continuous reading window 0 1 (record { ust = 5; msc = 100 })
      (record { ust = 5; msc = 4000000000 }) refl refl refl (omega arith) (omega arith)
      (omega arith)

abbrev calls : Calls
calls = record {
  memory = true;
  enabled = true;
  clock = none;
  counter = some 200;
  queue_entry = true;
  accepts = λ n. true;
}

swap_request-late_example :
    (207 % 7 ≡ 4)
    × (205 < 207)
    × (207 < 205 + 7)
    × (u32 (wait_request 50 205 100 7 4 + 50) ≡ 207)
    × (u32 (swap_request false 50 205 100 7 4 + 50) ≡ 207 + 7)
swap_request-late_example =
    swap_request-late 50 205 100 7 4 (omega arith) (omega arith) (omega arith) (omega arith)
      (omega arith) (omega arith)

abbrev swap_calls : SwapCalls
swap_calls = record {
  memory = true;
  queue_entry = true;
  enabled = true;
  clock = none;
  counter = some 200;
  can_flip = true;
  allow_page_flip = true;
  accepts = λ b n. some n;
}

schedule_swap-queued_example :
    (q : Queued) × (schedule_swap swap_calls (some (off, 5)) 207 0 0 ≡ queued q)
    × (q.is_flip ≡ true)
    × (q.next_on_miss ≡ false)
    × (u32 (q.sequence + 5) + 1 ≡ 207)
    × (q.target ≡ 207)
schedule_swap-queued_example =
    schedule_swap-queued swap_calls off 5 200 207 0 0 refl refl refl refl (λ b n. refl)
      (omega arith) (omega arith) (omega arith) (omega arith)
