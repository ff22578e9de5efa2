-- ===== src/Tests/Swaps.antt =====
-- Swaps of DRI2 buffers, for src/amdgpu_dri2.c.
use xf86_video_amdgpu.Prelude.{
  ℕ, ◌+◌, ◌-◌, ◌≡◌, refl, ◌⊎◌, inl, Bool, true, false, Option, none, some, [], ◌∷◌, if◌then◌else◌,
  ◌==◌, arith,
}
use xf86_video_amdgpu.Framebuffer.{ok, fb_reference, retain, release}
use xf86_video_amdgpu.Framebuffer.Counting.{points}
use xf86_video_amdgpu.DrmQueue.{
  State, queue_alloc, next_seq, abort_entry, abort_in_signalled, abort_in_deferred, abort_in_queue,
  take_first, abort_one,
}
use xf86_video_amdgpu.Msc.{Timing, get_msc_delta}
use xf86_video_amdgpu.Pageflip.{flip_abort, clear_pending, count_down}
use xf86_video_amdgpu.Pageflip.Submit.{
  Screen, World, do_pageflip, flip_crtcs, flip_crtc, allocate, count_up, flip_allocated,
  flip_tear_free, drop_update, request_flip, set_reference, switch_scanout, flip_request, finish,
  release_deferred, undo, abort_in, flip_driver,
}
use xf86_video_amdgpu.Present.{setting_of, crtc_can_flip}
use xf86_video_amdgpu.Dri2.{
  Drawable, FrameEvent, dri2_flip, dri2_swap, Dri2, exchange_buffers, may_flip,
}
use xf86_video_amdgpu.Dri2.Handlers.{Grant, frame_event_handler, schedule_flip, swap_submission}
use xf86_video_amdgpu.Dri2.Exchange.{storage, IsShown, exchange_buffers-storage}
use xf86_video_amdgpu.Dri2.Steps.{completions}
use xf86_video_amdgpu.Dri2.References.{frame_event_handler-IsAnswered}
use xf86_video_amdgpu.Dri2.Leak.{schedule_flip-leaks}
use xf86_video_amdgpu.Tests.Submits.{
  slots, screen, idle, other, setting, shown-IsCounted, slots_0, slots_1,
}
use xf86_video_amdgpu.Tests.Presents.{lit, server}

abbrev window : Drawable
window = record {
  is_window = true;
  pixmap = 10;
  width = 640;
  height = 480;
  vblank_delta = 0;
  last_flip_ust = 0;
  flip_count = 0;
  dri2_can_flip = true;
  dri2_can_exchange = true;
}

abbrev timing : Timing
timing = record {
  dpms_on = true;
  dpms_last_ust = 0;
  dpms_last_seq = 0;
  dpms_last_fps = 0;
  interpolated_vblanks = 0;
}

-- Buffer 0 is that of the screen's pixmap 10, and buffer 1 has the pixmap 11.
abbrev dri2 : Dri2
dri2 = record {
  server = server;
  buffers = λ b. record { name = 50 + b; pitch = 2560; cpp = 4; pixmap = 10 + b; refcnt = 2 };
  pixmaps = λ p. record {
    width = 640;
    height = 480;
    bits_per_pixel = 32;
    pitch = 2560;
    private = 10 + p;
  };
  bo_of = λ v. 10 + v;
  bo_refs = λ b. 2;
  front_buffer = 30;
  screen_pixmap = 10;
  drawables = λ w. if w == 9 then some window else none;
  timing = λ c. timing;
  flips = λ v. none;
  flink = λ p. some (60 + p);
  effects = [];
}

exchange_buffers-storage_example :
    ((exchange_buffers 0 1 dri2).buffers 0).name ≡ 51
    × ((exchange_buffers 0 1 dri2).buffers 1).name ≡ 50
    × (storage 0 (exchange_buffers 0 1 dri2) ≡ 31)
    × (storage 1 (exchange_buffers 0 1 dri2) ≡ 30)
    × IsShown (exchange_buffers 0 1 dri2)
exchange_buffers-storage_example =
    exchange_buffers-storage 0 1 dri2 (λ e. ground arith) (λ e. ground arith) (λ e. ground arith)
      (λ e. ground arith) (inl refl) refl

abbrev event : FrameEvent
event = record {
  drawable_id = 9;
  client = 7;
  kind = dri2_flip;
  frame = 100;
  event_complete = 3;
  event_data = 4;
  front = some 0;
  back = some 1;
}

abbrev grant : Grant
grant = record {
  memory = true;
  event = 5;
  fb = some 2;
  id = 1;
  async_secondaries = false;
  has_page_flip_target = true;
  setting = setting;
}

abbrev submitted : Option (Bool × State World)
submitted =
    do_pageflip other (swap_submission grant 7 0 100) (setting_of server setting) (0 ∷ 1 ∷ []) idle

abbrev after : State World
after = elim submitted [ some (b, t) ↦ t | none ↦ idle ]

frame_event_handler-IsAnswered_example :
    (d' : Dri2) × (t' : State World) × (frame_event_handler other grant 0 100 5000 event dri2 idle
      ≡ some (d', t'))
    × ((x : ℕ) → (d'.buffers x).refcnt ≡ 2 - (points (some 0) x + points (some 1) x))
    × ((completions d'.effects ≡ 0 + 1)
        ⊎ ((completions d'.effects ≡ 0)
            × (d'.server.dri2_flipping ≡ true)
            × (false ≡ true)
            × (t' ≡ after)))
unfolding get_msc_delta crtc_can_flip do_pageflip flip_crtcs flip_crtc allocate queue_alloc next_seq
    count_up flip_allocated flip_tear_free drop_update request_flip set_reference fb_reference
    retain release switch_scanout flip_request finish release_deferred undo abort_entry
    abort_in_signalled abort_in_deferred abort_in_queue take_first abort_one abort_in flip_abort
    clear_pending count_down flip_driver
frame_event_handler-IsAnswered_example =
    frame_event_handler-IsAnswered other grant 0 100 5000 event dri2 idle after window false refl
      refl

-- CRTC 0 is off, and CRTC 1 uses TearFree.
abbrev half_dark : Dri2
half_dark = record dri2 {
  server = record server { crtc = λ c. record lit { tear_free = c == 1; dpms_on = c == 1 } };
}

schedule_flip-leaks_example :
    (d' : Dri2) × (t' : State World) × (u : Screen) × (schedule_flip other grant 0 window event
        half_dark idle
      ≡ some (false, d', record t' { world = ok u }))
    × (u.calls ≡ [])
    × (d'.flips 5 ≡ some (record event { kind = dri2_swap; front = none; back = none }))
unfolding crtc_can_flip may_flip
schedule_flip-leaks_example =
    schedule_flip-leaks other grant slots screen 0 2 0 (1 ∷ []) window event half_dark idle refl
      refl ((λ h. absurd cc), ((λ h. (refl, refl)), tt)) refl refl refl shown-IsCounted
      (slots_0, (slots_1, tt))
