-- ===== src/Tests/Submits.antt =====
-- Submissions of a page flip on two CRTCs, for amdgpu_do_pageflip of src/drmmode_display.c.
use xf86_video_amdgpu.Prelude.{
  ℕ, ◌^◌, ◌-◌, ◌≡◌, refl, Bool, true, false, Option, none, some, List, [], ◌∷◌, ◌++◌, if◌then◌else◌,
  ◌==◌, arith,
}
use xf86_video_amdgpu.Framebuffer.{
  Slot, pixmap_fb, crtc_fb, flip_pending, flipdata_fb, Fbs, ok, fb_reference, retain, release,
}
use xf86_video_amdgpu.Framebuffer.Counting.{IsCounted}
use xf86_video_amdgpu.DrmQueue.{
  Driver, State, queue_alloc, next_seq, abort_entry, abort_in_signalled, abort_in_deferred,
  abort_in_queue, take_first, abort_one,
}
use xf86_video_amdgpu.DrmQueue.Invariant.{IsValid}
use xf86_video_amdgpu.Pageflip.{Flips, Call, flip_abort, clear_pending, count_down}
use xf86_video_amdgpu.Pageflip.Completion.{completed, complete_all, HasSlots}
use xf86_video_amdgpu.Pageflip.Submit.{
  Screen, World, Submission, Setting, do_pageflip, new_flipdata, flip_crtcs, flip_crtc, allocate,
  count_up, flip_allocated, flip_tear_free, drop_update, request_flip, set_reference,
  switch_scanout, flip_request, finish, release_deferred, undo, abort_in, flip_driver,
}
use xf86_video_amdgpu.Pageflip.Submit.Account.{IsPixmap}
use xf86_video_amdgpu.Pageflip.Submit.Loop.{IsReady}
use xf86_video_amdgpu.Pageflip.Submit.Outcome.{IsDone, do_pageflip-IsDone}
use xf86_video_amdgpu.Pageflip.Submit.Deliveries.{do_pageflip-delivers}
use xf86_video_amdgpu.Pageflip.Submit.Uncounted.{do_pageflip-none_flipped}

abbrev pub slots : List Slot
slots =
    pixmap_fb 0
    ∷ pixmap_fb 1
    ∷ crtc_fb 0
    ∷ crtc_fb 1
    ∷ flip_pending 0
    ∷ flip_pending 1
    ∷ flipdata_fb 0 0
    ∷ flipdata_fb 0 1
    ∷ []

-- Both CRTCs show framebuffer 1. The pixmap to flip to has framebuffer 2, and a scanout pixmap of
-- CRTC 0 has framebuffer 3.
abbrev held : Slot → Option ℕ
held (pixmap_fb i) = if i == 0 then some 2 else if i == 1 then some 3 else none
held (crtc_fb i) = if i == 0 then some 1 else if i == 1 then some 1 else none
held (flip_pending i) = none
held (flipdata_fb f i) = none

abbrev pub shown : Fbs
shown = record {
  fb = λ p.
      if p == 1
      then some (record { refcnt = 2; handle = 11 })
      else if p == 2
      then some (record { refcnt = 1; handle = 12 })
      else if p == 3
      then some (record { refcnt = 1; handle = 13 })
      else none;
  held = held;
  removed = [];
}

pub shown-IsCounted : IsCounted slots shown
shown-IsCounted p = ground arith

abbrev pub screen : Screen
screen = record {
  flips = record { fbs = shown; flipdata = λ f. none };
  scanout_id = λ c. 0;
  ignore_damage = λ c. false;
  update_pending = λ c. 0;
  calls = [];
}

abbrev pub idle : State World
idle = record {
  refcnt = 1;
  queue = [];
  flip_signalled = [];
  vblank_signalled = [];
  vblank_deferred = [];
  queue_seq = 1;
  nesting = λ c. 0;
  world = ok screen;
}

pub idle-IsValid : IsValid idle
idle-IsValid = record {
  distinct = λ n. omega arith;
  nonzero = refl;
  fresh = λ n h. refl;
  flips = tt;
  vblanks = tt;
  deferreds = tt;
}

abbrev pub other : Driver World
other = record {
  run_handler = λ h crtc frame usec event_data s. s;
  run_abort = λ a crtc event_data w. w;
  flip_pending = λ w crtc. false;
  scrn = λ crtc. 0;
}

abbrev submission : Submission
submission = record {
  client = 7;
  id = 1;
  event_data = 5;
  ref_crtc = some 0;
  handler = 3;
  abort = 4;
  async = false;
  target_msc = 100;
  front_fb = some 2;
  async_secondaries = true;
  has_page_flip_target = true;
}

-- CRTC 0 uses TearFree. The kernel refuses the flip of CRTC 1.
abbrev pub setting : Setting
setting = record {
  can_flip = λ c. true;
  tear_free = λ c. c == 0;
  scanout_fb = λ c i. if c == 0 then (if i == 1 then some 3 else none) else none;
  flipdata_memory = true;
  entry_memory = λ c. true;
  accepts_vblank = λ c n. true;
  accepts_flip = λ r. r.crtc == 0;
  reads = λ c. [];
  fuel = 0;
  address = 0;
}

pub slots_0 : HasSlots slots 0 0
slots_0 = record { has_pending = refl; has_fb = refl; has_flip = refl }

pub slots_1 : HasSlots slots 0 1
slots_1 = record { has_pending = refl; has_fb = refl; has_flip = refl }

pub front : (fb : ℕ) → some 2 ≡ some fb → IsPixmap slots shown fb
front fb h = (0, refl, ground arith)

pub crtc_0-IsReady : IsReady other submission setting slots screen 0
crtc_0-IsReady = (slots_0, (refl, λ i q h. (1, refl, ground arith)))

pub crtc_1-IsReady : IsReady other submission setting slots screen 1
crtc_1-IsReady = (slots_1, (refl, λ i q h. absurd cc))

do_pageflip-IsDone_example :
    IsDone other submission setting slots screen
      (0 ∷ 1 ∷ [])
      (do_pageflip other submission setting (0 ∷ 1 ∷ []) idle)
do_pageflip-IsDone_example =
    do_pageflip-IsDone other submission setting slots screen (0 ∷ 1 ∷ []) idle shown-IsCounted refl
      refl idle-IsValid (crtc_0-IsReady, (crtc_1-IsReady, tt)) front (omega arith) (omega arith)
      (omega arith)

-- No CRTC can flip.
abbrev disabled : Setting
disabled = record setting { can_flip = λ c. false }

do_pageflip-none_flipped_example :
    (t : State World) × (u : Screen) × (do_pageflip other submission disabled (0 ∷ 1 ∷ []) idle
      ≡ some (false, record t { world = ok u }))
    × (u.calls ≡ [])
    × (u.flips.flipdata 0
        ≡ some (record (new_flipdata other submission disabled) { flip_count = 2 ^ 32 - 1 }))
do_pageflip-none_flipped_example =
    do_pageflip-none_flipped other submission disabled slots screen 2 0 (1 ∷ []) idle
      shown-IsCounted refl refl (slots_0, (slots_1, tt)) refl

-- The outcome of the submission: CRTC 0 flips, and CRTC 1 is taken back.
abbrev outcome : Option (Bool × State World)
outcome = do_pageflip other submission setting (0 ∷ 1 ∷ []) idle

abbrev after : State World
after = elim outcome [ some (b, t) ↦ t | none ↦ idle ]

abbrev after_screen : Screen
after_screen = elim after.world [ ok u ↦ u | _ ↦ screen ]

do_pageflip-delivers_example :
    (r : Flips) × (calls : List Call) × (call : Call) × (complete_all 0
        ((0, completed 60 1000) ∷ [])
        after_screen.flips
      ≡ ok (r, calls))
    × IsCounted slots r.fbs
    × (r.flipdata 0 ≡ none)
    × (after_screen.calls ++ calls ≡ [] ++ call ∷ [])
unfolding do_pageflip flip_crtcs flip_crtc allocate queue_alloc next_seq count_up flip_allocated
    flip_tear_free drop_update request_flip set_reference fb_reference retain release switch_scanout
    flip_request finish release_deferred undo abort_entry abort_in_signalled abort_in_deferred
    abort_in_queue take_first abort_one abort_in flip_abort clear_pending count_down flip_driver
do_pageflip-delivers_example =
    do_pageflip-delivers other submission setting slots screen (0 ∷ 1 ∷ []) idle false after
      after_screen ((0, completed 60 1000) ∷ []) shown-IsCounted refl refl idle-IsValid
      (crtc_0-IsReady, (crtc_1-IsReady, tt)) front (omega arith) (omega arith) (omega arith) refl
      (slots_0, tt) refl
