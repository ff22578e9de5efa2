-- ===== src/Tests/Scanouts.antt =====
-- A CRTC of one pixel with TearFree, for src/amdgpu_kms.c.
use xf86_video_amdgpu.Prelude.{
  ℕ, ◌+◌, ◌≡◌, ◌≢◌, ◌⊎◌, inr, refl, Bool, ◌||◌, true, false, Option, none, some, List, [], ◌∷◌,
  if◌then◌else◌, ◌==◌, arith,
}
use xf86_video_amdgpu.Prelude.Int.{ℤ, pos, ◌+ℤ◌, int_laws}
use xf86_video_amdgpu.Coverage.{Box, empty_box}
use xf86_video_amdgpu.DrmQueue.{Driver, State}
use xf86_video_amdgpu.Framebuffer.{Fb, Slot, Fbs, pixmap_fb, crtc_fb, flip_pending, ok}
use xf86_video_amdgpu.Framebuffer.Counting.{IsCounted}
use xf86_video_amdgpu.Scanout.{Crtc, Scanouts, scanout_do_update}
use xf86_video_amdgpu.Scanout.Regions.{target_box}
use xf86_video_amdgpu.Scanout.Areas.{IsShown}
use xf86_video_amdgpu.Scanout.Shows.{IsSynced, Shows, Draws, scanout_do_update-Shows}
use xf86_video_amdgpu.Scanout.Callbacks.{World, Setting, scanout_flip_handler}
use xf86_video_amdgpu.Scanout.Flip.{scanout_flip}
use xf86_video_amdgpu.Scanout.Invariant.{scanout_flip-IsSynced}
use xf86_video_amdgpu.Scanout.Cycle.{scanout_flip_handler-IsSynced}
use xf86_video_amdgpu.Scanout.Failures.{scanout_flip-forgets}
use xf86_video_amdgpu.Tests.Canvas.{
  Mask, Picture, canvas, canvas_pixels, canvas-IsDrawing, in_mask, in_box, in_box-inside,
}

abbrev one_pixel : Box
one_pixel = record { x1 = pos 0; y1 = pos 0; x2 = pos 1; y2 = pos 1 }

abbrev whole : Mask
whole = record { passes = λ x y. true; box = one_pixel }

abbrev none_of_it : Mask
none_of_it = record { passes = λ x y. false; box = empty_box }

abbrev plain_colour : ℕ → Picture
plain_colour n = record { width = 1; height = 1; colour = λ x y. n }

abbrev crtc_0 : Crtc Mask
crtc_0 = record {
  enabled = true;
  dpms_on = true;
  tear_free = true;
  is_gpu = false;
  transforms = false;
  rotate = false;
  x = pos 0;
  y = pos 0;
  filter_width = 0;
  filter_height = 0;
  h_display = 1;
  v_display = 1;
  scanout = λ i. if i == 0 then some 11 else some 12;
  scanout_id = 0;
  update_pending = 0;
  damage = some whole;
  last_region = none_of_it;
  flip_failed = false;
  vblank_failed = false;
}

-- The framebuffers of the two scanout pixmaps, the first of which is scanned out.
abbrev fb_21 : Fb
fb_21 = record { refcnt = 2; handle = 121 }

abbrev fb_22 : Fb
fb_22 = record { refcnt = 1; handle = 122 }

abbrev scanout_fbs : Fbs
scanout_fbs = record {
  fb = λ p. if p == 21 then some fb_21 else if p == 22 then some fb_22 else none;
  held = held_0;
  removed = [];
}
  where
    held_0 : Slot → Option ℕ
    held_0 (pixmap_fb i) = if i == 11 then some 21 else if i == 12 then some 22 else none
    held_0 (crtc_fb i) = if i == 0 then some 21 else none
    held_0 _ = none

abbrev slots : List Slot
slots = pixmap_fb 11 ∷ pixmap_fb 12 ∷ crtc_fb 0 ∷ flip_pending 0 ∷ []

-- The screen shows 7; the scanout pixmaps still show 5.
abbrev stale : Scanouts Mask Picture
stale = record {
  crtc = λ c. crtc_0;
  picture = λ p. if p == 1 then plain_colour 7 else plain_colour 5;
  root = 1;
  fbs = scanout_fbs;
  effects = [];
}

stale-IsCounted : IsCounted slots scanout_fbs
stale-IsCounted p = ground arith

at_home : (p : ℤ) → p +ℤ pos 0 ≡ p
at_home p = omega int_laws

shown_fits :
    (px py : ℤ)
    → IsShown crtc_0 px py
    → in_box (target_box (pos 1) (pos 1) (pos 0) (pos 0)) px py ≡ true
unfolding ◌+ℤ◌
shown_fits px py shown = in_box-inside one_pixel px py shown

not_false : {b : Bool} → b ≡ true → b ≡ false → ⊥
not_false y n = cc

with_fbs-IsSynced :
    (f : Fbs) → IsSynced canvas canvas_pixels 0 11 12 whole (record stale { fbs = f })
with_fbs-IsSynced f = record {
  tears_not = refl;
  plain = (refl, inr (refl, λ b. refl));
  id_limit = omega arith;
  displayed = refl;
  spare = refl;
  two = λ e. omega arith;
  off_screen = (λ e. omega arith, λ e. omega arith);
  fits = λ px py shown. (
    shown_fits px py shown,
    shown_fits px py shown,
    rw (at_home px, at_home py) (shown_fits px py shown),
  );
  current = λ px py shown clean.
      absurd
        (not_false (in_box-inside one_pixel px py shown) (rw (at_home px, at_home py) at clean));
  agree = λ px py shown out. refl;
}

stale-IsSynced : IsSynced canvas canvas_pixels 0 11 12 whole stale
stale-IsSynced = with_fbs-IsSynced scanout_fbs

-- The kernel takes everything, and memory is not short; or the entry of the flip cannot be allocated.
abbrev setting : (flip_memory : Bool) → Setting
setting flip_memory = record {
  gc = true;
  flip_memory = flip_memory;
  update_memory = true;
  accepts_flip = λ fb seq. true;
  accepts_vblank = λ seq. true;
  fb_of = λ p. some (p + 10);
  client = 1;
  fuel = 9;
}

abbrev silent : Driver (World Mask Picture)
silent = record {
  run_handler = λ h crtc frame usec event_data t. t;
  run_abort = λ a crtc event_data w. w;
  flip_pending = λ w c. false;
  scrn = λ c. 0;
}

abbrev idle : State (World Mask Picture)
idle = record {
  refcnt = 1;
  queue = [];
  flip_signalled = [];
  vblank_signalled = [];
  vblank_deferred = [];
  queue_seq = 1;
  nesting = λ c. 0;
  world = ok stale;
}

scanout_flip-IsSynced_example :
    ((s' : Scanouts Mask Picture) × (t' : State (World Mask Picture)) × (scanout_flip canvas
          (setting true)
          silent
          0
          idle
        ≡ some t')
      × (t'.world ≡ ok s')
      × IsSynced canvas canvas_pixels 0 12 11 canvas.no_region s'
      × ((s'.crtc 0).damage ≡ some canvas.no_region)
      × (s'.fbs.held (flip_pending 0) ≡ some 22)
      × IsCounted slots s'.fbs
      × ((s'.crtc 0).update_pending ≢ 0))
    ⊎ ((scanout_flip canvas (setting true) silent 0 idle ≡ some idle)
        × Shows canvas_pixels 0 11 stale)
scanout_flip-IsSynced_example =
    scanout_flip-IsSynced canvas canvas_pixels canvas-IsDrawing (setting true) silent slots 0 11 12
      22 whole stale idle stale-IsSynced refl refl refl refl refl refl stale-IsCounted refl refl
      (λ e. cc) refl refl (λ seq. refl)

scanout_do_update-Shows_example :
    ((t : Scanouts Mask Picture) × (scanout_do_update canvas true 0 1 1 one_pixel stale
        ≡ ok (true, t))
      × Draws canvas canvas_pixels 0 12 whole stale t)
    ⊎ ((scanout_do_update canvas true 0 1 1 one_pixel stale ≡ ok (false, stale))
        × Shows canvas_pixels 0 11 stale)
scanout_do_update-Shows_example =
    scanout_do_update-Shows canvas canvas_pixels canvas-IsDrawing 0 11 12 whole stale stale-IsSynced
      refl

scanout_flip-forgets_example :
    ((s' : Scanouts Mask Picture) × (t' : State (World Mask Picture)) × (scanout_flip canvas
          (setting false)
          silent
          0
          idle
        ≡ some t')
      × (t'.world ≡ ok s')
      × ((s'.crtc 0).damage ≡ some canvas.no_region)
      × ((s'.crtc 0).scanout_id ≡ 0)
      × (s'.picture 11 ≡ plain_colour 5)
      × (s'.fbs.held (flip_pending 0) ≡ none)
      × ((s'.crtc 0).update_pending ≡ 0))
    ⊎ ((scanout_flip canvas (setting false) silent 0 idle ≡ some idle)
        × Shows canvas_pixels 0 11 stale)
scanout_flip-forgets_example =
    scanout_flip-forgets canvas canvas_pixels canvas-IsDrawing (setting false) silent 0 11 12 22
      whole stale idle stale-IsSynced refl refl refl refl refl refl refl refl refl

-- With a flip to the second framebuffer pending.
abbrev pending : Scanouts Mask Picture
pending = record stale { fbs = pending_fbs }
  where
    held_1 : Slot → Option ℕ
    held_1 (pixmap_fb i) = if i == 11 then some 21 else if i == 12 then some 22 else none
    held_1 (crtc_fb i) = if i == 0 then some 21 else none
    held_1 (flip_pending i) = if i == 0 then some 22 else none
    held_1 _ = none

    pending_fbs : Fbs
    pending_fbs = record {
      fb = λ p.
          if p == 21
          then some fb_21
          else if p == 22
          then some (record fb_22 { refcnt = 2 })
          else none;
      held = held_1;
      removed = [];
    }

pending-IsCounted : IsCounted slots pending.fbs
pending-IsCounted p = ground arith

scanout_flip_handler-IsSynced_example :
    (s' : Scanouts Mask Picture) × (scanout_flip_handler 0 22 pending ≡ ok s')
    × IsSynced canvas canvas_pixels 0 11 12 whole s'
    × IsCounted slots s'.fbs
    × (s'.fbs.held (crtc_fb 0) ≡ some 22)
    × (s'.fbs.held (flip_pending 0) ≡ none)
    × ((s'.crtc 0).update_pending ≡ 0)
scanout_flip_handler-IsSynced_example =
    scanout_flip_handler-IsSynced canvas canvas_pixels slots 0 11 12 22 whole pending
      (with_fbs-IsSynced pending.fbs) pending-IsCounted refl refl refl

-- The screen, drawn to at its pixel.
abbrev touched : Picture
touched = record { width = 1; height = 1; colour = λ x y. if in_mask whole x y then 9 else 7 }

twice : (b : Bool) → b ≡ (b || b)
twice b = ground arith

untouched : (b : Bool) (m n : ℕ) → b ≡ false → (if b then m else n) ≡ n
untouched b m n h = rw h refl
