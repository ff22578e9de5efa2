-- ===== src/Tests/Modesets.antt =====
-- Modes, outputs and scanout pixmaps, for src/drmmode_display.c.
use xf86_video_amdgpu.Prelude.{
  ℕ, ◌+◌, ◌≡◌, ◌⊎◌, ◌↔◌, refl, true, false, Option, none, some, List, [], ◌∷◌, if◌then◌else◌, ◌==◌,
  arith,
}
use xf86_video_amdgpu.Framebuffer.{Fb, Slot, Fbs, ok, pixmap_fb, crtc_fb}
use xf86_video_amdgpu.Framebuffer.Counting.{IsCounted, points}
use xf86_video_amdgpu.Pixmap.{has_bit}
use xf86_video_amdgpu.Modes.{
  Timings, KMode, Mode, Masks, convert_from_kmode, convert_to_kmode, find_clones,
}
use xf86_video_amdgpu.Modes.Convert.{FitsKernel, convert_to_kmode-convert_from_kmode}
use xf86_video_amdgpu.Modes.Clones.{is_clone, find_clones-has_bit}
use xf86_video_amdgpu.Modes.Set.{Output, SetCrtc, Kernel, ScanoutPixmap, set_mode, scanout_create}
use xf86_video_amdgpu.Modes.Major.{Crtc, ModeAnswers, set_mode_major}
use xf86_video_amdgpu.Modes.Settled.{IsSettled, set_mode_major-IsSettled}
use xf86_video_amdgpu.Modes.Counted.{set_mode-IsCounted}
use xf86_video_amdgpu.Modes.Outputs.{
  connectors, created, destroyed, kept, scanout_create-IsBalanced,
}

abbrev full_hd : Timings
full_hd = record {
  clock = 148500;
  hdisplay = 1920;
  hsync_start = 2008;
  hsync_end = 2052;
  htotal = 2200;
  hskew = 0;
  vdisplay = 1080;
  vsync_start = 1084;
  vsync_end = 1089;
  vtotal = 1125;
  vscan = 0;
  flags = 5;
}

abbrev kernel_mode : KMode
kernel_mode = record {
  timings = full_hd;
  vrefresh = 60;
  is_driver = true;
  is_preferred = true;
  name = 49 ∷ 57 ∷ 50 ∷ 48 ∷ [];
}

full_hd-FitsKernel : FitsKernel full_hd
full_hd-FitsKernel = record {
  clock = omega arith;
  hdisplay = omega arith;
  hsync_start = omega arith;
  hsync_end = omega arith;
  htotal = omega arith;
  hskew = omega arith;
  vdisplay = omega arith;
  vsync_start = omega arith;
  vsync_end = omega arith;
  vtotal = omega arith;
  vscan = omega arith;
  flags = omega arith;
}

convert_to_kmode-convert_from_kmode_example :
    convert_to_kmode (convert_from_kmode true kernel_mode)
    ≡ record kernel_mode { vrefresh = 0; is_driver = false; is_preferred = false }
convert_to_kmode-convert_from_kmode_example =
    convert_to_kmode-convert_from_kmode kernel_mode full_hd-FitsKernel (omega arith)

-- The first two outputs can be cloned with each other.
abbrev masks : List Masks
masks =
    record { enc_mask = 3; enc_clone_mask = 3 }
    ∷ record { enc_mask = 3; enc_clone_mask = 3 }
    ∷ record { enc_mask = 4; enc_clone_mask = 4 }
    ∷ []

abbrev own_masks : Masks
own_masks = record { enc_mask = 3; enc_clone_mask = 3 }

find_clones-has_bit_example :
    has_bit 1 (find_clones 0 own_masks masks) ≡ is_clone 0 own_masks 1 (some own_masks)
find_clones-has_bit_example = find_clones-has_bit 0 own_masks masks 1 own_masks refl

abbrev outputs : List Output
outputs =
    record { crtc = some 0; connector = some 71; tear_free = 0 }
    ∷ record { crtc = some 1; connector = some 72; tear_free = 0 }
    ∷ record { crtc = some 0; connector = some 73; tear_free = 2 }
    ∷ []

abbrev kernel : Kernel
kernel = record { callocs = true; sets_crtc = λ r. true }

abbrev fb_3 : Fb
fb_3 = record { refcnt = 1; handle = 33 }

abbrev one_fb : Fbs
one_fb = record { fb = λ p. if p == 3 then some fb_3 else none; held = held_0; removed = [] }
  where
    held_0 : Slot → Option ℕ
    held_0 (pixmap_fb i) = if i == 1 then some 3 else none
    held_0 _ = none

abbrev slots : List Slot
slots = pixmap_fb 1 ∷ crtc_fb 0 ∷ []

one_fb-IsCounted : IsCounted slots one_fb
one_fb-IsCounted p = ground arith

abbrev mode : Mode
mode = convert_from_kmode true kernel_mode

set_mode-IsCounted_example :
    let asked : List ℕ → SetCrtc = λ ids. record {
      crtc = 0;
      fb_handle = 33;
      x = 5;
      y = 6;
      outputs = ids;
      mode = convert_to_kmode mode;
    } in
    ((t : Fbs) × (ids : List ℕ) × (set_mode kernel 0 3 5 6 mode outputs one_fb ≡ ok (true, t))
      × (connectors 0 outputs ≡ some ids)
      × (kernel.sets_crtc (asked ids) ≡ true)
      × IsCounted slots t
      × (t.held (crtc_fb 0) ≡ some 3))
    ⊎ ((set_mode kernel 0 3 5 6 mode outputs one_fb ≡ ok (false, one_fb))
        × ((kernel.callocs ≡ false)
            ⊎ ((connectors 0 outputs ≡ none)
                ⊎ ((ids : List ℕ) × (connectors 0 outputs ≡ some ids)
                    × (kernel.sets_crtc (asked ids) ≡ false)))))
set_mode-IsCounted_example =
    set_mode-IsCounted slots kernel 0 3 5 6 mode outputs one_fb fb_3 one_fb-IsCounted refl refl

-- A scanout pixmap of another size makes way.
abbrev small : ScanoutPixmap
small = record { pixmap = 11; width = 800; height = 600 }

scanout_create-IsBalanced_example :
    let (r, held', steps) = scanout_create (some 12) true (some small) 1920 1080 in
    (created 12 steps + points (kept (some small)) 12 ≡ destroyed 12 steps + points (kept held') 12)
    × ((r ≡ true) ↔ ((s : ScanoutPixmap) × (held' ≡ some s) × (s.width ≡ 1920) × (s.height ≡ 1080)))
scanout_create-IsBalanced_example =
    scanout_create-IsBalanced (some 12) true (some small) 1920 1080 12

-- The mode is set on the screen's framebuffer.
abbrev crtc : Crtc
crtc = record {
  mode = convert_from_kmode true (record kernel_mode { name = [] });
  x = 0;
  y = 0;
  rotation = 1;
  active = false;
  tear_free = false;
  scanout_id = 1;
  need_modeset = true;
  hwcursor_disabled = λ i. false;
}

abbrev answers : ModeAnswers
answers = record {
  is_exposed = true;
  transforms = true;
  automatic = λ r. record {
    is_gpu = false;
    shadow_primary = false;
    vrr_support = false;
    transform_present = false;
    is_rotated = false;
  };
  is_prime = false;
  prime_fb = none;
  rotate_fb = none;
  performs_transform = false;
  update_fb = none;
  root_fb = some 3;
  created_fb = none;
  mode_set = λ fb x y. true;
  scanout_fb = λ id. none;
  index = some 0;
  is_enabled = true;
  can_use_hw_cursor = true;
}

set_mode_major-IsSettled_example :
    IsSettled crtc (some mode) 1 100 0 (set_mode_major answers 0 outputs (some mode) 1 100 0 crtc)
set_mode_major-IsSettled_example =
    set_mode_major-IsSettled answers 0 outputs (some mode) 1 100 0 crtc
