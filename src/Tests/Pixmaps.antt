-- ===== src/Tests/Pixmaps.antt =====
-- Pixmaps and their buffers, for src/amdgpu_bo_helper.c, src/amdgpu_pixmap.h and src/amdgpu_pixmap.c.
use xf86_video_amdgpu.Prelude.{
  ℕ, ◌+◌, ◌^◌, ◌≡◌, ◌≢◌, ◌<◌, ◌⊎◌, refl, Bool, true, false, Option, none, some, List, [], ◌∷◌,
  if◌then◌else◌, ◌==◌, arith,
}
use xf86_video_amdgpu.Framebuffer.{Slot, pixmap_fb, ok, slot_eq}
use xf86_video_amdgpu.Framebuffer.Counting.{IsCounted}
use xf86_video_amdgpu.Pixmap.{
  Settings, Buffer, Grant, Request, map_failed, xrgb8888, get_gbm_format,
}
use xf86_video_amdgpu.Pixmap.Private.{Private, Screen, new_private, set_pixmap_bo, get_pixmap_bo}
use xf86_video_amdgpu.Pixmap.Exports.{Answers, get_fb}
use xf86_video_amdgpu.Pixmap.Create.{
  Offer, FbCall, fb_create_pixmap, modify_pixmap_header, pixmap_create,
}
use xf86_video_amdgpu.Pixmap.Counting.{IsHeldBy, holders, times, set_pixmap_bo-IsHeldBy}
use xf86_video_amdgpu.Pixmap.Backing.{get_fb-IsCounted}
use xf86_video_amdgpu.Pixmap.Unmapped.{pixmap_create-map_failed}
use xf86_video_amdgpu.Pixmap.Fallback.{pixmap_create-IsHeldBy}

abbrev settings : (gbm use_glamor : Bool) → Settings
settings gbm use_glamor = record {
  gbm = gbm;
  have_tiling_info = true;
  group_bytes = 256;
  usage_shared = 3;
  use_glamor = use_glamor;
  shadow_fb = false;
}

-- A screen-sized pixmap for DRI2.
abbrev large : Request
large = record {
  width = 32767;
  height = 32767;
  depth = 24;
  usage_hint = 2 ^ 27;
  bits_per_pixel = 32;
}

abbrev grant : Grant
grant = record { address = some 6; creates = true; stride = 256 }

abbrev buffer_5 : Buffer
buffer_5 = record { gbm = true; cpu_ptr = 4096; ref_count = 2 }

abbrev private_1 : Private
private_1 = record new_private { bo = some 5 }

-- Buffer 5 is kept by pixmap 1 and by the driver, which also has buffer 4. Pixmap 1 has a framebuffer.
abbrev screen : Screen
screen = record {
  memory = record {
    buffer = λ b.
        if b == 5
        then some buffer_5
        else if b == 4
        then some (record buffer_5 { ref_count = 1 })
        else none;
    calls = [];
  };
  fbs = record {
    fb = λ p. if p == 3 then some (record { refcnt = 1; handle = 33 }) else none;
    held = held_0;
    removed = [];
  };
  private = λ x. if x == 1 then some private_1 else none;
}
  where
    held_0 : Slot → Option ℕ
    held_0 (pixmap_fb i) = if i == 1 then some 3 else none
    held_0 _ = none

abbrev owned : ℕ → ℕ
owned b = if b == 5 then 1 else if b == 4 then 1 else 0

abbrev slots : List Slot
slots = pixmap_fb 1 ∷ pixmap_fb 2 ∷ []

screen-IsCounted : IsCounted slots screen.fbs
screen-IsCounted p = ground arith

screen-IsHeldBy : IsHeldBy (holders (1 ∷ 2 ∷ []) owned screen) screen.memory
unfolding get_pixmap_bo
screen-IsHeldBy b = ground arith

four_used :
    (b : ℕ)
    → some 4 ≡ some b
    → (0 < holders (1 ∷ 2 ∷ []) owned screen b) × (holders (1 ∷ 2 ∷ []) owned screen b + 1 < 2 ^ 32)
unfolding get_pixmap_bo
four_used b e = ground arith

first_fits : (x : ℕ) → some 2 ≡ some x → (times x (1 ∷ 2 ∷ []) ≡ 1) × (screen.private x ≡ none)
first_fits x e = ground arith

set_pixmap_bo-IsHeldBy_example :
    (t : Screen) × (set_pixmap_bo true 1 (some 4) screen ≡ ok (true, t))
    × IsCounted slots t.fbs
    × IsHeldBy (holders (1 ∷ 2 ∷ []) owned t) t.memory
    × (get_pixmap_bo t.private 1 ≡ some 4)
    × (((b : ℕ) × (some 4 ≡ some b) × (get_pixmap_bo screen.private 1 ≡ some b) × (t ≡ screen))
        ⊎ ((σ : Slot)
            → t.fbs.held σ ≡ (if slot_eq σ (pixmap_fb 1) then none else screen.fbs.held σ)))
set_pixmap_bo-IsHeldBy_example =
    set_pixmap_bo-IsHeldBy slots (1 ∷ 2 ∷ []) owned 1 (some 4) screen screen-IsCounted
      screen-IsHeldBy refl refl four_used (λ e. cc)

abbrev answers : Answers
answers = record {
  callocs = true;
  glamor_fd = true;
  prime_handle = some 44;
  gbm_bo_get_handle = λ b. b;
  amdgpu_bo_export = λ b. none;
  get_metadata = λ h. none;
  address = some 8;
  add_fb = λ h. some 55;
}

get_fb-IsCounted_example :
    (r : Option ℕ) × (t : Screen) × (get_fb answers (settings true true) 2 screen ≡ ok (r, t))
    × IsCounted slots t.fbs
    × (t.fbs.held (pixmap_fb 2) ≡ r)
    × (screen.fbs.held (pixmap_fb 2) ≢ none → (r ≡ screen.fbs.held (pixmap_fb 2)) × (t ≡ screen))
    × ((b : Answers) (q : ℕ) → r ≡ some q → get_fb b (settings true true) 2 t ≡ ok (some q, t))
get_fb-IsCounted_example =
    get_fb-IsCounted slots answers (settings true true) 2 screen refl refl refl screen-IsCounted
      refl (λ _. refl) (λ q e. ground arith)

-- The kernel gives no offset for the buffer of the new pixmap.
abbrev offer : Offer
offer = record {
  first = some 2;
  second = some 7;
  bits_per_pixel = 32;
  callocs = true;
  grant = grant;
  mapping = record { gem_mmap = false; mmap = 0; cpu_map = none };
}

pixmap_create-IsHeldBy_example :
    (y : Option ℕ) × (calls : List FbCall) × (t : Screen) × (pixmap_create offer
        (settings true false)
        large
        screen
      ≡ ok (y, calls, t))
    × IsHeldBy (holders (1 ∷ 2 ∷ []) owned t) t.memory
pixmap_create-IsHeldBy_example =
    pixmap_create-IsHeldBy (1 ∷ 2 ∷ []) owned offer (settings true false) large screen
      screen-IsHeldBy (λ x e. first_fits x e) (λ b e. ground arith)

-- It gives one, and mmap fails.
abbrev unmapped : Offer
unmapped = record offer { mapping = record { gem_mmap = true; mmap = map_failed; cpu_map = none } }

pixmap_create-map_failed_example :
    (t : Screen) × (pixmap_create unmapped (settings true false) large screen
      ≡ ok (
        some 2,
        fb_create_pixmap 0 0 24 (2 ^ 27) ∷ modify_pixmap_header 2 32767 32767 256 map_failed ∷ [],
        t,
      ))
    × (get_pixmap_bo t.private 2 ≡ some 6)
unfolding get_gbm_format
pixmap_create-map_failed_example =
    pixmap_create-map_failed unmapped (settings true false) large screen 2 6 xrgb8888 refl
      (omega arith) (omega arith) (omega arith) (omega arith) refl refl refl refl refl refl refl
      refl refl refl
