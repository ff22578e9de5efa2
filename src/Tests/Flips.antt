-- ===== src/Tests/Flips.antt =====
-- Two framebuffers and a flip over two CRTCs, for src/drmmode_display.h and src/drmmode_display.c.
use xf86_video_amdgpu.Prelude.{
  ℕ, ◌≡◌, refl, Option, none, some, List, [], ◌∷◌, if◌then◌else◌, ◌==◌, arith,
}
use xf86_video_amdgpu.Framebuffer.{
  Slot, pixmap_fb, crtc_fb, flip_pending, flipdata_fb, Fbs, ok, fb_reference, set_slot,
}
use xf86_video_amdgpu.Framebuffer.Counting.{IsCounted, fb_reference-IsCounted}
use xf86_video_amdgpu.Pageflip.{FlipData, Flips}
use xf86_video_amdgpu.Pageflip.Completion.{completed, aborted, complete_all, HasSlots}
use xf86_video_amdgpu.Pageflip.Delivery.{delivered, complete_all-delivers}

abbrev slots : List Slot
slots =
    pixmap_fb 0
    ∷ crtc_fb 0
    ∷ crtc_fb 1
    ∷ flip_pending 0
    ∷ flip_pending 1
    ∷ flipdata_fb 0 0
    ∷ flipdata_fb 0 1
    ∷ []

-- CRTC 0 and 1 show framebuffer 1, and a flip of both to framebuffer 2 is pending.
abbrev held : Slot → Option ℕ
held (pixmap_fb i) = if i == 0 then some 2 else none
held (crtc_fb i) = if i == 0 then some 1 else if i == 1 then some 1 else none
held (flip_pending i) = if i == 0 then some 2 else if i == 1 then some 2 else none
held (flipdata_fb f i) =
    if f == 0 then (if i == 0 then some 2 else if i == 1 then some 2 else none) else none

abbrev flipping : Fbs
flipping = record {
  fb = λ p.
      if p == 1
      then some (record { refcnt = 2; handle = 11 })
      else if p == 2
      then some (record { refcnt = 5; handle = 12 })
      else none;
  held = held;
  removed = [];
}

flipping-IsCounted : IsCounted slots flipping
flipping-IsCounted p = ground arith

abbrev flip : FlipData
flip = record {
  event_data = 5;
  flip_count = 2;
  fe_frame = 0;
  fe_usec = 0;
  fe_crtc = some 1;
  handler = 3;
  abort = 4;
}

abbrev flips : Flips
flips = record { fbs = flipping; flipdata = λ f. if f == 0 then some flip else none }

slots_0 : HasSlots slots 0 0
slots_0 = record { has_pending = refl; has_fb = refl; has_flip = refl }

slots_1 : HasSlots slots 0 1
slots_1 = record { has_pending = refl; has_fb = refl; has_flip = refl }

fb_reference-IsCounted_example :
    (t : Fbs) × (fb_reference (crtc_fb 0) (some 2) flipping ≡ ok t)
    × IsCounted slots t
    × (t.held ≡ (set_slot (crtc_fb 0) (some 2) flipping).held)
fb_reference-IsCounted_example =
    fb_reference-IsCounted slots (crtc_fb 0) (some 2) flipping flipping-IsCounted refl (λ e. cc)

complete_all-delivers_example :
    (t : Flips) × (complete_all 0 ((1, completed 60 1000) ∷ (0, aborted) ∷ []) flips
      ≡ ok (t, delivered flip (1, completed 60 1000) ((0, aborted) ∷ []) ∷ []))
    × IsCounted slots t.fbs
    × (t.flipdata 0 ≡ none)
complete_all-delivers_example =
    complete_all-delivers slots 0 (1, completed 60 1000) ((0, aborted) ∷ []) flips flip
      (slots_1, (slots_0, tt)) flipping-IsCounted refl refl (omega arith)
