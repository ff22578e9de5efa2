-- ===== src/Scanout/Areas.antt =====
-- src/amdgpu_kms.c, amdgpu_scanout_extents_intersect: the part of a box that a CRTC shows.
use xf86_video_amdgpu.Prelude.{ℕ, ◌/◌, ◌≡◌, refl, ◌⊎◌, inl, inr, true, false, arith}
use xf86_video_amdgpu.Prelude.Int.{ℤ, pos, ◌≤ℤ◌, ◌-ℤ◌, ◌+ℤ◌, ltb_ℤ, int_laws}
use xf86_video_amdgpu.Coverage.{Box, larger, smaller}
use xf86_video_amdgpu.Coverage.Area.{IsBelow, IsInside, larger_le, smaller_lt}
use xf86_video_amdgpu.Scanout.Regions.{Drawing}
use xf86_video_amdgpu.Scanout.{Crtc, has_area, crtc_box, scanout_extents, extents_intersect}

-- The box in the coordinates of the CRTC.
abbrev pub shifted : ℤ → ℤ → Box → Box
shifted x y b = record { x1 = b.x1 -ℤ x; y1 = b.y1 -ℤ y; x2 = b.x2 -ℤ x; y2 = b.y2 -ℤ y }

-- A CRTC that is not transformed: the matrix that takes the screen to it moves by its place.
abbrev pub IsPlain : {R P : Type 0} → Drawing R P → (c : ℕ) → Crtc R → Type 0
IsPlain x c v =
    (v.transforms ≡ false)
    × ((v.is_gpu ≡ true)
        ⊎ ((v.is_gpu ≡ false) × ((b : Box) → x.transform_bounds c b ≡ shifted v.x v.y b)))

-- The pixel is one of those that the CRTC shows.
abbrev pub IsShown : {R : Type 0} → Crtc R → ℤ → ℤ → Type 0
IsShown v px py =
    IsInside (record { x1 = pos 0; y1 = pos 0; x2 = pos v.h_display; y2 = pos v.v_display }) px py

axis :
    (lo hi c p : ℤ) (f size : ℕ)
    → lo ≤ℤ (p +ℤ c)
    → IsBelow (p +ℤ c) hi
    → pos 0 ≤ℤ p
    → IsBelow p (pos size)
    → (larger (lo -ℤ pos f -ℤ c) (pos 0) ≤ℤ p) × IsBelow p (smaller (hi +ℤ pos f -ℤ c) (pos size))
axis lo hi c p f size above below positive limit = (
  (larger_le (lo -ℤ pos f -ℤ c) (pos 0) p).1 (omega int_laws, positive),
  (smaller_lt (hi +ℤ pos f -ℤ c) (pos size) p).1 (omega int_laws, limit),
)

axis_gpu :
    (lo hi c p : ℤ) (size : ℕ)
    → lo ≤ℤ (p +ℤ c)
    → IsBelow (p +ℤ c) hi
    → pos 0 ≤ℤ p
    → IsBelow p (pos size)
    → (larger (lo -ℤ c) (pos 0) ≤ℤ p) × IsBelow p (smaller (hi -ℤ c) (pos size))
axis_gpu lo hi c p size above below positive limit = (
  (larger_le (lo -ℤ c) (pos 0) p).1 (omega int_laws, positive),
  (smaller_lt (hi -ℤ c) (pos size) p).1 (omega int_laws, limit),
)

ltb-IsBelow : (a b p : ℤ) → a ≤ℤ p → IsBelow p b → ltb_ℤ a b ≡ true
ltb-IsBelow a b p above below = ground arith

pub has_area_lem : (b : Box) (px py : ℤ) → IsInside b px py → has_area b ≡ true
has_area_lem b px py (h, k, l, m) =
    simp (ltb-IsBelow b.x1 b.x2 px h k, ltb-IsBelow b.y1 b.y2 py l m) refl

module _ {R P : Type 0} (x : Drawing R P) (c : ℕ) (v : Crtc R) where
  -- A pixel of the box that the CRTC shows is in what is left of the box.
  pub scanout_extents-IsInside :
      (b : Box) (px py : ℤ)
      → IsPlain x c v
      → IsShown v px py
      → IsInside b (px +ℤ v.x) (py +ℤ v.y)
      → IsInside (scanout_extents x c v b) px py
  unfolding scanout_extents crtc_box
  scanout_extents-IsInside b px py (_, inl gpu) (left, right, top, bottom) (h, k, l, m) =
      let (a, a') = axis_gpu b.x1 b.x2 v.x px v.h_display h k left right in
      let (d, d') = axis_gpu b.y1 b.y2 v.y py v.v_display l m top bottom in rw gpu (a, a', d, d')
  scanout_extents-IsInside b px py (_, inr (main, moves)) (left, right, top, bottom) (h, k, l, m) =
      let (a, a') = axis b.x1 b.x2 v.x px (v.filter_width / 2) v.h_display h k left right in
      let (d, d') = axis b.y1 b.y2 v.y py (v.filter_height / 2) v.v_display l m top bottom in
      rw (main, moves _) (a, a', d, d')

  pub extents_intersect-IsShown :
      (b : Box) (px py : ℤ)
      → IsPlain x c v
      → IsShown v px py
      → IsInside b (px +ℤ v.x) (py +ℤ v.y)
      → extents_intersect x c v b ≡ true
  unfolding extents_intersect
  extents_intersect-IsShown b px py plain shown inside =
      has_area_lem (scanout_extents x c v b) px py
        (scanout_extents-IsInside b px py plain shown inside)
