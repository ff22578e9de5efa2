-- ===== src/Tests/Canvas.antt =====
-- A drawing layer on pictures of numbers, which the tests of scanouts draw with.
use xf86_video_amdgpu.Prelude.{
  ℕ, ◌≡◌, refl, ◌∙◌, ap, sym, Bool, true, false, ◌&&◌, not, Option, none, some, [], if◌then◌else◌,
  arith, Bool-cases, inl, inr,
}
use xf86_video_amdgpu.Prelude.Int.{ℤ, pos, ◌+ℤ◌, ◌-ℤ◌, ltb_ℤ, +ℤ_parts, -ℤ_parts}
use xf86_video_amdgpu.Coverage.{Box, empty_box}
use xf86_video_amdgpu.Coverage.Area.{IsInside}
use xf86_video_amdgpu.Scanout.{has_area}
use xf86_video_amdgpu.Scanout.Regions.{Drawing, Pixels, IsDrawing, drawn, target_box, clipped_in}
use xf86_video_amdgpu.Scanout.Areas.{shifted, has_area_lem}

-- The pixels of a box that pass a test.
pub record Mask : Type 0 where
  pub passes : ℤ → ℤ → Bool
  pub box : Box

pub record Picture : Type 0 where
  pub width : ℕ
  pub height : ℕ
  pub colour : ℤ → ℤ → ℕ

abbrev pub in_box : Box → ℤ → ℤ → Bool
in_box b x y = not (ltb_ℤ x b.x1) && ltb_ℤ x b.x2 && not (ltb_ℤ y b.y1) && ltb_ℤ y b.y2

abbrev pub in_mask : Mask → ℤ → ℤ → Bool
in_mask m x y = m.passes x y && in_box m.box x y

abbrev pub in_picture : Picture → ℤ → ℤ → Bool
in_picture p x y = in_box (target_box (pos p.width) (pos p.height) (pos 0) (pos 0)) x y

abbrev in_clip : Option Mask → ℤ → ℤ → Bool
in_clip none x y = true
in_clip (some m) x y = in_mask m x y

abbrev moved : Box → ℤ → ℤ → Box
moved b dx dy = record { x1 = b.x1 +ℤ dx; y1 = b.y1 +ℤ dy; x2 = b.x2 +ℤ dx; y2 = b.y2 +ℤ dy }

-- The matrix is that of a CRTC in the corner of the screen.
abbrev pub canvas : Drawing Mask Picture
canvas = record {
  region_of = λ b. record { passes = λ x y. true; box = b };
  no_region = record { passes = λ x y. false; box = empty_box };
  extents = λ m. m.box;
  is_nil = λ m. not (has_area m.box);
  subtract = λ m n. record { passes = λ x y. m.passes x y && not (in_mask n x y); box = m.box };
  translate =
      λ m dx dy. record { passes = λ x y. m.passes (x -ℤ dx) (y -ℤ dy); box = moved m.box dx dy };
  rects = λ m. [];
  from_rects = λ rs. record { passes = λ x y. false; box = empty_box };
  width = λ p. p.width;
  height = λ p. p.height;
  copy_area = λ p q clip sx sy w h dx dy. record q {
    colour = λ x y.
        if in_box (target_box w h dx dy) x y && in_clip clip x y
        then p.colour (x -ℤ dx +ℤ sx) (y -ℤ dy +ℤ sy)
        else q.colour x y;
  };
  transform_bounds = λ c b. shifted (pos 0) (pos 0) b;
  composite = λ c p q b. drawn q;
}

abbrev pub canvas_pixels : Pixels Mask Picture
canvas_pixels = record { inside = in_mask; contains = in_picture; pixel = λ p. p.colour }

pub in_box-inside : (b : Box) (x y : ℤ) → IsInside b x y → in_box b x y ≡ true
in_box-inside b x y (h, k, l, m) = ground arith

in_box-IsInside : (b : Box) (x y : ℤ) → in_box b x y ≡ true → IsInside b x y
in_box-IsInside b x y h = ground arith

ltb-moved : (x a d : ℤ) → ltb_ℤ x (a +ℤ d) ≡ ltb_ℤ (x -ℤ d) a
ltb-moved x a d = ground (arith, +ℤ_parts a d, -ℤ_parts x d)

in_box-moved : (b : Box) (dx dy x y : ℤ) → in_box (moved b dx dy) x y ≡ in_box b (x -ℤ dx) (y -ℤ dy)
in_box-moved b dx dy x y =
    rw (ltb-moved x b.x1 dx, ltb-moved x b.x2 dx, ltb-moved y b.y1 dy, ltb-moved y b.y2 dy) refl

masked : (p q b : Bool) → (p && not q && b) ≡ (p && b && not q)
masked p q b = ground arith

no_area-empty : (b : Box) (x y : ℤ) → not (has_area b) ≡ true → in_box b x y ≡ false
no_area-empty b x y none_there = elim (Bool-cases (in_box b x y)) [
  | inr out ↦ out
  | inl within ↦ absurd (ground (arith, has_area_lem b x y (in_box-IsInside b x y within)))
]

drawn_or_not : (b c : Bool) (m n : ℕ) → (b && c) ≡ true → (if b && c then m else n) ≡ m
drawn_or_not b c m n h = rw h refl

not_drawn : (b c : Bool) (m n : ℕ) → (b && c) ≡ false → (if b && c then m else n) ≡ n
not_drawn b c m n h = rw h refl

and_none : (p : Bool) → (p && false) ≡ false
and_none p = ground arith

second : (p q : Bool) → (p && q) ≡ true → q ≡ true
second p q h = ground arith

all : {p q : Bool} → p ≡ true → q ≡ true → (p && q) ≡ true
all h k = rw (h, k) refl

none_of : (p q : Bool) → (p ≡ true → ⊥) → (p && q) ≡ false
none_of p q h = ground arith

clips_same : (clip : Option Mask) (x y : ℤ) → clipped_in canvas_pixels clip x y ≡ in_clip clip x y
clips_same none x y = refl
clips_same (some m) x y = refl

pub canvas-IsDrawing : IsDrawing canvas canvas_pixels
canvas-IsDrawing = record {
  region_of_inside = λ b x y h. in_box-inside b x y h;
  region_of_outside = λ b x y h. in_box-IsInside b x y h;
  subtracted = λ m n x y. masked (m.passes x y) (in_mask n x y) (in_box m.box x y);
  translated =
      λ m dx dy x y. ap (λ z. m.passes (x -ℤ dx) (y -ℤ dy) && z) (in_box-moved m.box dx dy x y);
  nothing_inside = λ m x y e. rw (no_area-empty m.box x y e) (and_none (m.passes x y));
  none_inside = λ x y. refl;
  within_extents =
      λ m x y h. in_box-IsInside m.box x y (second (m.passes x y) (in_box m.box x y) h);
  sized =
      λ p x y h. in_box-IsInside (target_box (pos p.width) (pos p.height) (pos 0) (pos 0)) x y h;
  copied = λ p q clip sx sy w h dx dy x y _ target clips _.
      drawn_or_not (in_box (target_box w h dx dy) x y) (in_clip clip x y) _ _
        (all (in_box-inside (target_box w h dx dy) x y target) (sym (clips_same clip x y) ∙ clips));
  left_outside = λ p q clip sx sy w h dx dy x y out.
      not_drawn (in_box (target_box w h dx dy) x y) (in_clip clip x y) _ _ (
        none_of (in_box (target_box w h dx dy) x y) (in_clip clip x y)
          (λ within. out (in_box-IsInside (target_box w h dx dy) x y within)));
  left_clipped = λ p q clip sx sy w h dx dy x y out.
      not_drawn (in_box (target_box w h dx dy) x y) (in_clip clip x y) _ _ (
        ap (λ z. in_box (target_box w h dx dy) x y && z) (sym (clips_same clip x y) ∙ out)
        ∙ and_none _);
  same_size = λ p q clip sx sy w h dx dy x y. refl;
}
