-- ===== src/Scanout/Regions.antt =====
-- The operations of the X server that src/amdgpu_kms.c draws with, on its regions and pixmaps: what
-- an implementation gives, and the documented behaviour that the proofs rely on.
use xf86_video_amdgpu.Prelude.{ℕ, Bool, true, false, ◌&&◌, not, Option, none, some, List, ◌≡◌}
use xf86_video_amdgpu.Prelude.Int.{ℤ, pos, ◌+ℤ◌, ◌-ℤ◌}
use xf86_video_amdgpu.Coverage.{Box}
use xf86_video_amdgpu.Coverage.Area.{IsInside}

-- The upper left corner and the size of a rectangle (xRectangle).
pub record Rect : Type 0 where
  pub x : ℤ
  pub y : ℤ
  pub width : ℤ
  pub height : ℤ

-- What the composition of a transformed update comes to: CreatePicture fails for the source, or a
-- later call fails, or the target is drawn.
pub data Composed (P : Type 0) : Type 0 where
  no_source no_target : Composed P
  drawn : P → Composed P

-- `region_of` is a region with the extents and no data, and `no_region` what RegionEmpty leaves.
-- `copy_area` takes the source, the target, the clip, the place in the source, the size, and the place
-- in the target. `transform_bounds` is pixman_f_transform_bounds with the matrix of a CRTC that takes
-- the screen to it.
pub record Drawing (R P : Type 0) : Type 0 where
  pub region_of : Box → R
  pub no_region : R
  pub extents : R → Box
  pub is_nil : R → Bool
  pub subtract : R → R → R
  pub translate : R → ℤ → ℤ → R
  pub rects : R → List Box
  pub from_rects : List Rect → R
  pub width : P → ℕ
  pub height : P → ℕ
  pub copy_area : P → P → Option R → (src_x src_y : ℤ) (width height : ℤ) (dst_x dst_y : ℤ) → P
  pub transform_bounds : (crtc : ℕ) → Box → Box
  pub composite : (crtc : ℕ) → P → P → Box → Composed P

-- The pixels of regions and pixmaps, where a pixmap has one at the coordinates.
pub record Pixels (R P : Type 0) : Type 0 where
  pub inside : R → ℤ → ℤ → Bool
  pub contains : P → ℤ → ℤ → Bool
  pub pixel : P → ℤ → ℤ → ℕ

-- The rectangle that copy_area draws to.
abbrev pub target_box : (width height dst_x dst_y : ℤ) → Box
target_box width height dst_x dst_y = record {
  x1 = dst_x;
  y1 = dst_y;
  x2 = dst_x +ℤ width;
  y2 = dst_y +ℤ height;
}

abbrev pub clipped_in : {R P : Type 0} → Pixels R P → Option R → ℤ → ℤ → Bool
clipped_in v none x y = true
clipped_in v (some r) x y = v.inside r x y

-- The documented behaviour.
pub record IsDrawing {R P : Type 0} (s : Drawing R P) (v : Pixels R P) : Type 0 where
  pub region_of_inside : (b : Box) (x y : ℤ) → IsInside b x y → v.inside (s.region_of b) x y ≡ true
  pub region_of_outside : (b : Box) (x y : ℤ) → v.inside (s.region_of b) x y ≡ true → IsInside b x y
  pub subtracted :
      (a b : R) (x y : ℤ) → v.inside (s.subtract a b) x y ≡ (v.inside a x y && not (v.inside b x y))
  pub translated :
      (a : R) (dx dy x y : ℤ) → v.inside (s.translate a dx dy) x y ≡ v.inside a (x -ℤ dx) (y -ℤ dy)
  pub nothing_inside : (a : R) (x y : ℤ) → s.is_nil a ≡ true → v.inside a x y ≡ false
  pub none_inside : (x y : ℤ) → v.inside s.no_region x y ≡ false
  pub within_extents : (a : R) (x y : ℤ) → v.inside a x y ≡ true → IsInside (s.extents a) x y
  pub sized :
      (p : P) (x y : ℤ)
      → v.contains p x y ≡ true
      → IsInside (target_box (pos (s.width p)) (pos (s.height p)) (pos 0) (pos 0)) x y
  pub copied :
      (p q : P) (clip : Option R) (sx sy w h dx dy x y : ℤ)
      → v.contains q x y ≡ true
      → IsInside (target_box w h dx dy) x y
      → clipped_in v clip x y ≡ true
      → v.contains p (x -ℤ dx +ℤ sx) (y -ℤ dy +ℤ sy) ≡ true
      → v.pixel (s.copy_area p q clip sx sy w h dx dy) x y
        ≡ v.pixel p (x -ℤ dx +ℤ sx) (y -ℤ dy +ℤ sy)
  pub left_outside :
      (p q : P) (clip : Option R) (sx sy w h dx dy x y : ℤ)
      → (IsInside (target_box w h dx dy) x y → ⊥)
      → v.pixel (s.copy_area p q clip sx sy w h dx dy) x y ≡ v.pixel q x y
  pub left_clipped :
      (p q : P) (clip : Option R) (sx sy w h dx dy x y : ℤ)
      → clipped_in v clip x y ≡ false
      → v.pixel (s.copy_area p q clip sx sy w h dx dy) x y ≡ v.pixel q x y
  pub same_size :
      (p q : P) (clip : Option R) (sx sy w h dx dy x y : ℤ)
      → v.contains (s.copy_area p q clip sx sy w h dx dy) x y ≡ v.contains q x y
