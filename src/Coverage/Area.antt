-- ===== src/Coverage/Area.antt =====
-- src/amdgpu_video.c: the pixels of a box, for amdgpu_box_intersect and amdgpu_box_area.
use xf86_video_amdgpu.Prelude.{
  ℕ, suc, ◌+◌, ◌*◌, ◌-◌, ◌<◌, ◌≡◌, ◌↔◌, refl, ap, ◌∙◌, ◌⊎◌, inl, inr, true, false, arith,
  Bool-cases,
}
use xf86_video_amdgpu.Prelude.Int.{ℤ, pos, ◌≤ℤ◌, ◌-ℤ◌, ◌*ℤ◌, ltb_ℤ, pos_part, neg_part}
use xf86_video_amdgpu.Coverage.{Box, box_intersect, box_area, larger, smaller, empty_box}

abbrev pub IsBelow : ℤ → ℤ → Type 0
IsBelow a b = pos_part a + neg_part b < pos_part b + neg_part a

-- The pixel at the coordinates lies in the box, whose upper ends do not belong to it.
abbrev pub IsInside : Box → ℤ → ℤ → Type 0
IsInside b x y = (b.x1 ≤ℤ x) × IsBelow x b.x2 × (b.y1 ≤ℤ y) × IsBelow y b.y2

pub larger_le : (a b x : ℤ) → (larger a b ≤ℤ x) ↔ ((a ≤ℤ x) × (b ≤ℤ x))
larger_le a b x = ground arith

pub smaller_lt : (a b x : ℤ) → IsBelow x (smaller a b) ↔ (IsBelow x a × IsBelow x b)
smaller_lt a b x = ground arith

pub ltb_IsBelow : (a b : ℤ) → ltb_ℤ a b ≡ true → IsBelow a b
ltb_IsBelow a b h = ground arith

pub ltb_le : (a b : ℤ) → ltb_ℤ a b ≡ false → b ≤ℤ a
ltb_le a b h = ground arith

abbrev shared : Box → Box → Box
shared a b = record {
  x1 = larger a.x1 b.x1;
  y1 = larger a.y1 b.y1;
  x2 = smaller a.x2 b.x2;
  y2 = smaller a.y2 b.y2;
}

shared-IsInside :
    (a b : Box) (x y : ℤ) → IsInside (shared a b) x y ↔ (IsInside a x y × IsInside b x y)
shared-IsInside a b x y =
    let lx = larger_le a.x1 b.x1 x in
    let ly = larger_le a.y1 b.y1 y in
    let sx = smaller_lt a.x2 b.x2 x in
    let sy = smaller_lt a.y2 b.y2 y in
    (
      (λ (h, k, l, m). (
        ((lx.0 h).0, (sx.0 k).0, (ly.0 l).0, (sy.0 m).0),
        ((lx.0 h).1, (sx.0 k).1, (ly.0 l).1, (sy.0 m).1),
      )),
      (λ ((h, k, l, m), (h', k', l', m')).
          (lx.1 (h, h'), sx.1 (k, k'), ly.1 (l, l'), sy.1 (m, m'))),
    )

box_intersect_cases :
    (a b : Box)
    → ((box_intersect a b ≡ shared a b)
        × IsBelow (shared a b).x1 (shared a b).x2
        × IsBelow (shared a b).y1 (shared a b).y2)
      ⊎ ((box_intersect a b ≡ empty_box)
          × (((shared a b).x2 ≤ℤ (shared a b).x1) ⊎ ((shared a b).y2 ≤ℤ (shared a b).y1)))
unfolding box_intersect
box_intersect_cases a b = elim (Bool-cases (ltb_ℤ (shared a b).x1 (shared a b).x2)) [
  | inr f ↦ inr (rw (f, box_intersect) refl, inl (ltb_le (shared a b).x1 (shared a b).x2 f))
  | inl t ↦ elim (Bool-cases (ltb_ℤ (shared a b).y1 (shared a b).y2)) [
    | inr f ↦
        inr (rw (t, box_intersect) (rw f refl), inr (ltb_le (shared a b).y1 (shared a b).y2 f))
    | inl t' ↦ inl (
      rw (t, box_intersect) (rw t' refl),
      ltb_IsBelow (shared a b).x1 (shared a b).x2 t,
      ltb_IsBelow (shared a b).y1 (shared a b).y2 t',
    )
  ]
]

-- A pixel lies in the intersection of two boxes just where it lies in both.
pub box_intersect-IsInside :
    (a b : Box) (x y : ℤ) → IsInside (box_intersect a b) x y ↔ (IsInside a x y × IsInside b x y)
box_intersect-IsInside a b x y = elim (box_intersect_cases a b) [
  | inl (eq, _, _) ↦ rw eq (shared-IsInside a b x y)
  | inr (eq, apart) ↦ rw eq (
    (λ (h, k, _, _). absurd (omega arith)),
    (λ both. absurd (nowhere apart ((shared-IsInside a b x y).1 both))),
  )
]
  where
    disorder : (p q r : ℤ) → p ≤ℤ q → IsBelow q r → r ≤ℤ p → ⊥
    disorder p q r h k l = omega arith

    nowhere :
        ((shared a b).x2 ≤ℤ (shared a b).x1) ⊎ ((shared a b).y2 ≤ℤ (shared a b).y1)
        → IsInside (shared a b) x y
        → ⊥
    nowhere (inl le) (h, k, l, m) = disorder (shared a b).x1 x (shared a b).x2 h k le
    nowhere (inr le) (h, k, l, m) = disorder (shared a b).y1 y (shared a b).y2 l m le

difference : (a b : ℤ) → IsBelow b a → (m : ℕ) × (a -ℤ b ≡ pos (suc m))
unfolding ◌-ℤ◌
difference a b h = (pos_part a + neg_part b - (neg_part a + pos_part b) - 1, ground arith)

product : (m n : ℕ) → pos (suc m) *ℤ pos (suc n) ≡ pos (suc m * suc n)
unfolding ◌*ℤ◌
product m n = ground arith

positive_area :
    (b : Box) → IsBelow b.x1 b.x2 → IsBelow b.y1 b.y2 → (n : ℕ) × (box_area b ≡ pos (suc n))
unfolding box_area
positive_area b wide high =
    let (m, width) = difference b.x2 b.x1 wide in
    let (n, height) = difference b.y2 b.y1 high in
    (m * n + m + n, rw (width, box_area) (rw height (product m n ∙ ap pos (omega arith))))

no_area : box_area empty_box ≡ pos 0
unfolding box_area ◌-ℤ◌ ◌*ℤ◌
no_area = refl

-- The area of an intersection is never negative, and it is positive just where the two boxes share
-- a pixel.
pub box_intersect_area :
    (a b : Box)
    → (pos 0 ≤ℤ box_area (box_intersect a b))
      × (IsBelow (pos 0) (box_area (box_intersect a b))
          ↔ ((x y : ℤ) × (IsInside a x y × IsInside b x y)))
box_intersect_area a b = elim (box_intersect_cases a b) [
  | inl (eq, wide, high) ↦
      let (n, area) = positive_area (shared a b) wide high in
      let corner =
        (shared-IsInside a b (shared a b).x1 (shared a b).y1).0
          (omega arith, wide, omega arith, high) in
      rw eq (
        rw area
          (omega arith, ((λ _. ((shared a b).x1, (shared a b).y1, corner)), (λ _. omega arith))))
  | inr (eq, apart) ↦ rw eq (
      rw no_area (
        omega arith,
        (
          (λ lt. absurd (omega arith)),
          (λ (x, y, both).
              absurd (outside x y (rw eq at ((box_intersect-IsInside a b x y).1 both)))),
        ),
      ))
]
  where
    outside : (x y : ℤ) → IsInside empty_box x y → ⊥
    outside x y (h, k, _, _) = omega arith
