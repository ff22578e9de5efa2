-- ===== src/Coverage.antt =====
-- src/amdgpu_video.c: which CRTC a drawable is shown on (amdgpu_crtc_covering_box and the functions
-- around it). Coordinates are integers; those of a BoxRec are 16-bit, and the values are in range.
pub mod Area
pub mod Best
use xf86_video_amdgpu.Prelude.{
  ℕ, ◌+◌, Bool, true, false, ◌&&◌, ◌||◌, not, Option, none, some, List, [], ◌∷◌, if◌then◌else◌,
  ◌==◌,
}
use xf86_video_amdgpu.Prelude.Int.{ℤ, pos, negsuc, ◌+ℤ◌, ◌-ℤ◌, ◌*ℤ◌, ltb_ℤ}

-- BoxRec
pub record Box : Type 0 where
  pub x1 : ℤ
  pub y1 : ℤ
  pub x2 : ℤ
  pub y2 : ℤ

abbrev pub empty_box : Box
empty_box = record { x1 = pos 0; y1 = pos 0; x2 = pos 0; y2 = pos 0 }

abbrev pub larger : ℤ → ℤ → ℤ
larger a b = if ltb_ℤ b a then a else b

abbrev pub smaller : ℤ → ℤ → ℤ
smaller a b = if ltb_ℤ a b then a else b

unfoldable pub box_intersect : Box → Box → Box
box_intersect a b =
    if not (ltb_ℤ (larger a.x1 b.x1) (smaller a.x2 b.x2))
    then empty_box
    else if not (ltb_ℤ (larger a.y1 b.y1) (smaller a.y2 b.y2))
    then empty_box
    else record {
      x1 = larger a.x1 b.x1;
      y1 = larger a.y1 b.y1;
      x2 = smaller a.x2 b.x2;
      y2 = smaller a.y2 b.y2;
    }

unfoldable pub box_area : Box → ℤ
box_area b = (b.x2 -ℤ b.x1) *ℤ (b.y2 -ℤ b.y1)

-- The rotations of RandR; a value with other bits is `rotated_otherwise`.
pub data Rotation : Type 0 where
  rotate_0 rotate_90 rotate_180 rotate_270 rotated_otherwise : Rotation

-- RRCrtcRec: the size of its mode, if it has one, and whether amdgpu_crtc_is_enabled holds of the
-- CRTC of the driver behind it, if there is one.
pub record RrCrtc : Type 0 where
  pub id : ℕ
  pub mode : Option (ℕ × ℕ)
  pub x : ℤ
  pub y : ℤ
  pub rotation : Rotation
  pub enabled : Option Bool

-- amdgpu_crtc_is_enabled
unfoldable pub crtc_is_enabled : (enabled dpms_on : Bool) → Bool
crtc_is_enabled enabled dpms_on = enabled && dpms_on

abbrev pub is_sideways : Rotation → Bool
is_sideways rotate_90 = true
is_sideways rotate_270 = true
is_sideways _ = false

unfoldable pub crtc_box : RrCrtc → Box
crtc_box c = elim c.mode [
  | none ↦ empty_box
  | some (width, height) ↦
      if is_sideways c.rotation
      then record { x1 = c.x; y1 = c.y; x2 = c.x +ℤ pos height; y2 = c.y +ℤ pos width }
      else record { x1 = c.x; y1 = c.y; x2 = c.x +ℤ pos width; y2 = c.y +ℤ pos height }
]

abbrev pub has_mode : RrCrtc → Bool
has_mode c = elim c.mode [ none ↦ false | some _ ↦ true ]

unfoldable pub crtc_on : RrCrtc → (is_xf86 : Bool) → Bool
crtc_on c is_xf86 =
    if is_xf86 then (elim c.enabled [ some e ↦ e | none ↦ has_mode c ]) else has_mode c

unfoldable pub coverage : Box → RrCrtc → ℤ
coverage box c = box_area (box_intersect (crtc_box c) box)

abbrev pub is_primary : Option ℕ → RrCrtc → Bool
is_primary none c = false
is_primary (some p) c = c.id == p

abbrev pub eq_ℤ : ℤ → ℤ → Bool
eq_ℤ a b = not (ltb_ℤ a b) && not (ltb_ℤ b a)

-- `if (coverage > best_coverage || (crtc == primary_crtc && coverage == best_coverage))`
unfoldable pub is_better : (primary : Option ℕ) → (best cover : ℤ) → RrCrtc → Bool
is_better primary best cover c = ltb_ℤ best cover || is_primary primary c && eq_ℤ cover best

-- The loop over the CRTCs, with the best one so far and its coverage.
unfoldable pub covering_loop :
    (primary : Option ℕ)
    → (is_xf86 : Bool) → Box
    → List RrCrtc
    → Option RrCrtc × ℤ
    → Option RrCrtc × ℤ
covering_loop primary is_xf86 box [] best = best
covering_loop primary is_xf86 box (c ∷ cs) best = covering_loop primary is_xf86 box cs (
    if crtc_on c is_xf86 && is_better primary best.1 (coverage box c) c
    then (some c, coverage box c)
    else best)

-- A screen: its CRTCs, unless RandR is not initialised for it, the CRTC of its first output, and
-- whether it is a GPU screen, and whether it is an output secondary of another.
pub record Screen : Type 0 where
  pub crtcs : Option (List RrCrtc)
  pub primary : Option ℕ
  pub is_output_secondary : Bool

unfoldable pub crtc_covering_box : Screen → Box → (is_xf86 : Bool) → Option RrCrtc
crtc_covering_box s box is_xf86 = elim s.crtcs [
  | none ↦ none
  | some cs ↦ (covering_loop s.primary is_xf86 box cs (none, pos 0)).0
]

-- The first output secondary with a CRTC that covers the box.
unfoldable pub covering_box_on_secondary : (is_gpu : Bool) → List Screen → Box → Option RrCrtc
covering_box_on_secondary true secondaries box = none
covering_box_on_secondary false [] box = none
covering_box_on_secondary false (s ∷ ss) box =
    let rest : Option RrCrtc = covering_box_on_secondary false ss box in
    if s.is_output_secondary
    then (elim (crtc_covering_box s box false) [ some c ↦ some c | none ↦ rest ])
    else rest

unfoldable pub randr_crtc_covering_drawable :
    Screen → (is_gpu : Bool) → List Screen → (x y : ℤ) → (width height : ℕ) → Option RrCrtc
randr_crtc_covering_drawable s is_gpu secondaries x y width height =
    let box : Box = record { x1 = x; y1 = y; x2 = x +ℤ pos width; y2 = y +ℤ pos height } in
    elim (crtc_covering_box s box true) [
      | some c ↦ some c
      | none ↦ covering_box_on_secondary is_gpu secondaries box
    ]

-- The result is the RandR CRTC, whose devPrivate the function returns.
unfoldable pub pick_best_crtc : (vt_sema : Bool) → Screen → (x1 x2 y1 y2 : ℤ) → Option RrCrtc
pick_best_crtc vt_sema s x1 x2 y1 y2 =
    if not vt_sema
    then none
    else crtc_covering_box s (record { x1 = x1; y1 = y1; x2 = x2; y2 = y2 }) true
