-- ===== src/Scanout.antt =====
-- src/amdgpu_kms.c: the scanout pixmaps of a CRTC, which are drawn from the screen's pixmap, and with
-- TearFree flipped between. Box coordinates are integers; those of a BoxRec are 16-bit, and the values
-- are in range. Pixmaps, CRTCs and framebuffers are addresses.
pub mod Regions
pub mod Areas
pub mod Sync
pub mod Shows
pub mod Callbacks
pub mod Flip
pub mod Invariant
pub mod Cycle
pub mod Failures
use xf86_video_amdgpu.Prelude.{
  ℕ, ◌+◌, ◌-◌, ◌/◌, ◌%◌, ◌^◌, Bool, true, false, ◌&&◌, ◌||◌, not, Option, none, some, List, [], ◌∷◌,
  ◌++◌, map, if◌then◌else◌, ◌==◌, ltb,
}
use xf86_video_amdgpu.Prelude.Int.{ℤ, pos, ◌+ℤ◌, ◌-ℤ◌, ltb_ℤ}
use xf86_video_amdgpu.Coverage.{Box, larger, smaller}
use xf86_video_amdgpu.DrmQueue.{update}
use xf86_video_amdgpu.Framebuffer.{Fbs, Result, ok, fatal, fault, ◌>>=◌}
use xf86_video_amdgpu.Scanout.Regions.{Rect, Drawing, Composed, no_source, no_target, drawn}

-- The fields of a CRTC and of its private that scanout updates read and write. `scanout` are the two
-- pixmaps, `rotate` whether there is a pixmap for rotation, `damage` the region of scanout_damage, and `flip_failed` and `vblank_failed` the bits of
-- scanout_status.
pub record Crtc (R : Type 0) : Type 0 where
  pub enabled : Bool
  pub dpms_on : Bool
  pub tear_free : Bool
  pub is_gpu : Bool
  pub transforms : Bool
  pub rotate : Bool
  pub x : ℤ
  pub y : ℤ
  pub filter_width : ℕ
  pub filter_height : ℕ
  pub h_display : ℕ
  pub v_display : ℕ
  pub scanout : ℕ → Option ℕ
  pub scanout_id : ℕ
  pub update_pending : ℕ
  pub damage : Option R
  pub last_region : R
  pub flip_failed : Bool
  pub vblank_failed : Bool

-- What the functions call, besides the drawing.
pub data Effect : Type 0 where
  flushes : Effect
  sets_mode : (crtc : ℕ) → Effect
  destroys_pixmap : (pixmap : ℕ) → Effect

-- `root` is the window pixmap of the root window.
pub record Scanouts (R P : Type 0) : Type 0 where
  pub crtc : ℕ → Crtc R
  pub picture : ℕ → P
  pub root : ℕ
  pub fbs : Fbs
  pub effects : List Effect

module _ {R P : Type 0} where
  abbrev pub set_crtc : ℕ → Crtc R → Scanouts R P → Scanouts R P
  set_crtc c v s = record s { crtc = update s.crtc c v }

  abbrev pub set_picture : ℕ → P → Scanouts R P → Scanouts R P
  set_picture p v s = record s { picture = update s.picture p v }

  abbrev pub emit : Effect → Scanouts R P → Scanouts R P
  emit f s = record s { effects = s.effects ++ f ∷ [] }

-- The part of a box that a CRTC of this size shows.
abbrev pub clip_box : (width height : ℕ) → Box → Box
clip_box width height b = record {
  x1 = larger b.x1 (pos 0);
  y1 = larger b.y1 (pos 0);
  x2 = smaller b.x2 (pos width);
  y2 = smaller b.y2 (pos height);
}

abbrev pub has_area : Box → Bool
has_area b = ltb_ℤ b.x1 b.x2 && ltb_ℤ b.y1 b.y2

module _ {R P : Type 0} (x : Drawing R P) where
  -- The box of the screen in the coordinates of the CRTC.
  unfoldable pub crtc_box : (c : ℕ) → Crtc R → Box → Box
  crtc_box c v b =
      if v.is_gpu
      then record { x1 = b.x1 -ℤ v.x; y1 = b.y1 -ℤ v.y; x2 = b.x2 -ℤ v.x; y2 = b.y2 -ℤ v.y }
      else x.transform_bounds c (record {
        x1 = b.x1 -ℤ pos (v.filter_width / 2);
        y1 = b.y1 -ℤ pos (v.filter_height / 2);
        x2 = b.x2 +ℤ pos (v.filter_width / 2);
        y2 = b.y2 +ℤ pos (v.filter_height / 2);
      })

  -- What is left in `extents`; the function returns whether it has an area.
  unfoldable pub scanout_extents : (c : ℕ) → Crtc R → Box → Box
  scanout_extents c v b = clip_box v.h_display v.v_display (crtc_box c v b)

  unfoldable pub extents_intersect : (c : ℕ) → Crtc R → Box → Bool
  extents_intersect c v b = has_area (scanout_extents c v b)

  -- The loop of transform_region.
  unfoldable pub transform_rects : (c width height : ℕ) → List Box → List Rect
  transform_rects c width height [] = []
  transform_rects c width height (b ∷ bs) =
      let box = clip_box width height (x.transform_bounds c b) in
      let rest = transform_rects c width height bs in
      if not (has_area box)
      then rest
      else record { x = box.x1; y = box.y1; width = box.x2 -ℤ box.x1; height = box.y2 -ℤ box.y1 }
        ∷ rest

  unfoldable pub transform_region : (c width height : ℕ) → R → R
  transform_region c width height r = x.from_rects (transform_rects c width height (x.rects r))

  -- The region to copy, in the coordinates of the CRTC.
  unfoldable pub sync_region : (c width height : ℕ) → Crtc R → R → R
  sync_region c width height v remaining =
      if v.transforms
      then transform_region c width height remaining
      else x.translate remaining (pos 0 -ℤ v.x) (pos 0 -ℤ v.y)

  -- The copy from the one scanout pixmap to the other. `gc`: whether there is a scratch GC.
  unfoldable pub copy_remaining :
      (gc : Bool) (c src dst : ℕ) → Crtc R → R → Scanouts R P → Scanouts R P
  copy_remaining gc c src dst v remaining s =
      let q = s.picture dst in
      if gc
      then set_picture dst
          (x.copy_area (s.picture src) q (some (sync_region c (x.width q) (x.height q) v remaining))
            (pos 0) (pos 0) (pos (x.width q)) (pos (x.height q)) (pos 0) (pos 0))
          s
      else s

  -- amdgpu_sync_scanout_pixmaps, of the scanout pixmaps `dst` and `src`
  unfoldable pub sync_scanout_pixmaps :
      (gc : Bool) (c src dst : ℕ) → R → Scanouts R P → Scanouts R P
  sync_scanout_pixmaps gc c src dst new_region s =
      let v = s.crtc c in
      let remaining = x.subtract v.last_region new_region in
      if x.is_nil v.last_region
      then s
      else if x.is_nil remaining
      then s
      else if not (extents_intersect c v (x.extents remaining))
      then s
      else copy_remaining gc c src dst v remaining s

  -- `if (drmmode_crtc->tear_free)`: without the other scanout pixmap, its drawable is no memory.
  unfoldable pub sync_tear_free :
      (gc : Bool) (c id dst : ℕ) → R → Scanouts R P → Result (Scanouts R P)
  sync_tear_free gc c id dst region s =
      if (s.crtc c).tear_free
      then (elim ((s.crtc c).scanout (1 - id)) [
        | none ↦ fault
        | some src ↦
            let s' = sync_scanout_pixmaps gc c src dst region s in
            ok (set_crtc c (record (s'.crtc c) { last_region = region }) s')
      ])
      else ok s

  abbrev pub copy_extents : (src dst : ℕ) → Crtc R → Box → Scanouts R P → Scanouts R P
  copy_extents src dst v b s =
      set_picture dst
        (x.copy_area (s.picture src) (s.picture dst) none (v.x +ℤ b.x1) (v.y +ℤ b.y1) (b.x2 -ℤ b.x1)
          (b.y2 -ℤ b.y1) b.x1 b.y1)
        s

  -- From `if (xf86_crtc->driverIsPerformingTransform)` on.
  unfoldable pub draw_scanout : (c src dst : ℕ) → Crtc R → Box → Scanouts R P → Scanouts R P
  draw_scanout c src dst v b s =
      if v.transforms
      then (elim (x.composite c (s.picture src) (s.picture dst) b) [
        | no_source ↦ copy_extents src dst v b s
        | no_target ↦ s
        | drawn q ↦ set_picture dst q s
      ])
      else copy_extents src dst v b s

  unfoldable pub scanout_do_update :
      (gc : Bool) (c id src : ℕ) → Box → Scanouts R P → Result (Bool × Scanouts R P)
  scanout_do_update gc c id src extents s =
      let v = s.crtc c in
      if not v.enabled then ok (false, s) else (elim (v.scanout id) [
        | none ↦ ok (false, s)
        | some dst ↦
            if not (ltb_ℤ extents.x1 extents.x2) || not (ltb_ℤ extents.y1 extents.y2)
            then ok (false, s)
            else if not (extents_intersect c v extents)
            then ok (false, s)
            else (do
              s' ← sync_tear_free gc c id dst (x.region_of extents) s
              ok (true, draw_scanout c src dst v (scanout_extents c v extents) s'))
      ])
