-- ===== src/Scanout/Shows.antt =====
-- src/amdgpu_kms.c, amdgpu_scanout_do_update with TearFree: the pixmap that is drawn shows the screen.
use xf86_video_amdgpu.Prelude.{
  ℕ, ◌-◌, ◌≤◌, ◌≡◌, ◌≢◌, refl, sym, ap, ◌∙◌, ◌⊎◌, inl, inr, Bool, true, false, ◌&&◌, ◌||◌, not,
  Option, some, arith, Bool-cases,
}
use xf86_video_amdgpu.Prelude.Int.{ℤ, ◌+ℤ◌, ltb_ℤ}
use xf86_video_amdgpu.Coverage.{Box}
use xf86_video_amdgpu.Coverage.Area.{IsInside}
use xf86_video_amdgpu.Framebuffer.{ok}
use xf86_video_amdgpu.DrmQueue.{update}
use xf86_video_amdgpu.Scanout.Regions.{Drawing, Pixels, IsDrawing}
use xf86_video_amdgpu.Scanout.Areas.{
  IsPlain, IsShown, scanout_extents-IsInside, extents_intersect-IsShown, has_area_lem,
}
use xf86_video_amdgpu.Scanout.Sync.{
  contradicts, picture_at, sync_scanout_pixmaps-pixel, draw_scanout-pixel,
}
use xf86_video_amdgpu.Scanout.{
  Crtc, Scanouts, has_area, scanout_extents, extents_intersect, sync_scanout_pixmaps,
  sync_tear_free, draw_scanout, scanout_do_update, set_crtc, set_picture, copy_remaining,
}

-- With TearFree, `a` is displayed and `b` is the other scanout pixmap. Outside the damage `a` shows
-- what the screen has, and outside the last region `b` shows what `a` shows.
pub record IsSynced {R P : Type 0} (x : Drawing R P) (v : Pixels R P) (c a b : ℕ) (damage : R)
    (s : Scanouts R P) : Type 0 where
  pub tears_not : (s.crtc c).tear_free ≡ true
  pub plain : IsPlain x c (s.crtc c)
  pub id_limit : (s.crtc c).scanout_id ≤ 1
  pub displayed : (s.crtc c).scanout (s.crtc c).scanout_id ≡ some a
  pub spare : (s.crtc c).scanout (1 - (s.crtc c).scanout_id) ≡ some b
  pub two : a ≢ b
  pub off_screen : (s.root ≢ a) × (s.root ≢ b)
  pub fits :
      (px py : ℤ)
      → IsShown (s.crtc c) px py
      → (v.contains (s.picture a) px py ≡ true)
        × (v.contains (s.picture b) px py ≡ true)
        × (v.contains (s.picture s.root) (px +ℤ (s.crtc c).x) (py +ℤ (s.crtc c).y) ≡ true)
  pub current :
      (px py : ℤ)
      → IsShown (s.crtc c) px py
      → v.inside damage (px +ℤ (s.crtc c).x) (py +ℤ (s.crtc c).y) ≡ false
      → v.pixel (s.picture a) px py
        ≡ v.pixel (s.picture s.root) (px +ℤ (s.crtc c).x) (py +ℤ (s.crtc c).y)
  pub agree :
      (px py : ℤ)
      → IsShown (s.crtc c) px py
      → v.inside (s.crtc c).last_region (px +ℤ (s.crtc c).x) (py +ℤ (s.crtc c).y) ≡ false
      → v.pixel (s.picture b) px py ≡ v.pixel (s.picture a) px py

-- The pixmap shows what the screen has at the place of the CRTC.
abbrev pub Shows : {R P : Type 0} → Pixels R P → (c p : ℕ) → Scanouts R P → Type 0
Shows v c p s =
    (px py : ℤ)
    → IsShown (s.crtc c) px py
    → v.pixel (s.picture p) px py
      ≡ v.pixel (s.picture s.root) (px +ℤ (s.crtc c).x) (py +ℤ (s.crtc c).y)

pub picture_other : {P : Type 0} (f : ℕ → P) (p q : ℕ) (v : P) → p ≢ q → update f p v q ≡ f q
picture_other f p q v ne = ground arith

-- Of the pictures only one has been drawn to, and the rest is as it was.
abbrev pub DrawsTo : {R P : Type 0} → (dst : ℕ) → Scanouts R P → Scanouts R P → Type 0
DrawsTo dst s t =
    (t.root ≡ s.root)
    × (t.fbs ≡ s.fbs)
    × (t.effects ≡ s.effects)
    × ((q : ℕ) → dst ≢ q → t.picture q ≡ s.picture q)

module _ {R P : Type 0} (x : Drawing R P) (v : Pixels R P) (laws : IsDrawing x v) where
  copy-frame :
      (dst : ℕ) (p : P) (clip : Option R) (sx sy w h dx dy : ℤ) (s : Scanouts R P)
      → let t = set_picture dst (x.copy_area p (s.picture dst) clip sx sy w h dx dy) s in
        (t.crtc ≡ s.crtc)
        × DrawsTo dst s t
        × ((px py : ℤ) → v.contains (t.picture dst) px py ≡ v.contains (s.picture dst) px py)
  copy-frame dst p clip sx sy w h dx dy s =
      let q = x.copy_area p (s.picture dst) clip sx sy w h dx dy in
      (
        refl,
        (refl, refl, refl, λ r ne. picture_other s.picture dst r q ne),
        λ px py.
            rw (picture_at s.picture dst q)
              (laws.same_size p (s.picture dst) clip sx sy w h dx dy px py),
      )

  unchanged :
      (dst : ℕ) (s : Scanouts R P)
      → (s.crtc ≡ s.crtc)
        × DrawsTo dst s s
        × ((px py : ℤ) → v.contains (s.picture dst) px py ≡ v.contains (s.picture dst) px py)
  unchanged dst s = (refl, (refl, refl, refl, λ q ne. refl), λ px py. refl)

  sync_scanout_pixmaps-frame :
      (c src dst : ℕ) (new : R) (s : Scanouts R P)
      → let t = sync_scanout_pixmaps x true c src dst new s in
        (t.crtc ≡ s.crtc)
        × DrawsTo dst s t
        × ((px py : ℤ) → v.contains (t.picture dst) px py ≡ v.contains (s.picture dst) px py)
  unfolding sync_scanout_pixmaps copy_remaining
  sync_scanout_pixmaps-frame c src dst new s =
      let w = s.crtc c in
      let remaining = x.subtract w.last_region new in
      elim (Bool-cases (x.is_nil w.last_region)) [
        | inl empty ↦ simp (sync_scanout_pixmaps, empty) (unchanged dst s)
        | inr full ↦ elim (Bool-cases (x.is_nil remaining)) [
          | inl empty ↦ simp (sync_scanout_pixmaps, full, empty) (unchanged dst s)
          | inr more ↦ elim (Bool-cases (extents_intersect x c w (x.extents remaining))) [
            | inr apart ↦ simp (sync_scanout_pixmaps, full, more, apart) (unchanged dst s)
            | inl meets ↦
                simp (sync_scanout_pixmaps, full, more, meets) (copy-frame dst _ _ _ _ _ _ _ _ s)
          ]
        ]
      ]

module _ {R P : Type 0} (x : Drawing R P) (v : Pixels R P) (laws : IsDrawing x v) where
  draw_scanout-frame :
      (c src dst : ℕ) (b : Box) (s : Scanouts R P) (w : Crtc R)
      → w.transforms ≡ false
      → let t = draw_scanout x c src dst w b s in
        (t.crtc ≡ s.crtc)
        × DrawsTo dst s t
        × ((px py : ℤ) → v.contains (t.picture dst) px py ≡ v.contains (s.picture dst) px py)
  unfolding draw_scanout
  draw_scanout-frame c src dst b s w plain =
      simp (draw_scanout, plain) (copy-frame x v laws dst _ _ _ _ _ _ _ _ s)

-- What a drawn update comes to: the other scanout pixmap shows the screen.
abbrev pub Draws :
    {R P : Type 0} → Drawing R P → Pixels R P → (c b : ℕ) → R → Scanouts R P → Scanouts R P → Type 0
Draws x v c b damage s t =
    DrawsTo b s t
    × (t.crtc
        ≡ update s.crtc c (record (s.crtc c) { last_region = x.region_of (x.extents damage) }))
    × ((px py : ℤ) → v.contains (t.picture b) px py ≡ v.contains (s.picture b) px py)
    × ((px py : ℤ)
        → IsShown (s.crtc c) px py
        → v.pixel (t.picture b) px py
          ≡ v.pixel (s.picture s.root) (px +ℤ (s.crtc c).x) (py +ℤ (s.crtc c).y))

guard : (p q : Bool) → (not p || not q) ≡ not (p && q)
guard p q = ground arith

no_area : (e : Box) → has_area e ≡ false → (not (ltb_ℤ e.x1 e.x2) || not (ltb_ℤ e.y1 e.y2)) ≡ true
no_area e h = guard (ltb_ℤ e.x1 e.x2) (ltb_ℤ e.y1 e.y2) ∙ ap not h

some_area : (e : Box) → has_area e ≡ true → (not (ltb_ℤ e.x1 e.x2) || not (ltb_ℤ e.y1 e.y2)) ≡ false
some_area e h = guard (ltb_ℤ e.x1 e.x2) (ltb_ℤ e.y1 e.y2) ∙ ap not h

both : (p q : Bool) → p ≡ true → q ≡ true → (p && q) ≡ false → ⊥
both p q y y' n = ground arith

module _ {R P : Type 0} (x : Drawing R P) (v : Pixels R P) (laws : IsDrawing x v) (c a b : ℕ)
    (damage : R) (s : Scanouts R P) (synced : IsSynced x v c a b damage s) where
  -- Nothing that the CRTC shows is in the damage, or its extents are drawn.
  pub undamaged :
      (px py : ℤ)
      → IsShown (s.crtc c) px py
      → v.inside (x.region_of (x.extents damage)) (px +ℤ (s.crtc c).x) (py +ℤ (s.crtc c).y) ≡ false
      → v.pixel (s.picture a) px py
        ≡ v.pixel (s.picture s.root) (px +ℤ (s.crtc c).x) (py +ℤ (s.crtc c).y)
  undamaged px py shown outside =
      let qx = px +ℤ (s.crtc c).x in
      let qy = py +ℤ (s.crtc c).y in
      elim (Bool-cases (v.inside damage qx qy)) [
        | inr clean ↦ synced.current px py shown clean
        | inl dirty ↦ absurd (
            contradicts _
              (laws.region_of_inside (x.extents damage) qx qy
                (laws.within_extents damage qx qy dirty))
              outside)
      ]

  spared :
      has_area (x.extents damage) && extents_intersect x c (s.crtc c) (x.extents damage) ≡ false
      → Shows v c a s
  spared misses px py shown =
      let qx = px +ℤ (s.crtc c).x in
      let qy = py +ℤ (s.crtc c).y in
      elim (Bool-cases (v.inside damage qx qy)) [
        | inr clean ↦ synced.current px py shown clean
        | inl dirty ↦
            let within = laws.within_extents damage qx qy dirty in
            let area = has_area_lem (x.extents damage) qx qy within in
            let meets =
              extents_intersect-IsShown x c (s.crtc c) (x.extents damage) px py synced.plain shown
                within in
            absurd (both _ _ area meets misses)
      ]

  -- The scanout pixmap that is not displayed, once it has been synchronized, outside the damage.
  resynced :
      (px py : ℤ)
      → IsShown (s.crtc c) px py
      → v.inside (x.region_of (x.extents damage)) (px +ℤ (s.crtc c).x) (py +ℤ (s.crtc c).y) ≡ false
      → v.pixel
          ((sync_scanout_pixmaps x true c a b (x.region_of (x.extents damage)) s).picture b)
          px
          py
        ≡ v.pixel (s.picture s.root) (px +ℤ (s.crtc c).x) (py +ℤ (s.crtc c).y)
  resynced px py shown outside =
      let (holds, holds', _) = synced.fits px py shown in
      sync_scanout_pixmaps-pixel x v laws c a b (x.region_of (x.extents damage)) s px py
        synced.plain shown holds' holds (λ out. synced.agree px py shown out) outside
      ∙ undamaged px py shown outside

  -- Beyond what is drawn.
  elsewhere :
      (px py : ℤ)
      → IsShown (s.crtc c) px py
      → (IsInside (scanout_extents x c (s.crtc c) (x.extents damage)) px py → ⊥)
      → v.pixel
          ((sync_scanout_pixmaps x true c a b (x.region_of (x.extents damage)) s).picture b)
          px
          py
        ≡ v.pixel (s.picture s.root) (px +ℤ (s.crtc c).x) (py +ℤ (s.crtc c).y)
  elsewhere px py shown beyond =
      let qx = px +ℤ (s.crtc c).x in
      let qy = py +ℤ (s.crtc c).y in
      elim (Bool-cases (v.inside (x.region_of (x.extents damage)) qx qy)) [
        | inr outside ↦ resynced px py shown outside
        | inl within ↦ absurd (
            beyond (
              scanout_extents-IsInside x c (s.crtc c) (x.extents damage) px py synced.plain shown
                (laws.region_of_outside (x.extents damage) qx qy within)))
      ]

  abbrev after_sync : Scanouts R P
  after_sync =
      let region = x.region_of (x.extents damage) in
      let s₁ = sync_scanout_pixmaps x true c a b region s in
      set_crtc c (record (s₁.crtc c) { last_region = region }) s₁

  synchronized :
      sync_tear_free x true c (1 - (s.crtc c).scanout_id) b (x.region_of (x.extents damage)) s
      ≡ ok after_sync
  unfolding sync_tear_free
  synchronized =
      let back : 1 - (1 - (s.crtc c).scanout_id) ≡ (s.crtc c).scanout_id =
        omega (arith, synced.id_limit) in
      simp (sync_tear_free, synced.tears_not, back, synced.displayed) refl

  abbrev outcome : Scanouts R P
  outcome =
      draw_scanout x c s.root b (s.crtc c) (scanout_extents x c (s.crtc c) (x.extents damage))
        after_sync

  outcome-Draws : Draws x v c b damage s outcome
  outcome-Draws =
      let region = x.region_of (x.extents damage) in
      let w = s.crtc c in
      let (crtcs, (root, fbs, effects, others), holds) =
        sync_scanout_pixmaps-frame x v laws c a b region s in
      let (crtcs', (root', fbs', effects', others'), holds') =
        draw_scanout-frame x v laws c s.root b (scanout_extents x c w (x.extents damage)) after_sync
          w synced.plain.0 in
      let front : after_sync.picture s.root ≡ s.picture s.root =
        others s.root (λ e. synced.off_screen.1 (sym e)) in
      (
        (root' ∙ root, fbs' ∙ fbs, effects' ∙ effects, λ q ne. others' q ne ∙ others q ne),
        crtcs' ∙ ap (λ f. update f c (record (f c) { last_region = region })) crtcs,
        λ px py. holds' px py ∙ holds px py,
        λ px py shown.
            let (fit_a, fit_b, fit_root) = synced.fits px py shown in
            draw_scanout-pixel x v laws c s.root b (scanout_extents x c w (x.extents damage))
              after_sync w px py synced.plain.0 (holds px py ∙ fit_b) (rw front fit_root)
              (λ beyond. elsewhere px py shown beyond ∙ rw front refl)
            ∙ rw front refl,
      )

  -- With TearFree on an enabled CRTC that is not transformed, and a scratch GC at hand for each copy:
  -- where the displayed scanout pixmap shows the screen outside the damage, and the other agrees with it outside the last region, updating the
  -- other returns. Either it has been drawn to alone, and the whole of it shows the screen, the extents
  -- of the damage being the last region now; or nothing has changed, and the displayed one shows the
  -- screen already.
  pub scanout_do_update-Shows :
      (s.crtc c).enabled ≡ true
      → ((t : Scanouts R P) × (scanout_do_update x true c
              (1 - (s.crtc c).scanout_id)
              s.root
              (x.extents damage)
              s
            ≡ ok (true, t))
          × Draws x v c b damage s t)
        ⊎ ((scanout_do_update x true c (1 - (s.crtc c).scanout_id) s.root (x.extents damage) s
              ≡ ok (false, s))
            × Shows v c a s)
  unfolding scanout_do_update
  scanout_do_update-Shows enabled = elim (Bool-cases (has_area (x.extents damage))) [
    | inr empty ↦ inr (
      simp (scanout_do_update, enabled, synced.spare, no_area (x.extents damage) empty) refl,
      spared (rw empty refl),
    )
    | inl area ↦ elim (Bool-cases (extents_intersect x c (s.crtc c) (x.extents damage))) [
      | inr apart ↦ inr (
        simp (scanout_do_update, enabled, synced.spare, some_area (x.extents damage) area, apart)
            refl,
        spared (rw (area, apart) refl),
      )
      | inl meets ↦ inl (
        outcome,
        simp
            (
              scanout_do_update,
              enabled,
              synced.spare,
              some_area (x.extents damage) area,
              meets,
              synchronized,
            )
            refl,
        outcome-Draws,
      )
    ]
  ]
