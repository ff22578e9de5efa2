-- ===== src/Scanout/Sync.antt =====
-- src/amdgpu_kms.c, amdgpu_sync_scanout_pixmaps and amdgpu_scanout_do_update: what the scanout pixmap
-- shows.
use xf86_video_amdgpu.Prelude.{
  ℕ, ◌≡◌, refl, sym, ◌∙◌, inl, inr, Bool, true, false, ◌&&◌, not, none, some, if◌then◌else◌, arith,
  Bool-cases,
}
use xf86_video_amdgpu.Prelude.Int.{ℤ, pos, ◌-ℤ◌, ◌+ℤ◌, int_laws}
use xf86_video_amdgpu.Coverage.{Box}
use xf86_video_amdgpu.Coverage.Area.{IsInside}
use xf86_video_amdgpu.DrmQueue.{update}
use xf86_video_amdgpu.Scanout.Regions.{Drawing, Pixels, IsDrawing, target_box}
use xf86_video_amdgpu.Scanout.Areas.{IsPlain, IsShown, extents_intersect-IsShown}
use xf86_video_amdgpu.Scanout.{
  Crtc, Scanouts, extents_intersect, sync_region, copy_remaining, sync_scanout_pixmaps,
  draw_scanout,
}

back_from_zero : (p : ℤ) → p -ℤ pos 0 +ℤ pos 0 ≡ p
back_from_zero p = omega int_laws

back_from : (p c : ℤ) → p -ℤ (pos 0 -ℤ c) ≡ p +ℤ c
back_from p c = omega int_laws

to_source : (p a c : ℤ) → p -ℤ a +ℤ (c +ℤ a) ≡ p +ℤ c
to_source p a c = omega int_laws

span : (a b : ℤ) → a +ℤ (b -ℤ a) ≡ b
span a b = omega int_laws

and_true : (b : Bool) → (b && not false) ≡ b
and_true b = ground arith

pub contradicts : (b : Bool) → b ≡ true → b ≡ false → ⊥
contradicts b y n = cc

pub picture_at : {P : Type 0} (f : ℕ → P) (p : ℕ) (v : P) → update f p v p ≡ v
picture_at f p v = ground arith

module _ {R P : Type 0} (x : Drawing R P) (v : Pixels R P) (laws : IsDrawing x v) where
  -- The copy between the scanout pixmaps.
  copy_remaining-pixel :
      (c src dst : ℕ) (w : Crtc R) (remaining : R) (s : Scanouts R P) (px py : ℤ)
      → w.transforms ≡ false
      → v.contains (s.picture dst) px py ≡ true
      → v.contains (s.picture src) px py ≡ true
      → v.pixel ((copy_remaining x true c src dst w remaining s).picture dst) px py ≡ (
          if v.inside remaining (px +ℤ w.x) (py +ℤ w.y)
          then v.pixel (s.picture src) px py
          else v.pixel (s.picture dst) px py)
  unfolding copy_remaining sync_region
  copy_remaining-pixel c src dst w remaining s px py plain holds holds' =
      let q = s.picture dst in
      let moved = x.translate remaining (pos 0 -ℤ w.x) (pos 0 -ℤ w.y) in
      let clip : v.inside moved px py ≡ v.inside remaining (px +ℤ w.x) (py +ℤ w.y) =
        laws.translated remaining (pos 0 -ℤ w.x) (pos 0 -ℤ w.y) px py
        ∙ rw (back_from px w.x, back_from py w.y) refl in
      let copied : P =
        x.copy_area (s.picture src) q (some moved) (pos 0) (pos 0) (pos (x.width q))
          (pos (x.height q)) (pos 0) (pos 0) in
      let result : (copy_remaining x true c src dst w remaining s).picture dst ≡ copied =
        simp (copy_remaining, sync_region, plain) (picture_at s.picture dst copied) in
      let at : (v.pixel (s.picture src) (px -ℤ pos 0 +ℤ pos 0) (py -ℤ pos 0 +ℤ pos 0))
          ≡ v.pixel (s.picture src) px py =
        rw (back_from_zero px, back_from_zero py) refl in
      rw result (elim (Bool-cases (v.inside remaining (px +ℤ w.x) (py +ℤ w.y))) [
        | inl new ↦ rw new (
            laws.copied (s.picture src) q (some moved) _ _ _ _ _ _ px py holds
              (laws.sized q px py holds) (clip ∙ new)
              (rw (back_from_zero px, back_from_zero py) holds')
            ∙ at)
        | inr old ↦
            rw old (laws.left_clipped (s.picture src) q (some moved) _ _ _ _ _ _ px py (clip ∙ old))
      ])

  -- Where the two scanout pixmaps agree outside the last region, they agree after it outside the new
  -- one.
  pub sync_scanout_pixmaps-pixel :
      (c src dst : ℕ) (new : R) (s : Scanouts R P) (px py : ℤ)
      → IsPlain x c (s.crtc c)
      → IsShown (s.crtc c) px py
      → v.contains (s.picture dst) px py ≡ true
      → v.contains (s.picture src) px py ≡ true
      → (v.inside (s.crtc c).last_region (px +ℤ (s.crtc c).x) (py +ℤ (s.crtc c).y) ≡ false
          → v.pixel (s.picture dst) px py ≡ v.pixel (s.picture src) px py)
      → v.inside new (px +ℤ (s.crtc c).x) (py +ℤ (s.crtc c).y) ≡ false
      → v.pixel ((sync_scanout_pixmaps x true c src dst new s).picture dst) px py
        ≡ v.pixel (s.picture src) px py
  unfolding sync_scanout_pixmaps
  sync_scanout_pixmaps-pixel c src dst new s px py plain shown holds holds' agree outside =
      let w = s.crtc c in
      let remaining = x.subtract w.last_region new in
      let left : v.inside remaining (px +ℤ w.x) (py +ℤ w.y)
          ≡ v.inside w.last_region (px +ℤ w.x) (py +ℤ w.y) =
        laws.subtracted w.last_region new (px +ℤ w.x) (py +ℤ w.y) ∙ rw outside (and_true _) in
      elim (Bool-cases (x.is_nil w.last_region)) [
        | inl empty ↦
            simp (sync_scanout_pixmaps, empty)
              (agree (laws.nothing_inside w.last_region (px +ℤ w.x) (py +ℤ w.y) empty))
        | inr full ↦ elim (Bool-cases (x.is_nil remaining)) [
          | inl empty ↦
              simp (sync_scanout_pixmaps, full, empty)
                (agree (sym left ∙ laws.nothing_inside remaining (px +ℤ w.x) (py +ℤ w.y) empty))
          | inr more ↦ elim (Bool-cases (extents_intersect x c w (x.extents remaining))) [
            | inr apart ↦
                simp (sync_scanout_pixmaps, full, more, apart)
                  (elim (Bool-cases (v.inside remaining (px +ℤ w.x) (py +ℤ w.y))) [
                    | inr old ↦ agree (sym left ∙ old)
                    | inl within ↦
                        let met =
                          extents_intersect-IsShown x c w (x.extents remaining) px py plain shown
                            (laws.within_extents remaining (px +ℤ w.x) (py +ℤ w.y) within) in
                        cc
                  ])
            | inl meets ↦
                simp (sync_scanout_pixmaps, full, more, meets)
                  (copy_remaining-pixel c src dst w remaining s px py plain.0 holds holds'
                    ∙ (elim (Bool-cases (v.inside remaining (px +ℤ w.x) (py +ℤ w.y))) [
                      | inl within ↦ rw within refl
                      | inr old ↦ rw old (agree (sym left ∙ old))
                    ]))
          ]
        ]
      ]

  -- What is drawn from the screen's pixmap.
  pub draw_scanout-pixel :
      (c src dst : ℕ) (b : Box) (s : Scanouts R P) (w : Crtc R) (px py : ℤ)
      → w.transforms ≡ false
      → v.contains (s.picture dst) px py ≡ true
      → v.contains (s.picture src) (px +ℤ w.x) (py +ℤ w.y) ≡ true
      → ((IsInside b px py → ⊥)
          → v.pixel (s.picture dst) px py ≡ v.pixel (s.picture src) (px +ℤ w.x) (py +ℤ w.y))
      → v.pixel ((draw_scanout x c src dst w b s).picture dst) px py
        ≡ v.pixel (s.picture src) (px +ℤ w.x) (py +ℤ w.y)
  unfolding draw_scanout
  draw_scanout-pixel c src dst b s w px py plain holds holds' outside =
      let copied : P =
        x.copy_area (s.picture src) (s.picture dst) none (w.x +ℤ b.x1) (w.y +ℤ b.y1) (b.x2 -ℤ b.x1)
          (b.y2 -ℤ b.y1) b.x1 b.y1 in
      let result : (draw_scanout x c src dst w b s).picture dst ≡ copied =
        simp (draw_scanout, plain) (picture_at s.picture dst copied) in
      let here = target_box (b.x2 -ℤ b.x1) (b.y2 -ℤ b.y1) b.x1 b.y1 in
      rw result (elim (Bool-cases (v.inside (x.region_of here) px py)) [
        | inl within ↦
            laws.copied (s.picture src) (s.picture dst) none _ _ _ _ _ _ px py holds
              (laws.region_of_outside here px py within) refl
              (rw (to_source px b.x1 w.x, to_source py b.y1 w.y) holds')
            ∙ rw (to_source px b.x1 w.x, to_source py b.y1 w.y) refl
        | inr beyond ↦
            let not_here : IsInside here px py → ⊥ =
              λ inside. contradicts _ (laws.region_of_inside here px py inside) beyond in
            laws.left_outside (s.picture src) (s.picture dst) none _ _ _ _ _ _ px py not_here
            ∙ outside (λ inside. not_here (rw (span b.x1 b.x2, span b.y1 b.y2) inside))
      ])
