-- ===== src/Scanout/Cycle.antt =====
-- src/amdgpu_kms.c and src/drmmode_display.c: what keeps the scanout pixmaps synced between two flips.
use xf86_video_amdgpu.Prelude.{
  ℕ, ◌≡◌, refl, sym, ap, ◌∙◌, Bool, true, false, ◌||◌, Option, none, some, List, if◌then◌else◌,
  arith,
}
use xf86_video_amdgpu.Prelude.Int.{ℤ, ◌+ℤ◌}
use xf86_video_amdgpu.DrmQueue.{update}
use xf86_video_amdgpu.Framebuffer.{Slot, Fbs, ok, crtc_fb, flip_pending}
use xf86_video_amdgpu.Framebuffer.Counting.{
  occurs, IsCounted, IsLive, IsLive-held, fb_reference-IsCounted,
}
use xf86_video_amdgpu.Scanout.Regions.{Drawing, Pixels, IsDrawing}
use xf86_video_amdgpu.Scanout.Sync.{picture_at, contradicts}
use xf86_video_amdgpu.Scanout.Shows.{IsSynced, picture_other}
use xf86_video_amdgpu.Scanout.{Crtc, Scanouts, set_picture}
use xf86_video_amdgpu.Scanout.Callbacks.{
  on_crtc, with_fbs, is_at, scanout_flip_abort, scanout_flip_handler,
}

-- amdgpu_screen_damage_report: what is left of the damage, of which only the extents are kept.
unfoldable pub screen_damage_report : {R P : Type 0} → Drawing R P → (ignore_damage : Bool) → R → R
screen_damage_report x ignore_damage r =
    if ignore_damage then x.no_region else x.region_of (x.extents r)

neither : (d p q : Bool) → d ≡ (p || q) → (d ≡ true → ⊥) → (p ≡ false) × (q ≡ false)
neither d p q e n = ground arith

module _ {R P : Type 0} (x : Drawing R P) (v : Pixels R P) where
  -- The bookkeeping of updates does not move anything.
  kept :
      (c a b : ℕ) (r : R) (s : Scanouts R P) (crtcs : ℕ → Crtc R) (fbs : Fbs) (n : ℕ)
      → IsSynced x v c a b r s
      → crtcs c ≡ record (s.crtc c) { update_pending = n }
      → IsSynced x v c a b r (record s { crtc = crtcs; fbs = fbs })
  kept c a b r s crtcs fbs n synced place = record {
    tears_not = rw place synced.tears_not;
    plain = rw place synced.plain;
    id_limit = rw place synced.id_limit;
    displayed = rw place synced.displayed;
    spare = rw place synced.spare;
    two = synced.two;
    off_screen = synced.off_screen;
    fits = rw place synced.fits;
    current = rw place synced.current;
    agree = rw place synced.agree;
  }

  -- The event of a scanout flip: nothing that has been freed is touched, the framebuffers are counted,
  -- the CRTC scans out the framebuffer of the flip, no flip and no update are pending any more, and
  -- the scanout pixmaps are synced as before.
  pub scanout_flip_handler-IsSynced :
      (σs : List Slot) (c a b fb : ℕ) (r : R) (s : Scanouts R P)
      → IsSynced x v c a b r s
      → IsCounted σs s.fbs
      → occurs (crtc_fb c) σs ≡ 1
      → occurs (flip_pending c) σs ≡ 1
      → s.fbs.held (flip_pending c) ≡ some fb
      → (s' : Scanouts R P) × (scanout_flip_handler c fb s ≡ ok s')
        × IsSynced x v c a b r s'
        × IsCounted σs s'.fbs
        × (s'.fbs.held (crtc_fb c) ≡ some fb)
        × (s'.fbs.held (flip_pending c) ≡ none)
        × ((s'.crtc c).update_pending ≡ 0)
  unfolding scanout_flip_handler scanout_flip_abort
  scanout_flip_handler-IsSynced σs c a b fb r s synced counted once once' pending =
      let live : IsLive (some fb) s.fbs =
        rw pending at (IsLive-held σs (flip_pending c) s.fbs counted once') in
      let (f, shown, counted', held) =
        fb_reference-IsCounted σs (crtc_fb c) (some fb) s.fbs counted once live in
      let (g, cleared, counted'', held') =
        fb_reference-IsCounted σs (flip_pending c) none f counted' once' tt in
      let still : f.held (flip_pending c) ≡ some fb =
        ap {B = Option ℕ} (λ (h : Slot → Option ℕ). h (flip_pending c)) held ∙ pending in
      let s' : Scanouts R P = on_crtc c (λ w. record w { update_pending = 0 }) (with_fbs g s) in
      let place : s'.crtc c ≡ record (s.crtc c) { update_pending = 0 } = picture_at s.crtc c _ in
      let same : is_at (f.held (flip_pending c)) fb ≡ true = rw still (ground arith) in
      (
        s',
        simp (scanout_flip_handler, shown, scanout_flip_abort, same, cleared) refl,
        kept c a b r s s'.crtc g 0 synced place,
        counted'',
        ap {B = Option ℕ} (λ (h : Slot → Option ℕ). h (crtc_fb c)) held'
            ∙ ap {B = Option ℕ} (λ (h : Slot → Option ℕ). h (crtc_fb c)) held
            ∙ ground arith,
        ap {B = Option ℕ} (λ (h : Slot → Option ℕ). h (flip_pending c)) held' ∙ ground arith,
        ap (λ (w : Crtc R). w.update_pending) place,
      )

  -- The screen is drawn to, within a region that is added to the damage, and the damage is reported:
  -- with what is kept of the damage the scanout pixmaps are synced as before.
  pub screen_damage_report-IsSynced :
      (laws : IsDrawing x v) (c a b : ℕ) (r drawn damage : R) (p : P) (s : Scanouts R P)
      → IsSynced x v c a b r s
      → ((qx qy : ℤ) → v.contains p qx qy ≡ v.contains (s.picture s.root) qx qy)
      → ((qx qy : ℤ)
          → v.inside drawn qx qy ≡ false
          → v.pixel p qx qy ≡ v.pixel (s.picture s.root) qx qy)
      → ((qx qy : ℤ) → v.inside damage qx qy ≡ (v.inside r qx qy || v.inside drawn qx qy))
      → IsSynced x v c a b (screen_damage_report x false damage) (set_picture s.root p s)
  unfolding screen_damage_report
  screen_damage_report-IsSynced laws c a b r drawn damage p s synced same_size elsewhere added =
      let on_a : update s.picture s.root p a ≡ s.picture a =
        picture_other s.picture s.root a p synced.off_screen.0 in
      let on_b : update s.picture s.root p b ≡ s.picture b =
        picture_other s.picture s.root b p synced.off_screen.1 in
      let on_root : update s.picture s.root p s.root ≡ p = picture_at s.picture s.root p in
      record {
        tears_not = synced.tears_not;
        plain = synced.plain;
        id_limit = synced.id_limit;
        displayed = synced.displayed;
        spare = synced.spare;
        two = synced.two;
        off_screen = synced.off_screen;
        fits =
            rw (on_a, on_b, on_root)
              (λ px py shown.
                let (fit_a, fit_b, fit_root) = synced.fits px py shown in
                (fit_a, fit_b, same_size _ _ ∙ fit_root));
        current =
            rw (on_a, on_root)
              (λ px py shown clean.
                let qx = px +ℤ (s.crtc c).x in
                let qy = py +ℤ (s.crtc c).y in
                let (old, new) =
                  neither (v.inside damage qx qy) (v.inside r qx qy) (v.inside drawn qx qy)
                    (added qx qy)
                    (λ within.
                      contradicts _
                        (laws.region_of_inside (x.extents damage) qx qy
                          (laws.within_extents damage qx qy within))
                        clean) in
                synced.current px py shown old ∙ sym (elsewhere qx qy new));
        agree = rw (on_a, on_b) synced.agree;
      }
