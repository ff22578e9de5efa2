-- ===== src/Scanout/Failures.antt =====
-- src/amdgpu_kms.c, amdgpu_scanout_flip: where the entry for the flip cannot be allocated.
use xf86_video_amdgpu.Prelude.{
  ℕ, ◌-◌, ◌≡◌, refl, sym, ap, ◌∙◌, ◌⊎◌, inl, inr, true, false, none, some,
}
use xf86_video_amdgpu.DrmQueue.{Driver, State, queue_alloc}
use xf86_video_amdgpu.Framebuffer.{ok, flip_pending}
use xf86_video_amdgpu.Scanout.Regions.{Drawing, Pixels, IsDrawing}
use xf86_video_amdgpu.Scanout.Sync.{picture_at}
use xf86_video_amdgpu.Scanout.Shows.{IsSynced, Shows, scanout_do_update-Shows}
use xf86_video_amdgpu.Scanout.{Crtc, Scanouts}
use xf86_video_amdgpu.Scanout.Callbacks.{World, Setting}
use xf86_video_amdgpu.Scanout.Flip.{scanout_flip, flip_crtc, queue_flip, cleaned}

module _ {R P : Type 0} (x : Drawing R P) (v : Pixels R P) (laws : IsDrawing x v) (e : Setting)
    (other : Driver (World R P)) where
  -- As for a flip that is queued, but without memory for its entry: either the damage has been
  -- forgotten, though the same scanout pixmap is displayed as before, with the same contents, and
  -- neither a flip nor an update is pending; or nothing that is displayed is damaged.
  pub scanout_flip-forgets :
      (c a b fb : ℕ) (r : R) (s : Scanouts R P) (t : State (World R P))
      → IsSynced x v c a b r s
      → t.world ≡ ok s
      → (s.crtc c).enabled ≡ true
      → (s.crtc c).dpms_on ≡ true
      → (s.crtc c).update_pending ≡ 0
      → (s.crtc c).damage ≡ some r
      → s.fbs.held (flip_pending c) ≡ none
      → e.fb_of b ≡ some fb
      → e.gc ≡ true
      → e.flip_memory ≡ false
      → ((s' : Scanouts R P) × (t' : State (World R P)) × (scanout_flip x e other c t ≡ some t')
          × (t'.world ≡ ok s')
          × ((s'.crtc c).damage ≡ some x.no_region)
          × ((s'.crtc c).scanout_id ≡ (s.crtc c).scanout_id)
          × (s'.picture a ≡ s.picture a)
          × (s'.fbs.held (flip_pending c) ≡ none)
          × ((s'.crtc c).update_pending ≡ 0))
        ⊎ ((scanout_flip x e other c t ≡ some (record t { world = ok s })) × Shows v c a s)
  unfolding scanout_flip flip_crtc queue_flip queue_alloc
  scanout_flip-forgets c a b fb r s t synced is_ok enabled on idle damaged free has gc lacks =
      elim (scanout_do_update-Shows x v laws c a b r s synced enabled) [
        | inr (spared, shows) ↦
            inr (
              simp (scanout_flip, is_ok, flip_crtc, idle, free, on, damaged, gc, spared) refl,
              shows,
            )
        | inl (u, drawn, draws) ↦
            let w = cleaned x e other c u in
            let (root, fbs, effects, others) = draws.0 in
            let place : u.crtc c ≡ record (s.crtc c) { last_region = x.region_of (x.extents r) } =
              ap (λ (f : ℕ → Crtc R). f c) draws.1 ∙ picture_at s.crtc c _ in
            let cleaned_crtc : w.crtc c ≡ record (s.crtc c) {
              last_region = x.region_of (x.extents r);
              damage = some x.no_region;
            } =
              picture_at u.crtc c _ ∙ rw place refl in
            let spare : (w.crtc c).scanout (1 - (s.crtc c).scanout_id) ≡ some b =
              rw cleaned_crtc synced.spare in
            let refused : queue_flip x e other c (1 - (s.crtc c).scanout_id) w t
                ≡ some (record t { world = ok w }) =
              simp (queue_flip, spare, has, queue_alloc, lacks) refl in
            inl (
              w,
              record t { world = ok w },
              simp (scanout_flip, is_ok, flip_crtc, idle, free, on, damaged, gc, drawn) refused,
              refl,
              ap (λ (z : Crtc R). z.damage) cleaned_crtc,
              ap (λ (z : Crtc R). z.scanout_id) cleaned_crtc,
              others a (λ e. synced.two (sym e)),
              rw fbs free,
              ap (λ (z : Crtc R). z.update_pending) cleaned_crtc ∙ idle,
            )
      ]
