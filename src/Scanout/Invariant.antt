-- ===== src/Scanout/Invariant.antt =====
-- src/amdgpu_kms.c, amdgpu_scanout_flip: TearFree displays the screen.
use xf86_video_amdgpu.Prelude.{
  ℕ, ◌-◌, ◌≡◌, ◌≢◌, refl, sym, ap, ◌∙◌, ◌⊎◌, inl, inr, true, false, Option, none, some, List, ◌==◌,
  arith,
}
use xf86_video_amdgpu.DrmQueue.{Driver, State, queue_alloc, queue_error, next_seq}
use xf86_video_amdgpu.Framebuffer.{Slot, Fbs, ok, flip_pending}
use xf86_video_amdgpu.Framebuffer.Counting.{occurs, IsCounted, IsLive, fb_reference-IsCounted}
use xf86_video_amdgpu.Scanout.Regions.{Drawing, Pixels, IsDrawing}
use xf86_video_amdgpu.Scanout.Sync.{picture_at}
use xf86_video_amdgpu.Scanout.Shows.{IsSynced, Shows, Draws, undamaged, scanout_do_update-Shows}
use xf86_video_amdgpu.Scanout.{Effect, Crtc, Scanouts}
use xf86_video_amdgpu.Scanout.Callbacks.{
  World, Setting, on_crtc, with_fbs, scanout_driver, default_id, scanout_flip_handler_proc,
  scanout_flip_abort_proc,
}
use xf86_video_amdgpu.Scanout.Flip.{scanout_flip, flip_crtc, queue_flip, flip_taken, cleaned}

-- The CRTC once its scanout pixmaps have changed places.
abbrev pub flipped : {R : Type 0} → Crtc R → R → Option R → (queue_seq : ℕ) → Crtc R
flipped v last damage seq = record v {
  last_region = last;
  damage = damage;
  flip_failed = false;
  scanout_id = 1 - v.scanout_id;
  update_pending = seq;
}

next_seq-used : (n : ℕ) → (next_seq n == queue_error) ≡ false
unfolding next_seq
next_seq-used n = ground arith

module _ {R P : Type 0} (x : Drawing R P) (v : Pixels R P) (laws : IsDrawing x v) where
  -- Once the other scanout pixmap has been drawn to, the two can change places.
  switched :
      (c a b : ℕ) (r : R) (s t : Scanouts R P) (crtcs : ℕ → Crtc R) (fbs : Fbs)
      (effects : List Effect) (damage : Option R) (seq : ℕ)
      → IsSynced x v c a b r s
      → Draws x v c b r s t
      → crtcs c ≡ flipped (s.crtc c) (x.region_of (x.extents r)) damage seq
      → IsSynced x v c b a x.no_region (record t { crtc = crtcs; fbs = fbs; effects = effects })
  switched c a b r s t crtcs fbs effects damage seq synced ((root, _, _, others), _, holds, shows)
        place =
      let back : 1 - (1 - (s.crtc c).scanout_id) ≡ (s.crtc c).scanout_id =
        omega (arith, synced.id_limit) in
      let a_kept : t.picture a ≡ s.picture a = others a (λ e. synced.two (sym e)) in
      let root_kept : t.picture t.root ≡ s.picture s.root =
        rw root (others s.root (λ e. synced.off_screen.1 (sym e))) in
      record {
        tears_not = rw place synced.tears_not;
        plain = rw place synced.plain;
        id_limit = rw place (omega arith);
        displayed = rw place synced.spare;
        spare = rw (place, back) synced.displayed;
        two = λ e. synced.two (sym e);
        off_screen = rw root (synced.off_screen.1, synced.off_screen.0);
        fits = rw place (λ px py shown.
            let (fit_a, fit_b, fit_root) = synced.fits px py shown in
            (holds px py ∙ fit_b, rw a_kept fit_a, rw root_kept fit_root));
        current = rw place (λ px py shown _. shows px py shown ∙ rw root_kept refl);
        agree = rw place (λ px py shown out.
            rw a_kept (undamaged x v laws c a b r s synced px py shown out)
            ∙ sym (shows px py shown));
      }

  module _ (e : Setting) (other : Driver (World R P)) where
    -- The flip is queued, and the framebuffer pending.
    queue_flip-taken :
        (σs : List Slot) (c id b fb : ℕ) (w : Scanouts R P) (t : State (World R P))
        → (w.crtc c).scanout id ≡ some b
        → IsCounted σs w.fbs
        → occurs (flip_pending c) σs ≡ 1
        → e.fb_of b ≡ some fb
        → IsLive (some fb) w.fbs
        → e.flip_memory ≡ true
        → ((seq : ℕ) → e.accepts_flip fb seq ≡ true)
        → (t' : State (World R P)) × (f : Fbs) × (seq : ℕ) × (queue_flip x e other c id w t
            ≡ some t')
          × (t'.world
              ≡ ok (
                  on_crtc c
                    (λ v. record v { flip_failed = false; scanout_id = id; update_pending = seq })
                    (with_fbs f w)))
          × IsCounted σs f
          × (f.held (flip_pending c) ≡ some fb)
          × (seq ≢ 0)
    unfolding queue_flip flip_taken queue_alloc
    queue_flip-taken σs c id b fb w t spare counted once has live memory accepts =
        let seq = next_seq t.queue_seq in
        let (f, referenced, counted', held) =
          fb_reference-IsCounted σs (flip_pending c) (some fb) w.fbs counted once live in
        let used : (seq == queue_error) ≡ false = next_seq-used t.queue_seq in
        let t' =
          (queue_alloc (scanout_driver x e other) true c e.client default_id fb
            scanout_flip_handler_proc scanout_flip_abort_proc true (record t { world = ok w })).0 in
        (
          record t' {
            world = ok (
                on_crtc c
                  (λ v. record v { flip_failed = false; scanout_id = id; update_pending = seq })
                  (with_fbs f w));
          },
          f,
          seq,
          simp
              (
                queue_flip,
                spare,
                has,
                memory,
                queue_alloc,
                used,
                accepts seq,
                flip_taken,
                referenced,
              )
              refl,
          refl,
          counted',
          ap {B = Option ℕ} (λ (g : Slot → Option ℕ). g (flip_pending c)) held ∙ ground arith,
          λ z. ground arith,
        )

    -- With TearFree on an enabled CRTC that is on and not transformed, with the scanout pixmaps synced
    -- and nothing pending, where memory is not short and the kernel takes the flip: either the scanout
    -- pixmaps have changed places, with nothing damaged and the flip pending, and they are synced with
    -- an empty damage, so what is displayed next is the whole screen; or nothing that is displayed is
    -- damaged, and nothing has changed.
    pub scanout_flip-IsSynced :
        (σs : List Slot) (c a b fb : ℕ) (r : R) (s : Scanouts R P) (t : State (World R P))
        → IsSynced x v c a b r s
        → t.world ≡ ok s
        → (s.crtc c).enabled ≡ true
        → (s.crtc c).dpms_on ≡ true
        → (s.crtc c).update_pending ≡ 0
        → (s.crtc c).damage ≡ some r
        → s.fbs.held (flip_pending c) ≡ none
        → IsCounted σs s.fbs
        → occurs (flip_pending c) σs ≡ 1
        → e.fb_of b ≡ some fb
        → IsLive (some fb) s.fbs
        → e.gc ≡ true
        → e.flip_memory ≡ true
        → ((seq : ℕ) → e.accepts_flip fb seq ≡ true)
        → ((s' : Scanouts R P) × (t' : State (World R P)) × (scanout_flip x e other c t ≡ some t')
            × (t'.world ≡ ok s')
            × IsSynced x v c b a x.no_region s'
            × ((s'.crtc c).damage ≡ some x.no_region)
            × (s'.fbs.held (flip_pending c) ≡ some fb)
            × IsCounted σs s'.fbs
            × ((s'.crtc c).update_pending ≢ 0))
          ⊎ ((scanout_flip x e other c t ≡ some (record t { world = ok s })) × Shows v c a s)
    unfolding scanout_flip flip_crtc queue_flip flip_taken
    scanout_flip-IsSynced σs c a b fb r s t synced is_ok enabled on idle damaged free counted once
          has live gc memory accepts =
        elim (scanout_do_update-Shows x v laws c a b r s synced enabled) [
          | inr (spared, shows) ↦ inr (
            simp (scanout_flip, is_ok, flip_crtc, idle, free, on, damaged, gc, spared) refl,
            shows,
          )
          | inl (u, drawn, draws) ↦
              let w = cleaned x e other c u in
              let (root, fbs, effects, others) = draws.0 in
              let place : u.crtc c ≡ record (s.crtc c) { last_region = x.region_of (x.extents r) } =
                ap (λ (f : ℕ → Crtc R). f c) draws.1 ∙ picture_at s.crtc c _ in
              let cleaned_crtc : w.crtc c ≡ record (s.crtc c) {
                last_region = x.region_of (x.extents r);
                damage = some x.no_region;
              } =
                picture_at u.crtc c _ ∙ rw place refl in
              let (t', f, seq, queued, world, counted', held, used) =
                queue_flip-taken σs c (1 - (s.crtc c).scanout_id) b fb w t
                  (rw cleaned_crtc synced.spare) (rw fbs counted) once has (rw fbs live) memory
                  accepts in
              let s' : Scanouts R P =
                on_crtc c
                  (λ v. record v {
                    flip_failed = false;
                    scanout_id = 1 - (s.crtc c).scanout_id;
                    update_pending = seq;
                  })
                  (with_fbs f w) in
              let final : s'.crtc c
                  ≡ flipped (s.crtc c) (x.region_of (x.extents r)) (some x.no_region) seq =
                picture_at w.crtc c _ ∙ rw cleaned_crtc refl in
              inl (
                s',
                t',
                simp (scanout_flip, is_ok, flip_crtc, idle, free, on, damaged, gc, drawn) queued,
                world,
                switched c a b r s u s'.crtc f s'.effects (some x.no_region) seq synced draws final,
                ap (λ (z : Crtc R). z.damage) final,
                held,
                counted',
                λ z. used (sym (ap (λ (z : Crtc R). z.update_pending) final) ∙ z),
              )
        ]
