-- ===== src/Scanout/Callbacks.antt =====
-- src/amdgpu_kms.c: the callbacks of scanout updates and flips, and the event queue's driver of them.
use xf86_video_amdgpu.Prelude.{
  ℕ, ◌-◌, ◌^◌, Bool, false, ◌&&◌, not, Option, none, some, if◌then◌else◌, ◌==◌,
}
use xf86_video_amdgpu.DrmQueue.{Driver}
use xf86_video_amdgpu.Framebuffer.{
  Fbs, Result, ok, fault, ◌>>=◌, fb_reference, crtc_fb, flip_pending,
}
use xf86_video_amdgpu.Pageflip.{is_some}
use xf86_video_amdgpu.Scanout.Regions.{Drawing}
use xf86_video_amdgpu.Scanout.{Crtc, Scanouts, flushes, set_crtc, emit, scanout_do_update}

-- A FatalError or an access to no memory makes the rest of the driver's state meaningless.
abbrev pub World : Type 0 → Type 0 → Type 0
World R P = Result (Scanouts R P)

-- The function pointers.
abbrev pub scanout_flip_handler_proc : ℕ
scanout_flip_handler_proc = 3

abbrev pub scanout_flip_abort_proc : ℕ
scanout_flip_abort_proc = 4

abbrev pub scanout_update_handler_proc : ℕ
scanout_update_handler_proc = 5

abbrev pub scanout_update_abort_proc : ℕ
scanout_update_abort_proc = 6

-- AMDGPU_DRM_QUEUE_ID_DEFAULT, on 64 bits
abbrev pub default_id : ℕ
default_id = 2 ^ 64 - 1

-- What the functions are answered: whether there is a scratch GC, whether the entries of a flip and
-- of an update can be allocated, whether the kernel takes them, and the framebuffer of a scanout
-- pixmap. `client` is the server's client.
pub record Setting : Type 0 where
  pub gc : Bool
  pub flip_memory : Bool
  pub update_memory : Bool
  pub accepts_flip : (fb queue_seq : ℕ) → Bool
  pub accepts_vblank : (queue_seq : ℕ) → Bool
  pub fb_of : ℕ → Option ℕ
  pub client : ℕ
  pub fuel : ℕ

abbrev pub is_at : Option ℕ → ℕ → Bool
is_at none q = false
is_at (some p) q = p == q

module _ {R P : Type 0} where
  abbrev pub on_crtc : ℕ → (Crtc R → Crtc R) → Scanouts R P → Scanouts R P
  on_crtc c f s = set_crtc c (f (s.crtc c)) s

  abbrev pub with_fbs : Fbs → Scanouts R P → Scanouts R P
  with_fbs f s = record s { fbs = f }

  unfoldable pub scanout_update_abort : (c : ℕ) → Scanouts R P → Scanouts R P
  scanout_update_abort c s = on_crtc c (λ v. record v { update_pending = 0 }) s

  -- amdgpu_scanout_flip_abort, with a framebuffer as its data
  unfoldable pub scanout_flip_abort : (c fb : ℕ) → Scanouts R P → World R P
  scanout_flip_abort c fb s =
      let s' = on_crtc c (λ v. record v { update_pending = 0 }) s in
      if is_at (s.fbs.held (flip_pending c)) fb
      then (do f ← fb_reference (flip_pending c) none s.fbs; ok (with_fbs f s'))
      else ok s'

  unfoldable pub scanout_flip_handler : (c fb : ℕ) → Scanouts R P → World R P
  scanout_flip_handler c fb s = do
    f ← fb_reference (crtc_fb c) (some fb) s.fbs
    scanout_flip_abort c fb (with_fbs f s)

  abbrev pub pending_in : World R P → ℕ → Bool
  pending_in (ok s) c = is_some (s.fbs.held (flip_pending c))
  pending_in _ c = false

module _ {R P : Type 0} (x : Drawing R P) (e : Setting) where
  -- The update where the conditions of amdgpu_scanout_update_handler hold.
  unfoldable pub update_displayed : (c : ℕ) → Scanouts R P → World R P
  update_displayed c s = elim (s.crtc c).damage [
    | none ↦ fault
    | some r ↦ (do
      (drawn, s') ← scanout_do_update x e.gc c (s.crtc c).scanout_id s.root (x.extents r) s
      ok (
          if drawn
          then on_crtc c (λ v. record v { damage = some x.no_region }) (emit flushes s')
          else s'))
  ]

  unfoldable pub scanout_update_handler : (c : ℕ) → Scanouts R P → World R P
  scanout_update_handler c s = do
    s' ←
        (if (s.crtc c).enabled && not (is_some (s.fbs.held (flip_pending c))) && (s.crtc c).dpms_on
          then update_displayed c s
          else ok s)
    ok (scanout_update_abort c s')

  -- The queue's driver: the callbacks of scanouts, and any others.
  unfoldable pub scanout_driver : Driver (World R P) → Driver (World R P)
  scanout_driver other = record {
    run_handler = λ h crtc frame usec event_data t.
        if h == scanout_flip_handler_proc
        then record t { world = t.world >>= scanout_flip_handler crtc event_data }
        else if h == scanout_update_handler_proc
        then record t { world = t.world >>= scanout_update_handler crtc }
        else other.run_handler h crtc frame usec event_data t;
    run_abort = λ a crtc event_data w.
        if a == scanout_flip_abort_proc
        then w >>= scanout_flip_abort crtc event_data
        else if a == scanout_update_abort_proc
        then (w >>= λ s. ok (scanout_update_abort crtc s))
        else other.run_abort a crtc event_data w;
    flip_pending = pending_in;
    scrn = other.scrn;
  }
