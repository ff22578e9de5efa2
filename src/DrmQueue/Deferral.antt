-- ===== src/DrmQueue/Deferral.antt =====
-- src/amdgpu_drm_queue.c: vblank events of a CRTC that a flip is waited for.
use xf86_video_amdgpu.Prelude.{
  ℕ, zero, suc, ◌+◌, ◌<◌, ◌-◌, ◌≡◌, refl, ap, ◌∙◌, false, some, List, [], ◌∷◌, ◌++◌, arith, ◌==◌,
  length,
}
use mathlib.Core.Path.{fun_ext}
use mathlib.Core.List.{append-nil, append_assoc}
use xf86_video_amdgpu.DrmQueue.{
  Entry, State, Driver, ◌>>=◌, update, vblank_round, handle_vblank_signalled, handle_deferred,
}
use xf86_video_amdgpu.DrmQueue.Count.{All}
use xf86_video_amdgpu.DrmQueue.Wait.{ReadResult, wait_pending_flip, wait_read, wait_signalled}

abbrev pub IsWaiting : {W : Type 0} → State W → Entry → Type 0
IsWaiting s e = 0 < s.nesting e.crtc

module _ {W : Type 0} (d : Driver W) where
  defer_list :
      (f : ℕ) (s : State W) (es : List Entry)
      → s.vblank_signalled ≡ es
      → length es < f
      → All (IsWaiting s) es
      → handle_vblank_signalled d f s
        ≡ some (record s { vblank_signalled = []; vblank_deferred = s.vblank_deferred ++ es })
  unfolding handle_vblank_signalled
  defer_list zero s es eq h w = absurd (omega arith)
  defer_list (suc f) s [] eq h w = ground (arith, append-nil s.vblank_deferred)
  defer_list (suc f) s (e ∷ es) eq h w =
      rw (eq, handle_vblank_signalled)
        (rw (busy, vblank_round)
          (defer_list f
              (record s { vblank_signalled = es; vblank_deferred = s.vblank_deferred ++ e ∷ [] }) es
              refl (omega arith) w.1
            ∙ simp append_assoc))
    where
      busy : (s.nesting e.crtc == 0) ≡ false
      busy = ground (arith, w.0)

  -- While a flip is waited for on every CRTC that has a signalled event, no callback runs: the
  -- events are deferred, behind those that are already, in their order.
  pub handle_vblank_signalled-waiting :
      (f : ℕ) (s : State W)
      → length s.vblank_signalled < f
      → All (IsWaiting s) s.vblank_signalled
      → handle_vblank_signalled d f s
        ≡ some (record s {
          vblank_signalled = [];
          vblank_deferred = s.vblank_deferred ++ s.vblank_signalled;
        })
  handle_vblank_signalled-waiting f s h w = defer_list f s s.vblank_signalled refl h w

  -- Nested waits on a CRTC with no flip pending: amdgpu_drm_wait_pending_flip followed by
  -- amdgpu_drm_queue_handle_deferred changes nothing while an outer wait is in progress.
  pub handle_deferred-wait_pending_flip :
      (fuel crtc : ℕ) (rs : List ReadResult) (s : State W)
      → 0 < s.nesting crtc
      → d.flip_pending s.world crtc ≡ false
      → (wait_pending_flip d (suc fuel) crtc rs s >>= handle_deferred d fuel crtc) ≡ some s
  unfolding wait_pending_flip handle_deferred wait_read wait_signalled
  handle_deferred-wait_pending_flip fuel crtc rs s outer idle = rw waited lowered
    where
      raised : State W
      raised = record s { nesting = update s.nesting crtc (s.nesting crtc + 1) }

      waited : wait_pending_flip d (suc fuel) crtc rs s ≡ some raised
      waited = ground arith

      tests : ((raised.nesting crtc == 0) ≡ false) × ((raised.nesting crtc - 1 == 0) ≡ false)
      tests = ground arith

      lowered : handle_deferred d fuel crtc raised ≡ some s
      lowered =
          rw (tests.0)
            (rw (tests.1) (ap (λ n. some (record s { nesting = n })) (fun_ext λ j. ground arith)))
