-- ===== src/Present/Flips.antt =====
-- src/amdgpu_present.c: amdgpu_present_flip and amdgpu_present_unflip on top of amdgpu_do_pageflip.
use xf86_video_amdgpu.Prelude.{
  ℕ, ◌+◌, ◌*◌, ◌^◌, ◌<◌, ◌≡◌, refl, ap, sym, ◌∙◌, ◌⊎◌, inl, inr, Bool, true, false, ◌&&◌, not,
  Option, none, some, List, arith, Bool-cases, length,
}
use xf86_video_amdgpu.Framebuffer.{Slot, ok}
use xf86_video_amdgpu.Framebuffer.Counting.{IsCounted}
use xf86_video_amdgpu.DrmQueue.{Driver, State}
use xf86_video_amdgpu.DrmQueue.Invariant.{IsValid}
use xf86_video_amdgpu.Pageflip.Submit.{Screen, World, Submission, do_pageflip, pending_in}
use xf86_video_amdgpu.Pageflip.Submit.Account.{IsPixmap}
use xf86_video_amdgpu.Pageflip.Submit.Rounds.{owed, Each, flipped}
use xf86_video_amdgpu.Pageflip.Submit.Loop.{IsReady}
use xf86_video_amdgpu.Pageflip.Submit.Outcome.{IsSettled, do_pageflip-IsDone}
use xf86_video_amdgpu.Present.{
  Server, Query, Grant, Flipped, PresentEvent, flushes, check_flip, check_unflip, set_screen_vrr,
  setting_of, submission_of, new_event, emit, vrr_on, flip, unflip, modeset,
}
use xf86_video_amdgpu.Present.Checks.{has, check_flip-flipped, check_unflip-flipped}
use xf86_video_amdgpu.Present.Same.{
  SameCrtcs, SameCrtcs-trans, set_screen_vrr-SameCrtcs, flipped-SameCrtcs, check_flip-server,
}

module _ (other : Driver World) (g : Grant) (σs : List Slot) (v₀ : Screen) where
  -- Nothing was submitted, or a submission has ended as amdgpu_do_pageflip promises.
  abbrev pub IsPresented : Submission → State World → Server → Flipped → Type 0
  IsPresented a t s r =
      ((r.result ≡ false) × (r.state ≡ record t { world = ok v₀ }))
      ⊎ ((t' : State World) × (u : Screen) × (r.state ≡ record t' { world = ok u })
          × IsCounted σs u.flips.fbs
          × IsSettled other a g.setting σs v₀ t' u
          × (r.result ≡ true
              → owed g.setting.address t'.queue ≡ flipped other a (setting_of s g.setting) s.crtcs))

  abbrev pub IsFree : State World → Type 0
  IsFree t =
      (v₀.flips.flipdata g.setting.address ≡ none)
      × (owed g.setting.address t.queue ≡ 0)
      × IsValid t

  submitted :
      (a : Submission) (s s' : Server) (t : State World)
      → SameCrtcs s s'
      → IsCounted σs v₀.flips.fbs
      → IsFree t
      → Each (IsReady other a g.setting σs v₀) s.crtcs
      → ((fb : ℕ) → a.front_fb ≡ some fb → IsPixmap σs v₀.flips.fbs fb)
      → t.queue_seq + 2 * length s.crtcs < 2 ^ 64
      → length s.crtcs < 2 ^ 31
      → 0 < flipped other a (setting_of s g.setting) s.crtcs
      → (b : Bool) × (t' : State World) × (u : Screen) × (do_pageflip other a
            (setting_of s' g.setting)
            s'.crtcs
            (record t { world = ok v₀ })
          ≡ some (b, record t' { world = ok u }))
        × IsCounted σs u.flips.fbs
        × IsSettled other a g.setting σs v₀ t' u
        × (b ≡ true
            → owed g.setting.address t'.queue ≡ flipped other a (setting_of s g.setting) s.crtcs)
  submitted a s s' t same c (unused, none_owed, valid) ready front room small some_flip =
      let total = flipped-SameCrtcs other a g.setting s s' s.crtcs same in
      let (b, t', u, runs, counted, settled, owes) =
        do_pageflip-IsDone other a (setting_of s' g.setting) σs v₀ s.crtcs t c unused none_owed
          valid ready front room small (rw total some_flip) in
      (b, t', u, rw (same.same_list) runs, counted, settled, λ h. owes h ∙ total)

  vrr_on-SameCrtcs : (s : Server) → SameCrtcs s (vrr_on other g s)
  vrr_on-SameCrtcs s = elim (Bool-cases (g.vrr_support && g.vrr_window s.flip_window)) [
    | inl on ↦ rw on (set_screen_vrr-SameCrtcs g.vrr_property g.vrr_accepts true s.crtcs s)
    | inr off ↦
        rw off (record { same_list = refl; same_flips = λ c. refl; same_tear_free = λ c. refl })
  ]

  -- The server when amdgpu_do_pageflip is called.
  abbrev granted : (event_id : ℕ) → Query → Server → Server
  granted event_id q s = emit flushes (
      vrr_on other g (
        new_event g (record { event_id = event_id; unflip = false })
          (check_flip (record q { window = s.flip_window }) s).1))

  granted-SameCrtcs :
      (event_id : ℕ) (q : Query) (s : Server)
      → (check_flip (record q { window = s.flip_window }) s).0 ≡ true
      → SameCrtcs s (granted event_id q s)
  granted-SameCrtcs event_id q s can =
      let v : PresentEvent = record { event_id = event_id; unflip = false } in
      let s₁ : Server = new_event g v (check_flip (record q { window = s.flip_window }) s).1 in
      let same₁ : SameCrtcs s s₁ =
        rw (check_flip-server (record q { window = s.flip_window }) s can)
          (record { same_list = refl; same_flips = λ c. refl; same_tear_free = λ c. refl }) in
      SameCrtcs-trans same₁ (
        SameCrtcs-trans (vrr_on-SameCrtcs s₁)
          (record { same_list = refl; same_flips = λ c. refl; same_tear_free = λ c. refl }))

  flip_answered :
      (event_id target_msc : ℕ) (sync_flip : Bool) (q : Query) (s : Server) (t t' : State World)
      (b : Bool)
      → ((check_flip (record q { window = s.flip_window }) s).0 && g.memory) ≡ true
      → do_pageflip other
          (submission_of g event_id (some q.crtc) (not sync_flip) target_msc q.fb)
          (setting_of (granted event_id q s) g.setting)
          (granted event_id q s).crtcs
          t
        ≡ some (b, t')
      → (r : Flipped) × (flip other g event_id target_msc sync_flip q s t ≡ some r)
        × (r.result ≡ b)
        × (r.state ≡ t')
  unfolding flip
  flip_answered event_id target_msc sync_flip q s t t' true allowed runs = (
    record {
      result = true;
      server = record (granted event_id q s) { present_flipping = true };
      state = t';
    },
    simp (allowed, runs),
    refl,
    refl,
  )
  flip_answered event_id target_msc sync_flip q s t t' false allowed runs = (
    record { result = false; server = granted event_id q s; state = t' },
    simp (allowed, runs),
    refl,
    refl,
  )

  -- amdgpu_present_flip on a CRTC of the screen, with every framebuffer counted, the flip's address not
  -- in use, no update of a scanout pixmap pending and the framebuffers held by their pixmaps: it
  -- always returns. Either it returns FALSE with the queue and the flips as they were, or
  -- amdgpu_do_pageflip has settled the flip: as many entries as the flip counts, or one call of the
  -- abort callback and the flip freed, with every framebuffer counted. If it returns TRUE, there is
  -- an entry for each CRTC that is flipped.
  pub flip-IsPresented :
      (event_id target_msc : ℕ) (sync_flip : Bool) (q : Query) (s : Server) (t : State World)
      → IsCounted σs v₀.flips.fbs
      → IsFree t
      → Each
          (IsReady other
            (submission_of g event_id (some q.crtc) (not sync_flip) target_msc q.fb)
            g.setting
            σs
            v₀)
          s.crtcs
      → ((fb : ℕ) → q.fb ≡ some fb → IsPixmap σs v₀.flips.fbs fb)
      → t.queue_seq + 2 * length s.crtcs < 2 ^ 64
      → length s.crtcs < 2 ^ 31
      → has q.crtc s.crtcs ≡ true
      → (r : Flipped) × (flip other g event_id target_msc sync_flip q s (record t { world = ok v₀ })
          ≡ some r)
        × IsPresented (submission_of g event_id (some q.crtc) (not sync_flip) target_msc q.fb) t s r
  unfolding flip
  flip-IsPresented event_id target_msc sync_flip q s t c free ready front room small known =
      let q' : Query = record q { window = s.flip_window } in
      elim (Bool-cases ((check_flip q' s).0 && g.memory)) [
        | inr refused ↦ (
          record {
            result = false;
            server = (check_flip q' s).1;
            state = record t { world = ok v₀ };
          },
          simp refused,
          inl (refl, refl),
        )
        | inl allowed ↦
            let can : (check_flip q' s).0 ≡ true = ground arith in
            let a : Submission =
              submission_of g event_id (some q.crtc) (not sync_flip) target_msc q.fb in
            let (b, t', u, runs, counted, settled, owes) =
              submitted a s (granted event_id q s) t (granted-SameCrtcs event_id q s can) c free
                ready front room small (check_flip-flipped other a g.setting q' s refl known can) in
            let (r, flips, result, state) =
              flip_answered event_id target_msc sync_flip q s (record t { world = ok v₀ })
                (record t' { world = ok u }) b allowed runs in
            (r, flips, inr (t', u, state, counted, settled, λ h. owes (sym result ∙ h)))
      ]

  -- The server when amdgpu_do_pageflip is called for an unflip.
  abbrev reset : Server → Server
  reset s = set_screen_vrr g.vrr_property g.vrr_accepts false s.crtcs s

  abbrev unflip_granted : (event_id : ℕ) → Server → Server
  unflip_granted event_id s =
      emit flushes (new_event g (record { event_id = event_id; unflip = true }) (reset s))

  unflip_answered :
      (event_id : ℕ) (fb : Option ℕ) (s : Server) (t t' : State World) (b : Bool)
      → (check_unflip (pending_in t.world) (reset s) && g.memory) ≡ true
      → do_pageflip other
          (submission_of g event_id none g.async_capable 0 fb)
          (setting_of (unflip_granted event_id s) g.setting)
          (unflip_granted event_id s).crtcs
          t
        ≡ some (b, t')
      → (r : Flipped) × (unflip other g event_id fb s t ≡ some r)
        × (r.result ≡ b)
        × (r.state ≡ t')
        × (b ≡ false → r.server.present_flipping ≡ false)
  unfolding unflip modeset
  unflip_answered event_id fb s t t' true allowed runs = (
    record { result = true; server = unflip_granted event_id s; state = t' },
    simp (allowed, runs),
    refl,
    refl,
    λ h. cc,
  )
  unflip_answered event_id fb s t t' false allowed runs = (
    record {
      result = false;
      server = modeset other g event_id (unflip_granted event_id s);
      state = t';
    },
    simp (allowed, runs),
    refl,
    refl,
    λ h. refl,
  )

  check_unflip-reset :
      (a : Submission) (s : Server)
      → a.ref_crtc ≡ none
      → check_unflip (pending_in (ok v₀)) (reset s) ≡ true
      → 0 < flipped other a (setting_of s g.setting) s.crtcs
  check_unflip-reset a s no_ref can =
      let same : SameCrtcs s (reset s) =
        set_screen_vrr-SameCrtcs g.vrr_property g.vrr_accepts false s.crtcs s in
      let positive =
        check_unflip-flipped other a g.setting (pending_in (ok v₀)) (reset s) no_ref can in
      let list : flipped other a (setting_of (reset s) g.setting) (reset s).crtcs
          ≡ flipped other a (setting_of s g.setting) s.crtcs =
        ap (flipped other a (setting_of (reset s) g.setting)) same.same_list
        ∙ flipped-SameCrtcs other a g.setting s (reset s) s.crtcs same in
      omega (arith, positive, list)

  -- amdgpu_present_unflip, with every framebuffer counted, the flip's address not in use, no update of
  -- a scanout pixmap pending and the framebuffers held by their pixmaps, always returns. Either it
  -- submits nothing and leaves the queue and the flips as they were, or amdgpu_do_pageflip has
  -- settled the flip: as many entries as the flip counts, or one call of the abort callback and the
  -- flip freed, with every framebuffer counted. If it queues no flip back to the screen's pixmap,
  -- the screen is not flipping for Present any more.
  pub unflip-IsPresented :
      (event_id : ℕ) (fb : Option ℕ) (s : Server) (t : State World)
      → IsCounted σs v₀.flips.fbs
      → IsFree t
      → Each
          (IsReady other (submission_of g event_id none g.async_capable 0 fb) g.setting σs v₀)
          s.crtcs
      → ((p : ℕ) → fb ≡ some p → IsPixmap σs v₀.flips.fbs p)
      → t.queue_seq + 2 * length s.crtcs < 2 ^ 64
      → length s.crtcs < 2 ^ 31
      → (r : Flipped) × (unflip other g event_id fb s (record t { world = ok v₀ }) ≡ some r)
        × IsPresented (submission_of g event_id none g.async_capable 0 fb) t s r
        × (r.result ≡ false → r.server.present_flipping ≡ false)
  unfolding unflip modeset
  unflip-IsPresented event_id fb s t c free ready front room small =
      elim (Bool-cases (check_unflip (pending_in (ok v₀)) (reset s) && g.memory)) [
        | inr refused ↦ (
          record {
            result = false;
            server = modeset other g event_id (reset s);
            state = record t { world = ok v₀ };
          },
          simp refused,
          inl (refl, refl),
          λ h. refl,
        )
        | inl allowed ↦
            let a : Submission = submission_of g event_id none g.async_capable 0 fb in
            let same : SameCrtcs s (unflip_granted event_id s) =
              SameCrtcs-trans
                (set_screen_vrr-SameCrtcs g.vrr_property g.vrr_accepts false s.crtcs s)
                (record { same_list = refl; same_flips = λ c. refl; same_tear_free = λ c. refl }) in
            let (b, t', u, runs, counted, settled, owes) =
              submitted a s (unflip_granted event_id s) t same c free ready front room small
                (check_unflip-reset a s refl (ground arith)) in
            let (r, flips, result, state, ended) =
              unflip_answered event_id fb s (record t { world = ok v₀ })
                (record t' { world = ok u }) b allowed runs in
            (
              r,
              flips,
              inr (t', u, state, counted, settled, λ h. owes (sym result ∙ h)),
              λ h. ended (sym result ∙ h),
            )
      ]
