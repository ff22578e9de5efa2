-- ===== src/Dri2/Events.antt =====
-- src/amdgpu_dri2.c: what amdgpu_dri2_frame_event_handler does with the buffers of an event, and
-- what it tells the client.
use xf86_video_amdgpu.Prelude.{
  ℕ, ◌+◌, ◌-◌, ◌^◌, ◌/◌, ◌%◌, ◌≡◌, refl, ap, ◌∙◌, ◌⊎◌, inl, inr, Bool, true, false, none, some,
  if◌then◌else◌, arith, Bool-cases,
}
use xf86_video_amdgpu.DrmQueue.{Driver, State, update}
use xf86_video_amdgpu.Msc.{u32}
use xf86_video_amdgpu.Pageflip.Submit.{World, do_pageflip}
use xf86_video_amdgpu.Present.{Server, setting_of}
use xf86_video_amdgpu.Dri2.{
  Drawable, EventType, dri2_swap, dri2_flip, dri2_wait_msc, FrameEvent, completes_wait, Dri2,
  can_exchange, can_flip_buffers, exchange_buffers,
}
use xf86_video_amdgpu.Dri2.Handlers.{
  Grant, schedule_flip, swap, dispatch, delta_of, swap_submission,
}
use xf86_video_amdgpu.Dri2.Steps.{
  Steps, Steps-refl, Steps-trans, emit-Steps, can_exchange-Steps, can_flip_buffers-Steps,
  exchange_buffers-Steps, Stays, can_flip_buffers-Stays, exchange_buffers-server,
}

-- What the switch of the handler leaves: one completion told, or a flip queued, whose completion
-- is told by amdgpu_dri2_flip_event_handler. `b` and `t₁` are what amdgpu_do_pageflip returns.
abbrev pub IsAnswered : Dri2 → (b : Bool) (t₁ : State World) → Dri2 → State World → Type 0
IsAnswered d b t₁ d' t' =
    Steps 1 d d' ⊎ (Steps 0 d d' × (d'.server.dri2_flipping ≡ true) × (b ≡ true) × (t' ≡ t₁))

module _ (other : Driver World) (g : Grant) where
  swap-Steps :
      (msc usec : ℕ) (draw : Drawable) (v : FrameEvent) (front back : ℕ) (d : Dri2)
      → Steps 1 d (swap other g msc usec draw v front back d)
  unfolding swap
  swap-Steps msc usec draw v front back d = elim (Bool-cases draw.dri2_can_exchange) [
    | inr no_exchange ↦ simp no_exchange (Steps-trans 0 1 1 (emit-Steps _ d) (emit-Steps _ _) refl)
    | inl asks ↦
        let first : Steps 0 d (can_exchange draw front back d).1 =
          can_exchange-Steps draw front back d in
        elim (Bool-cases (can_exchange draw front back d).0) [
          | inl same ↦
              simp (asks, same)
                (Steps-trans 0 1 1 first
                  (Steps-trans 0 1 1 (exchange_buffers-Steps front back _) (emit-Steps _ _) refl)
                  refl)
          | inr differs ↦
              simp (asks, differs)
                (Steps-trans 0 1 1 first (Steps-trans 0 1 1 (emit-Steps _ _) (emit-Steps _ _) refl)
                  refl)
        ]
  ]

  schedule_flip-Steps :
      (crtc : ℕ) (draw : Drawable) (v : FrameEvent) (d : Dri2) (t t₁ : State World) (b : Bool)
      → do_pageflip other
          (swap_submission g v.client crtc (u32 (v.frame + 2 ^ 32 - delta_of draw crtc d)))
          (setting_of d.server g.setting)
          d.server.crtcs
          t
        ≡ some (b, t₁)
      → (c : Bool) × (d' : Dri2) × (t' : State World) × (schedule_flip other g crtc draw v d t
          ≡ some (c, d', t'))
        × Steps 0 d d'
        × (c ≡ true → (d'.server.dri2_flipping ≡ true) × (b ≡ true) × (t' ≡ t₁))
  unfolding schedule_flip
  schedule_flip-Steps crtc draw v d t t₁ b runs = elim (Bool-cases g.memory) [
    | inr full ↦ (false, d, t, simp full, Steps-refl d, λ h. cc)
    | inl memory ↦
        let d₁ : Dri2 = record d {
          flips =
              update d.flips g.event
                (some (record v { kind = dri2_swap; front = none; back = none }));
        } in
        elim (Bool-cases b) [
          | inl yep ↦ (
            true,
            record d₁ { server = record d₁.server { dri2_flipping = true } },
            t₁,
            simp (memory, runs, yep),
            record { same_refs = λ x. refl; told = omega arith },
            λ h. (refl, yep, refl),
          )
          | inr nope ↦ (
            false,
            d₁,
            t₁,
            simp (memory, runs, nope),
            record { same_refs = λ x. refl; told = omega arith },
            λ h. cc,
          )
        ]
  ]

  -- The switch for the event of a flip, after can_flip.
  dispatch_flip :
      (crtc msc usec : ℕ) (draw : Drawable) (v : FrameEvent) (front back : ℕ) (d d' : Dri2)
      (t t' : State World) (c : Bool)
      → v.kind ≡ dri2_flip
      → (can_flip_buffers draw front back d).0 ≡ true
      → schedule_flip other g crtc draw v (can_flip_buffers draw front back d).1 t
        ≡ some (c, d', t')
      → dispatch other g crtc msc usec draw v front back d t
        ≡ some (
          (if c
              then exchange_buffers front back d'
              else swap other g msc usec draw v front back d'),
          t',
        )
  unfolding dispatch
  dispatch_flip crtc msc usec draw v front back d d' t t' true kind can runs =
      simp (kind, dispatch, can, runs)
  dispatch_flip crtc msc usec draw v front back d d' t t' false kind can runs =
      simp (kind, dispatch, can, runs)

  -- Where amdgpu_do_pageflip returns, the switch answers the client once, or a flip is queued.
  pub dispatch-IsAnswered :
      (crtc msc usec : ℕ) (draw : Drawable) (v : FrameEvent) (front back : ℕ) (d : Dri2)
      (t t₁ : State World) (b : Bool)
      → do_pageflip other
          (swap_submission g v.client crtc (u32 (v.frame + 2 ^ 32 - delta_of draw crtc d)))
          (setting_of d.server g.setting)
          d.server.crtcs
          t
        ≡ some (b, t₁)
      → (d' : Dri2) × (t' : State World) × (dispatch other g crtc msc usec draw v front back d t
          ≡ some (d', t'))
        × IsAnswered d b t₁ d' t'
  unfolding dispatch
  dispatch-IsAnswered crtc msc usec draw v front back d t t₁ b runs = answer v.kind refl
    where
      answer :
          (k : EventType)
          → v.kind ≡ k
          → (d' : Dri2) × (t' : State World) × (dispatch other g crtc msc usec draw v front back d t
              ≡ some (d', t'))
            × IsAnswered d b t₁ d' t'
      answer dri2_wait_msc kind = (
        _,
        t,
        simp (kind, dispatch),
        inl (
            emit-Steps (completes_wait v.client v.drawable_id msc (usec / 1000000) (usec % 1000000))
              d),
      )
      answer dri2_swap kind =
          (_, t, simp (kind, dispatch), inl (swap-Steps msc usec draw v front back d))
      answer dri2_flip kind =
          let can : Dri2 = (can_flip_buffers draw front back d).1 in
          let first : Steps 0 d can = can_flip_buffers-Steps draw front back d in
          let stays : Stays d can = can_flip_buffers-Stays draw front back d in
          elim (Bool-cases (can_flip_buffers draw front back d).0) [
            | inr refused ↦ (
              _,
              t,
              simp (kind, dispatch, refused),
              inl (Steps-trans 0 1 1 first (swap-Steps msc usec draw v front back can) refl),
            )
            | inl allowed ↦
                let (c, d', t', flips, steps, flipping) =
                  schedule_flip-Steps crtc draw v can t t₁ b (rw (stays.0, stays.1) runs) in
                elim (Bool-cases c) [
                  | inl queued ↦ (
                    exchange_buffers front back d',
                    t',
                    dispatch_flip crtc msc usec draw v front back d d' t t' c kind allowed flips
                        ∙ rw queued refl,
                    inr (
                      Steps-trans 0 0 0 first
                          (Steps-trans 0 0 0 steps (exchange_buffers-Steps front back d')
                            (omega arith))
                          (omega arith),
                      ap (λ (s : Server). s.dri2_flipping) (exchange_buffers-server front back d')
                          ∙ (flipping queued).0,
                      (flipping queued).1,
                      (flipping queued).2,
                    ),
                  )
                  | inr failed ↦ (
                    swap other g msc usec draw v front back d',
                    t',
                    dispatch_flip crtc msc usec draw v front back d d' t t' c kind allowed flips
                        ∙ rw failed refl,
                    inl (
                        Steps-trans 0 1 1 first
                          (Steps-trans 0 1 1 steps (swap-Steps msc usec draw v front back d') refl)
                          refl),
                  )
                ]
          ]
