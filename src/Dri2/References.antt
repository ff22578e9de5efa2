-- ===== src/Dri2/References.antt =====
-- src/amdgpu_dri2.c: the references to buffers over the whole of amdgpu_dri2_frame_event_handler.
use xf86_video_amdgpu.Prelude.{
  ℕ, ◌+◌, ◌-◌, ◌^◌, ◌≡◌, refl, ap, ◌∙◌, ◌⊎◌, inl, inr, Bool, true, Option, none, some, ◌==◌, arith,
  Bool-cases,
}
use xf86_video_amdgpu.Framebuffer.Counting.{points}
use xf86_video_amdgpu.DrmQueue.{Driver, State}
use xf86_video_amdgpu.Msc.{u32}
use xf86_video_amdgpu.Pageflip.Submit.{World, do_pageflip}
use xf86_video_amdgpu.Present.{Server, setting_of}
use xf86_video_amdgpu.Dri2.{
  Drawable, FrameEvent, drops_pixmap, frees_buffer, Dri2, emit, unref_buffer, destroy_buffer,
}
use xf86_video_amdgpu.Dri2.Handlers.{
  Grant, frame_event_abort, frame_event_handler, delta_of, or_zero, swap_submission,
}
use xf86_video_amdgpu.Dri2.Steps.{completions, completions-emit}
use xf86_video_amdgpu.Dri2.Events.{dispatch-IsAnswered}

-- One reference to a buffer is dropped, and clients are told nothing.
abbrev Drops : Option ℕ → Dri2 → Dri2 → Type 0
Drops b d d' =
    ((x : ℕ) → (d'.buffers x).refcnt ≡ (d.buffers x).refcnt - points b x)
    × (completions d'.effects ≡ completions d.effects)
    × (d'.server ≡ d.server)

unref_buffer-Drops : (b : Option ℕ) (d : Dri2) → Drops b d (unref_buffer b d)
unfolding unref_buffer destroy_buffer
unref_buffer-Drops none d = (λ x. omega arith, refl, refl)
unref_buffer-Drops (some b) d = elim (Bool-cases ((d.buffers b).refcnt == 0)) [
  | inl gone ↦ simp gone (λ x. ground arith, refl, refl)
  | inr held ↦ elim (Bool-cases ((d.buffers b).refcnt == 1)) [
    | inr more ↦ simp (held, more) (λ x. ground arith, refl, refl)
    | inl last ↦
        simp (held, last)
          (
            λ x. ground arith,
            completions-emit (frees_buffer b) (emit (drops_pixmap (d.buffers b).pixmap) d)
                ∙ omega (arith, completions-emit (drops_pixmap (d.buffers b).pixmap) d),
            refl,
          )
  ]
]

-- Both references of the event are dropped.
frame_event_abort-refcnt :
    (other : Driver World) (g : Grant) (v : FrameEvent) (d : Dri2)
    → ((x : ℕ)
        → ((frame_event_abort other g v d).buffers x).refcnt
          ≡ (d.buffers x).refcnt - (points v.front x + points v.back x))
      × (completions (frame_event_abort other g v d).effects ≡ completions d.effects)
      × ((frame_event_abort other g v d).server ≡ d.server)
unfolding frame_event_abort
frame_event_abort-refcnt other g v d =
    let (refs, told, server) = unref_buffer-Drops v.front d in
    let (refs', told', server') = unref_buffer-Drops v.back (unref_buffer v.front d) in
    (λ x. omega (arith, refs x, refs' x), told' ∙ told, server' ∙ server)

-- Where the drawable of a frame event exists and amdgpu_do_pageflip returns, the handler returns with
-- the event's reference to each of its buffers dropped and every other count as it was. The client
-- has been told of one completion; or of none, and then amdgpu_do_pageflip has returned TRUE, the
-- event queue is as it left it, and the screen is flipping for DRI2.
pub frame_event_handler-IsAnswered :
    (other : Driver World) (g : Grant) (crtc seq usec : ℕ) (v : FrameEvent) (d : Dri2)
    (t t₁ : State World) (draw : Drawable) (b : Bool)
    → d.drawables v.drawable_id ≡ some draw
    → do_pageflip other
        (swap_submission g v.client crtc (u32 (v.frame + 2 ^ 32 - delta_of draw crtc d)))
        (setting_of d.server g.setting)
        d.server.crtcs
        t
      ≡ some (b, t₁)
    → (d' : Dri2) × (t' : State World) × (frame_event_handler other g crtc seq usec v d t
        ≡ some (d', t'))
      × ((x : ℕ)
          → (d'.buffers x).refcnt ≡ (d.buffers x).refcnt - (points v.front x + points v.back x))
      × ((completions d'.effects ≡ completions d.effects + 1)
          ⊎ ((completions d'.effects ≡ completions d.effects)
              × (d'.server.dri2_flipping ≡ true)
              × (b ≡ true)
              × (t' ≡ t₁)))
unfolding frame_event_handler
frame_event_handler-IsAnswered other g crtc seq usec v d t t₁ draw b found runs =
    let (e, t', handled, answered) =
      dispatch-IsAnswered other g crtc (u32 (seq + delta_of draw crtc d)) usec draw v
        (or_zero other g v.front) (or_zero other g v.back) d t t₁ b runs in
    let (refs, told, server) = frame_event_abort-refcnt other g v e in
    let flipping = ap (λ (s : Server). s.dri2_flipping) server in
    (
      frame_event_abort other g v e,
      t',
      simp (found, frame_event_handler, handled),
      (elim answered [
        | inl one ↦ (λ x. refs x ∙ rw (one.same_refs x) refl)
        | inr (none_told, _, _, _) ↦ (λ x. refs x ∙ rw (none_told.same_refs x) refl)
      ]),
      (elim answered [
        | inl one ↦ inl (told ∙ one.told)
        | inr (none_told, flips, done, left) ↦
            inr (omega (arith, told, none_told.told), flipping ∙ flips, done, left)
      ]),
    )
