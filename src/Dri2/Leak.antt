-- ===== src/Dri2/Leak.antt =====
-- src/amdgpu_dri2.c: a flip that can_flip allows and that amdgpu_do_pageflip makes on no CRTC.
use xf86_video_amdgpu.Prelude.{
  ℕ, ◌+◌, ◌-◌, ◌^◌, ◌≡◌, refl, inl, inr, true, false, none, some, List, [], ◌∷◌, ◌==◌, arith,
  Bool-cases,
}
use xf86_video_amdgpu.Framebuffer.{Slot, ok}
use xf86_video_amdgpu.Framebuffer.Counting.{IsCounted}
use xf86_video_amdgpu.DrmQueue.{Driver, State, update}
use xf86_video_amdgpu.Msc.{u32}
use xf86_video_amdgpu.Pageflip.Completion.{HasSlots}
use xf86_video_amdgpu.Pageflip.Submit.{Screen, World, Submission, Setting}
use xf86_video_amdgpu.Pageflip.Submit.Rounds.{Each, flipped}
use xf86_video_amdgpu.Pageflip.Submit.Uncounted.{do_pageflip-none_flipped}
use xf86_video_amdgpu.Present.{Server, can_flip, setting_of}
use xf86_video_amdgpu.Dri2.{Drawable, FrameEvent, dri2_swap, Dri2, may_flip}
use xf86_video_amdgpu.Dri2.Handlers.{Grant, schedule_flip, delta_of, swap_submission}

-- A CRTC that can flip uses TearFree, and is not the one given.
abbrev pub Elsewhere : Server → (crtc : ℕ) → ℕ → Type 0
Elsewhere s crtc c = can_flip s c ≡ true → ((s.crtc c).tear_free ≡ true) × ((c == crtc) ≡ false)

module _ (other : Driver World) (g : Grant) where
  Elsewhere-flipped :
      (crtc : ℕ) (a : Submission) (s : Server) (cs : List ℕ)
      → a.ref_crtc ≡ some crtc
      → Each (Elsewhere s crtc) cs
      → flipped other a (setting_of s g.setting) cs ≡ 0
  Elsewhere-flipped crtc a s [] ref h = refl
  Elsewhere-flipped crtc a s (c ∷ cs) ref h = elim (Bool-cases (can_flip s c)) [
    | inr idle ↦ ground (arith, Elsewhere-flipped crtc a s cs ref h.1)
    | inl flips ↦
        let (tear_free, differs) = h.0 flips in
        ground (arith, Elsewhere-flipped crtc a s cs ref h.1)
  ]

  -- can_flip allows a flip if some CRTC can flip, also where that is not the CRTC of the flip and
  -- all that can use TearFree. Then, with every framebuffer counted, the memory and the framebuffer
  -- found: amdgpu_dri2_schedule_flip returns FALSE, no callback is called, and the event of the flip
  -- is still allocated.
  pub schedule_flip-leaks :
      (σs : List Slot) (v₀ : Screen) (crtc fb c : ℕ) (cs : List ℕ) (draw : Drawable)
      (v : FrameEvent) (d : Dri2) (t : State World)
      → may_flip draw d.server ≡ true
      → d.server.crtcs ≡ c ∷ cs
      → Each (Elsewhere d.server crtc) (c ∷ cs)
      → g.memory ≡ true
      → g.setting.flipdata_memory ≡ true
      → g.fb ≡ some fb
      → IsCounted σs v₀.flips.fbs
      → Each (λ i. HasSlots σs g.setting.address i) (c ∷ cs)
      → (d' : Dri2) × (t' : State World) × (u : Screen) × (schedule_flip other g crtc draw v d
            (record t { world = ok v₀ })
          ≡ some (false, d', record t' { world = ok u }))
        × (u.calls ≡ v₀.calls)
        × (d'.flips g.event ≡ some (record v { kind = dri2_swap; front = none; back = none }))
  unfolding schedule_flip
  schedule_flip-leaks σs v₀ crtc fb c cs draw v d t may list elsewhere memory flip_memory found
        counted slots =
      let a : Submission =
        swap_submission g v.client crtc (u32 (v.frame + 2 ^ 32 - delta_of draw crtc d)) in
      let e : Setting = setting_of d.server g.setting in
      let (t', u, runs, calls, _) =
        do_pageflip-none_flipped other a e σs v₀ fb c cs t counted flip_memory found slots
          (Elsewhere-flipped crtc a d.server (c ∷ cs) refl elsewhere) in
      let d' : Dri2 = record d {
        flips =
            update d.flips g.event
              (some (record v { kind = dri2_swap; front = none; back = none }));
      } in
      (d', t', u, simp (memory, list, runs), calls, ground arith)
