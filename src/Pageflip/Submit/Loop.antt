-- ===== src/Pageflip/Submit/Loop.antt =====
-- src/drmmode_display.c: the loop of amdgpu_do_pageflip over the CRTCs.
use xf86_video_amdgpu.Prelude.{
  ℕ, suc, ◌+◌, ◌*◌, ◌^◌, ◌<◌, ◌≡◌, refl, ap, ◌∙◌, ◌⊎◌, inl, inr, true, false, Option, some, List,
  [], ◌∷◌, arith, Bool-cases, length,
}
use xf86_video_amdgpu.Framebuffer.{Slot}
use xf86_video_amdgpu.DrmQueue.{Driver, State, queue_alloc, queue_error}
use xf86_video_amdgpu.Pageflip.Completion.{HasSlots}
use xf86_video_amdgpu.Pageflip.Submit.{
  Screen, World, Submission, Setting, Progress, Round, goes_on, fails, allocate, flip_crtc,
  flip_crtcs, is_flipped, undo,
}
use xf86_video_amdgpu.Pageflip.Submit.Account.{IsPixmap, intact, CanShow}
use xf86_video_amdgpu.Pageflip.Submit.Rounds.{
  Each, flipped, IsOpen, IsFailed, IsRound, count_up_lem, allocated-IsRound,
}

module _ (other : Driver World) (a : Submission) (e : Setting) (σs : List Slot) (v₀ : Screen) where
  -- What the flip of a CRTC needs of the state before the loop.
  abbrev pub IsReady : (crtc : ℕ) → Type 0
  IsReady crtc = HasSlots σs e.address crtc × CanShow e σs crtc v₀

  flip_crtc-IsRound :
      (fb crtc n : ℕ) (s : State World) (v : Screen)
      → is_flipped other a e crtc ≡ true
      → IsReady crtc
      → IsPixmap σs v₀.flips.fbs fb
      → s.queue_seq + 2 < 2 ^ 64
      → suc n < 2 ^ 31
      → IsOpen other a e σs v₀ n n s v
      → (r : Round) × (flip_crtc other a e fb crtc (intact s v) ≡ some r)
        × IsRound other a e σs v₀ crtc n s r
  unfolding flip_crtc allocate queue_alloc undo
  flip_crtc-IsRound fb crtc n s v flips (slots, show) front room small h =
      elim (Bool-cases (e.entry_memory crtc)) [
        | inl memory ↦
            allocated-IsRound other a e σs v₀ fb crtc n s v memory flips slots show front room small
              h
        | inr full ↦
            let (v₁, counts, h₁) = count_up_lem other a e σs v₀ n n s v h small in
            (
              fails (intact s v₁) queue_error,
              simp (flips, full, counts),
              inr (intact s v₁, queue_error, refl, (s, v₁, refl, refl, h₁)),
            )
      ]

  abbrev pub IsEnd : (m : ℕ) → Round × Option ℕ → Type 0
  IsEnd m x =
      ((s' : State World) × (v' : Screen) × (last : Option ℕ) × (x ≡ (goes_on (intact s' v'), last))
        × IsOpen other a e σs v₀ m m s' v')
      ⊎ ((crtc : ℕ) × (i : ℕ) × (p : Progress) × (seq : ℕ) × (x ≡ (fails p seq, some crtc))
          × HasSlots σs e.address crtc
          × (i < m)
          × IsFailed other a e σs v₀ crtc i p seq)

  pub flip_crtc_skipped :
      (fb crtc : ℕ) (p : Progress)
      → is_flipped other a e crtc ≡ false
      → flip_crtc other a e fb crtc p ≡ some (goes_on p)
  unfolding flip_crtc
  flip_crtc_skipped fb crtc p skipped = simp skipped

  pub flip_crtcs_on :
      (fb crtc : ℕ) (crtcs : List ℕ) (last : Option ℕ) (p p' : Progress)
      → flip_crtc other a e fb crtc p ≡ some (goes_on p')
      → flip_crtcs other a e fb (crtc ∷ crtcs) last p ≡ flip_crtcs other a e fb crtcs (some crtc) p'
  unfolding flip_crtcs
  flip_crtcs_on fb crtc crtcs last p p' on = rw (on, flip_crtcs) refl

  flip_crtcs_off :
      (fb crtc : ℕ) (crtcs : List ℕ) (last : Option ℕ) (p p' : Progress) (seq : ℕ)
      → flip_crtc other a e fb crtc p ≡ some (fails p' seq)
      → flip_crtcs other a e fb (crtc ∷ crtcs) last p ≡ some (fails p' seq, some crtc)
  unfolding flip_crtcs
  flip_crtcs_off fb crtc crtcs last p p' seq off = rw (off, flip_crtcs) refl

  pub flip_crtcs-IsEnd :
      (fb : ℕ) (crtcs : List ℕ) (last : Option ℕ) (n m : ℕ) (s : State World) (v : Screen)
      → Each IsReady crtcs
      → IsPixmap σs v₀.flips.fbs fb
      → s.queue_seq + 2 * length crtcs < 2 ^ 64
      → n + length crtcs < 2 ^ 31
      → IsOpen other a e σs v₀ n n s v
      → n + flipped other a e crtcs ≡ m
      → (x : Round × Option ℕ) × (flip_crtcs other a e fb crtcs last (intact s v) ≡ some x)
        × IsEnd m x
  unfolding flip_crtcs
  flip_crtcs-IsEnd fb [] last n m s v ready front room small h total =
      let same : m ≡ n = omega arith in (_, refl, inl (s, v, last, refl, rw same h))
  flip_crtcs-IsEnd fb (crtc ∷ crtcs) last n m s v ready front room small h total =
      elim (Bool-cases (is_flipped other a e crtc)) [
        | inr skipped ↦
            let (x, runs, end) =
              flip_crtcs-IsEnd fb crtcs (some crtc) n m s v ready.1 front (omega arith)
                (omega arith) h (ground arith) in
            (
              x,
              flip_crtcs_on fb crtc crtcs last (intact s v) (intact s v)
                    (flip_crtc_skipped fb crtc (intact s v) skipped)
                  ∙ runs,
              end,
            )
        | inl flips ↦
            let (r, runs, round) =
              flip_crtc-IsRound fb crtc n s v flips ready.0 front (omega arith) (omega arith) h in
            elim round [
              | inl (s', v', on, above, h') ↦
                  let (x, runs', end) =
                    flip_crtcs-IsEnd fb crtcs (some crtc) (suc n) m s' v' ready.1 front
                      (omega arith) (omega arith) h' (ground arith) in
                  (
                    x,
                    flip_crtcs_on fb crtc crtcs last (intact s v) (intact s' v') (runs ∙ ap some on)
                        ∙ runs',
                    end,
                  )
              | inr (p, seq, off, failed) ↦ (
                (fails p seq, some crtc),
                flip_crtcs_off fb crtc crtcs last (intact s v) p seq (runs ∙ ap some off),
                inr (crtc, n, p, seq, refl, ready.0.0, ground arith, failed),
              )
            ]
      ]
