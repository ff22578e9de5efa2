-- ===== src/Coverage/Best.antt =====
-- src/amdgpu_video.c: the loop of amdgpu_crtc_covering_box over the CRTCs of a screen.
use xf86_video_amdgpu.Prelude.{
  ℕ, ◌≡◌, refl, ap, sym, ◌∙◌, ◌⊎◌, inl, inr, Bool, true, false, ◌&&◌, Option, none, some, List, [],
  ◌∷◌, if◌then◌else◌, arith, Bool-cases,
}
use xf86_video_amdgpu.Prelude.Int.{ℤ, pos, ◌≤ℤ◌, ltb_ℤ}
use xf86_video_amdgpu.Coverage.{
  Box, RrCrtc, Screen, crtc_on, coverage, is_primary, is_better, covering_loop, crtc_covering_box,
}

abbrev pub Best : Type 0
Best = Option RrCrtc × ℤ

abbrev pub IsIn : RrCrtc → List RrCrtc → Type 0
IsIn c [] = ⊥
IsIn c (d ∷ ds) = (c ≡ d) ⊎ IsIn c ds

abbrev pub IsPrimary : Option ℕ → Option RrCrtc → Type 0
IsPrimary primary none = ⊥
IsPrimary primary (some c) = is_primary primary c ≡ true

module _ (primary : Option ℕ) (is_xf86 : Bool) (box : Box) where
  -- No CRTC of the list that is on covers more than the best one, and the primary one wins a tie.
  abbrev pub AreBelow : List RrCrtc → Best → Type 0
  AreBelow [] r = Unit {0}
  AreBelow (c ∷ cs) r =
      ((crtc_on c is_xf86 ≡ true)
        → (coverage box c ≤ℤ r.1)
          × ((is_primary primary c ≡ true) → (r.1 ≤ℤ coverage box c) → IsPrimary primary r.0))
      × AreBelow cs r

  step : RrCrtc → Best → Best
  step c best =
      if crtc_on c is_xf86 && is_better primary best.1 (coverage box c) c
      then (some c, coverage box c)
      else best

  abbrev IsStep : RrCrtc → Best → Best → Type 0
  IsStep c best r =
      (best.1 ≤ℤ r.1)
      × ((r.1 ≤ℤ best.1) → IsPrimary primary best.0 → IsPrimary primary r.0)
      × ((crtc_on c is_xf86 ≡ true)
          → (coverage box c ≤ℤ r.1)
            × ((is_primary primary c ≡ true) → (r.1 ≤ℤ coverage box c) → IsPrimary primary r.0))
      × ((r ≡ best) ⊎ ((r ≡ (some c, coverage box c)) × (crtc_on c is_xf86 ≡ true)))

  IsStep-taken :
      (c : RrCrtc) (best : Best)
      → crtc_on c is_xf86 ≡ true
      → best.1 ≤ℤ coverage box c
      → ((coverage box c ≤ℤ best.1) → is_primary primary c ≡ true)
      → IsStep c best (some c, coverage box c)
  IsStep-taken c best on up tie =
      (up, λ le p. tie le, λ _. (omega arith, λ p le. p), inr (refl, on))

  IsStep-kept :
      (c : RrCrtc) (best : Best)
      → ((crtc_on c is_xf86 ≡ true)
          → (coverage box c ≤ℤ best.1)
            × ((is_primary primary c ≡ true) → (best.1 ≤ℤ coverage box c) → ⊥))
      → IsStep c best best
  IsStep-kept c best below =
      (omega arith, λ le p. p, λ on. ((below on).0, λ p le. absurd ((below on).1 p le)), inl refl)

  step_lem : (c : RrCrtc) (best : Best) → IsStep c best (step c best)
  unfolding step is_better
  step_lem c best = elim (Bool-cases (crtc_on c is_xf86)) [
    | inr off ↦
        let kept : step c best ≡ best = rw off refl in
        rw kept (IsStep-kept c best (λ on. absurd (true≢false (sym on ∙ off))))
    | inl on ↦ elim (Bool-cases (ltb_ℤ best.1 (coverage box c))) [
      | inl up ↦
          let taken : step c best ≡ (some c, coverage box c) = rw (on, step) (rw up refl) in
          rw taken (IsStep-taken c best on (ground arith) (λ le. absurd (ground arith)))
      | inr down ↦ elim (Bool-cases (is_primary primary c)) [
        | inr other ↦
            let kept : step c best ≡ best = rw (on, step) (rw down (rw other refl)) in
            rw kept (IsStep-kept c best (λ _. (ground arith, λ p le. true≢false (sym p ∙ other))))
        | inl first ↦ elim (Bool-cases (ltb_ℤ (coverage box c) best.1)) [
          | inr same ↦
              let taken : step c best ≡ (some c, coverage box c) =
                rw (on, step) (rw down (rw first (rw same refl))) in
              rw taken (IsStep-taken c best on (ground arith) (λ le. first))
          | inl differs ↦
              let kept : step c best ≡ best =
                rw (on, step) (rw down (rw first (rw differs refl))) in
              rw kept (IsStep-kept c best (λ _. (ground arith, λ p le. absurd (ground arith))))
        ]
      ]
    ]
  ]
    where
      true≢false : true ≡ false → ⊥
      true≢false e = cc

  abbrev IsLoop : List RrCrtc → Best → Best → Type 0
  IsLoop cs best r =
      (best.1 ≤ℤ r.1)
      × ((r.1 ≤ℤ best.1) → IsPrimary primary best.0 → IsPrimary primary r.0)
      × AreBelow cs r
      × ((r ≡ best)
          ⊎ ((c : RrCrtc) × (r ≡ (some c, coverage box c))
              × IsIn c cs
              × (crtc_on c is_xf86 ≡ true)))

  chain :
      (c : RrCrtc) (cs : List RrCrtc) (best s r : Best)
      → IsStep c best s
      → IsLoop cs s r
      → IsLoop (c ∷ cs) best r
  chain c cs best s r (up, tie, here, from) (up', tie', below, from') = (
    omega arith,
    λ le p. tie' (omega arith) (tie (omega arith) p),
    (
      λ on.
          let (covers, first) = here on in
          (omega arith, λ p le. tie' (omega arith) (first p (omega arith))),
      below,
    ),
    came from from',
  )
    where
      came :
          (s ≡ best) ⊎ ((s ≡ (some c, coverage box c)) × (crtc_on c is_xf86 ≡ true))
          → (r ≡ s)
            ⊎ ((d : RrCrtc) × (r ≡ (some d, coverage box d))
                × IsIn d cs
                × (crtc_on d is_xf86 ≡ true))
          → (r ≡ best)
            ⊎ ((d : RrCrtc) × (r ≡ (some d, coverage box d))
                × IsIn d (c ∷ cs)
                × (crtc_on d is_xf86 ≡ true))
      came _ (inr (d, eq, there, on)) = inr (d, eq, inr there, on)
      came (inl old) (inl same) = inl (same ∙ old)
      came (inr (new, on)) (inl same) = inr (c, same ∙ new, inl refl, on)

  covering_loop_lem :
      (cs : List RrCrtc) (best : Best) → IsLoop cs best (covering_loop primary is_xf86 box cs best)
  unfolding covering_loop step
  covering_loop_lem [] best = (omega arith, λ le p. p, tt, inl refl)
  covering_loop_lem (c ∷ cs) best =
      chain c cs best (step c best) (covering_loop primary is_xf86 box cs (step c best))
        (step_lem c best) (covering_loop_lem cs (step c best))

-- The CRTC that amdgpu_crtc_covering_box gives is on and one of the screen's; none that is on covers
-- more of the box, and if the primary one covers as much, it is the primary one. If the function
-- gives none, no CRTC that is on covers a part of the box, and the coverage of the primary one, if it
-- is on, is below 0.
pub crtc_covering_box-AreBelow :
    (s : Screen) (box : Box) (is_xf86 : Bool) (cs : List RrCrtc)
    → s.crtcs ≡ some cs
    → ((crtc_covering_box s box is_xf86 ≡ none) × AreBelow s.primary is_xf86 box cs (none, pos 0))
      ⊎ ((c : RrCrtc) × (crtc_covering_box s box is_xf86 ≡ some c)
          × IsIn c cs
          × (crtc_on c is_xf86 ≡ true)
          × AreBelow s.primary is_xf86 box cs (some c, coverage box c))
unfolding crtc_covering_box
crtc_covering_box-AreBelow s box is_xf86 cs ready =
    let (up, tie, below, from) = covering_loop_lem s.primary is_xf86 box cs (none, pos 0) in
    elim from [
      | inl empty ↦
          inl (rw (ready, crtc_covering_box) (ap (λ (b : Best). b.0) empty), rw empty at below)
      | inr (c, found, there, on) ↦ inr (
        c,
        rw (ready, crtc_covering_box) (ap (λ (b : Best). b.0) found),
        there,
        on,
        rw found at below,
      )
    ]
