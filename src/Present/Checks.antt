-- ===== src/Present/Checks.antt =====
-- src/amdgpu_present.c: what the tests before a flip and an unflip guarantee to amdgpu_do_pageflip.
use xf86_video_amdgpu.Prelude.{
  ℕ, ◌+◌, ◌<◌, ◌≡◌, ap, sym, ◌∙◌, inl, inr, Bool, true, false, none, some, List, [], ◌∷◌,
  if◌then◌else◌, ◌==◌, arith, Bool-cases, Option-cases,
}
use xf86_video_amdgpu.DrmQueue.{Driver}
use xf86_video_amdgpu.Pageflip.Submit.{World, Submission, Setting, is_flipped, is_ref}
use xf86_video_amdgpu.Pageflip.Submit.Rounds.{flipped}
use xf86_video_amdgpu.Present.{
  Server, Query, can_flip, unflip_count, check_unflip, flip_count, check_flip, setting_of,
}

abbrev pub has : ℕ → List ℕ → Bool
has c [] = false
has c (x ∷ xs) = if x == c then true else has c xs

flip_count-can_flip :
    (crtc : ℕ) (s : Server) (cs : List ℕ) (n m : ℕ)
    → flip_count crtc s cs n ≡ some m
    → has crtc cs ≡ true
    → can_flip s crtc ≡ true
unfolding flip_count
flip_count-can_flip crtc s [] n m h k = cc
flip_count-can_flip crtc s (c ∷ cs) n m h k = elim (Bool-cases (can_flip s c)) [
  | inl flips ↦ elim (Bool-cases (c == crtc)) [
    | inl same ↦ let e : c ≡ crtc = ground arith in ap (can_flip s) (sym e) ∙ flips
    | inr other ↦ flip_count-can_flip crtc s cs (n + 1) m (ground arith) (ground arith)
  ]
  | inr idle ↦ elim (Bool-cases (c == crtc)) [
    | inl same ↦ absurd (ground arith)
    | inr other ↦ flip_count-can_flip crtc s cs n m (ground arith) (ground arith)
  ]
]

flipped-has :
    (other : Driver World) (a : Submission) (e : Setting) (crtc : ℕ) (cs : List ℕ)
    → is_flipped other a e crtc ≡ true
    → has crtc cs ≡ true
    → 0 < flipped other a e cs
flipped-has other a e crtc [] f k = cc
flipped-has other a e crtc (c ∷ cs) f k = elim (Bool-cases (c == crtc)) [
  | inl same ↦ let q : c ≡ crtc = ground arith in rw (ap (is_flipped other a e) q ∙ f) (omega arith)
  | inr differs ↦ omega (arith, flipped-has other a e crtc cs f (ground arith))
]

unflip_count-flipped :
    (other : Driver World) (a : Submission) (e : Setting) (pending : ℕ → Bool) (s : Server)
    (cs : List ℕ) (n m : ℕ)
    → a.ref_crtc ≡ none
    → unflip_count pending s cs n ≡ some m
    → m ≡ n + flipped other a (setting_of s e) cs
unfolding unflip_count
unflip_count-flipped other a e pending s [] n m no_ref h = ground arith
unflip_count-flipped other a e pending s (c ∷ cs) n m no_ref h = elim (Bool-cases (can_flip s c)) [
  | inr idle ↦ ground (arith, unflip_count-flipped other a e pending s cs n m no_ref)
  | inl flips ↦ elim (Bool-cases (pending c)) [
    | inl waits ↦ absurd (ground arith)
    | inr free ↦ elim (Bool-cases (s.crtc c).tear_free) [
      | inl t ↦ ground (arith, unflip_count-flipped other a e pending s cs n m no_ref)
      | inr f ↦ ground (arith, unflip_count-flipped other a e pending s cs (n + 1) m no_ref)
    ]
  ]
]

check_flip-flip_count :
    (q : Query) (s : Server)
    → (check_flip q s).0 ≡ true
    → (m : ℕ) × (flip_count q.crtc s s.crtcs 0 ≡ some m)
unfolding check_flip
check_flip-flip_count q s h = elim (Option-cases (flip_count q.crtc s s.crtcs 0)) [
  | inr found ↦ found
  | inl refused ↦ absurd (ground arith)
]

-- A flip that amdgpu_present_check_flip allows, on a CRTC of the screen, has at least one CRTC to
-- flip: its own one, with TearFree or without it.
pub check_flip-flipped :
    (other : Driver World) (a : Submission) (e : Setting) (q : Query) (s : Server)
    → a.ref_crtc ≡ some q.crtc
    → has q.crtc s.crtcs ≡ true
    → (check_flip q s).0 ≡ true
    → 0 < flipped other a (setting_of s e) s.crtcs
check_flip-flipped other a e q s ref known h =
    let (m, counted) = check_flip-flip_count q s h in
    let flips : can_flip s q.crtc ≡ true = flip_count-can_flip q.crtc s s.crtcs 0 m counted known in
    let self : is_ref a q.crtc ≡ true = rw ref (ground arith) in
    flipped-has other a (setting_of s e) q.crtc s.crtcs (rw (flips, self) (ground arith)) known

-- An unflip that amdgpu_present_check_unflip allows has at least one CRTC to flip, although it has
-- no reference CRTC and no CRTC with TearFree is flipped then.
pub check_unflip-flipped :
    (other : Driver World) (a : Submission) (e : Setting) (pending : ℕ → Bool) (s : Server)
    → a.ref_crtc ≡ none
    → check_unflip pending s ≡ true
    → 0 < flipped other a (setting_of s e) s.crtcs
unfolding check_unflip
check_unflip-flipped other a e pending s no_ref h =
    elim (Option-cases (unflip_count pending s s.crtcs 0)) [
      | inl refused ↦ absurd (ground arith)
      | inr (m, counted) ↦
          let many : m ≡ 0 + flipped other a (setting_of s e) s.crtcs =
            unflip_count-flipped other a e pending s s.crtcs 0 m no_ref counted in
          ground arith
    ]
