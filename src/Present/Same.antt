-- ===== src/Present/Same.antt =====
-- src/amdgpu_present.c: the variable refresh rate and the flip window do not decide on flips.
use xf86_video_amdgpu.Prelude.{ℕ, ◌≡◌, refl, ◌∙◌, Bool, true, List, [], ◌∷◌, arith}
use xf86_video_amdgpu.DrmQueue.{Driver}
use xf86_video_amdgpu.Pageflip.Submit.{World, Submission, Setting}
use xf86_video_amdgpu.Pageflip.Submit.Rounds.{flipped}
use xf86_video_amdgpu.Present.{
  Crtc, Server, Query, can_flip, crtc_can_flip, check_flip, set_vrr, set_screen_vrr, setting_of,
}

-- What decides on flips is the same on both screens.
pub record SameCrtcs (s s' : Server) : Type 0 where
  pub same_list : s'.crtcs ≡ s.crtcs
  pub same_flips : (c : ℕ) → can_flip s' c ≡ can_flip s c
  pub same_tear_free : (c : ℕ) → (s'.crtc c).tear_free ≡ (s.crtc c).tear_free

pub SameCrtcs-trans : {s t u : Server} → SameCrtcs s t → SameCrtcs t u → SameCrtcs s u
SameCrtcs-trans h k = record {
  same_list = k.same_list ∙ h.same_list;
  same_flips = λ c. k.same_flips c ∙ h.same_flips c;
  same_tear_free = λ c. k.same_tear_free c ∙ h.same_tear_free c;
}

pub set_vrr_lem :
    (property accepts on : Bool) (c : Crtc)
    → (crtc_can_flip (set_vrr property accepts on c) ≡ crtc_can_flip c)
      × ((set_vrr property accepts on c).tear_free ≡ c.tear_free)
unfolding set_vrr crtc_can_flip
set_vrr_lem property accepts on c = (ground arith, ground arith)

pub set_screen_vrr-SameCrtcs :
    (property : Bool) (accepts : ℕ → Bool) (on : Bool) (cs : List ℕ) (s : Server)
    → SameCrtcs s (set_screen_vrr property accepts on cs s)
unfolding set_screen_vrr
set_screen_vrr-SameCrtcs property accepts on [] s = record {
  same_list = refl;
  same_flips = λ c. refl;
  same_tear_free = λ c. refl;
}
set_screen_vrr-SameCrtcs property accepts on (x ∷ cs) s =
    SameCrtcs-trans
      (record {
        same_list = refl;
        same_flips = λ c. ground (arith, set_vrr_lem property (accepts x) on (s.crtc x));
        same_tear_free = λ c. ground (arith, set_vrr_lem property (accepts x) on (s.crtc x));
      })
      (set_screen_vrr-SameCrtcs property accepts on cs _)

pub flipped-SameCrtcs :
    (other : Driver World) (a : Submission) (e : Setting) (s s' : Server) (cs : List ℕ)
    → SameCrtcs s s'
    → flipped other a (setting_of s' e) cs ≡ flipped other a (setting_of s e) cs
flipped-SameCrtcs other a e s s' [] h = refl
flipped-SameCrtcs other a e s s' (c ∷ cs) h =
    rw (h.same_flips c, h.same_tear_free c, flipped-SameCrtcs other a e s s' cs h) refl

pub check_flip-server :
    (q : Query) (s : Server)
    → (check_flip q s).0 ≡ true
    → (check_flip q s).1 ≡ record s { flip_window = q.window }
unfolding check_flip
check_flip-server q s h = ground arith
