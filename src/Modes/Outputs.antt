-- ===== src/Modes/Outputs.antt =====
-- src/drmmode_display.c: the outputs of a CRTC, and its scanout pixmaps.
use xf86_video_amdgpu.Prelude.{
  ℕ, ◌+◌, ◌≡◌, ◌↔◌, refl, inl, inr, Bool, true, false, ◌&&◌, ◌||◌, Option, none, some, List, [],
  ◌∷◌, map, if◌then◌else◌, ◌==◌, arith, Bool-cases, Option-cases,
}
use xf86_video_amdgpu.DrmQueue.{select}
use xf86_video_amdgpu.Framebuffer.Counting.{points}
use xf86_video_amdgpu.Pageflip.{pointer_eq}
use xf86_video_amdgpu.Modes.Set.{
  Output, output_ids, Automatic, is_automatic, update_tear_free, ScanoutPixmap, Step, creates,
  destroys, scanout_make, scanout_create, is_sized, destroys_held, after_steps,
}

-- The output shows the CRTC.
abbrev pub shows : ℕ → Output → Bool
shows c o = pointer_eq o.crtc (some c)

-- All the values, where none is missing.
abbrev pub sequence : List (Option ℕ) → Option (List ℕ)
sequence [] = some []
sequence (none ∷ os) = none
sequence (some i ∷ os) = elim (sequence os) [ none ↦ none | some is ↦ some (i ∷ is) ]

-- The connector ids of the outputs of the CRTC, in order, where each of them has one.
abbrev pub connectors : (c : ℕ) → List Output → Option (List ℕ)
connectors c os = sequence (map (λ (o : Output). o.connector) (select (shows c) os))

-- The ids are those of the outputs of the CRTC, in order, where each of them has one.
pub output_ids-sequence : (c : ℕ) (os : List Output) → output_ids c os ≡ connectors c os
unfolding output_ids select
output_ids-sequence c [] = refl
output_ids-sequence c (o ∷ os) = elim (Bool-cases (shows c o)) [
  | inr other ↦ rw other (output_ids-sequence c os)
  | inl own ↦ elim (Option-cases o.connector) [
    | inl missing ↦ rw (own, missing) refl
    | inr (i, there) ↦ rw (own, there, output_ids-sequence c os) refl
  ]
]

-- The output asks for TearFree.
abbrev pub wants : Automatic → Output → Bool
wants a o = o.tear_free == 1 || o.tear_free == 2 && is_automatic a

abbrev pub any : (Output → Bool) → List Output → Bool
any p [] = false
any p (o ∷ os) = p o || any p os

update_tear_free-any :
    (c : ℕ) (a : Automatic) (os : List Output)
    → update_tear_free c a os ≡ any (λ o. shows c o && wants a o) os
unfolding update_tear_free
update_tear_free-any c a [] = refl
update_tear_free-any c a (o ∷ os) = elim (Bool-cases (shows c o)) [
  | inr other ↦ rw other (update_tear_free-any c a os)
  | inl own ↦ elim (Bool-cases (wants a o)) [
    | inl asks ↦ rw (own, asks) refl
    | inr leaves ↦ rw (own, leaves) (update_tear_free-any c a os)
  ]
]

-- How often a pixmap is created and destroyed, and whether it is held.
abbrev pub created : ℕ → List Step → ℕ
created p [] = 0
created p (creates q ∷ ss) = (if q == p then 1 else 0) + created p ss
created p (destroys q ∷ ss) = created p ss

abbrev pub destroyed : ℕ → List Step → ℕ
destroyed p [] = 0
destroyed p (creates q ∷ ss) = destroyed p ss
destroyed p (destroys q ∷ ss) = (if q == p then 1 else 0) + destroyed p ss

abbrev pub kept : Option ScanoutPixmap → Option ℕ
kept none = none
kept (some s) = some s.pixmap

sized_held :
    (held : Option ScanoutPixmap) (width height : ℕ)
    → is_sized width height held ≡ true
    → (s : ScanoutPixmap) × (held ≡ some s) × (s.width ≡ width) × (s.height ≡ height)
sized_held none width height h = cc
sized_held (some s) width height h = (s, refl, ground arith, ground arith)

-- What is made from nothing.
abbrev Balances :
    (held : Option ScanoutPixmap) (width height p : ℕ)
    → Bool × Option ScanoutPixmap × List Step
    → Type 0
Balances held width height p (r, held', steps) =
    (created p steps + points (kept held) p ≡ destroyed p steps + points (kept held') p)
    × ((r ≡ true)
        ↔ ((s : ScanoutPixmap) × (held' ≡ some s) × (s.width ≡ width) × (s.height ≡ height)))

scanout_make-Balances :
    (held : Option ScanoutPixmap) (made : Option ℕ) (has_fb : Bool) (width height p : ℕ)
    → Balances held width height p
        (after_steps (destroys_held held) (scanout_make made has_fb width height))
unfolding scanout_make
scanout_make-Balances none none has_fb width height p =
    (omega arith, ((λ e. cc), λ (s, e, _, _). cc))
scanout_make-Balances none (some q) true width height p =
    (ground arith, ((λ _. (_, refl, refl, refl)), λ _. refl))
scanout_make-Balances none (some q) false width height p =
    (ground arith, ((λ e. cc), λ (s, e, _, _). cc))
scanout_make-Balances (some h) none has_fb width height p =
    (ground arith, ((λ e. cc), λ (s, e, _, _). cc))
scanout_make-Balances (some h) (some q) true width height p =
    (ground arith, ((λ _. (_, refl, refl, refl)), λ _. refl))
scanout_make-Balances (some h) (some q) false width height p =
    (ground arith, ((λ e. cc), λ (s, e, _, _). cc))

-- Creating the scanout pixmap of a CRTC for a size: what has been created and was held before is
-- destroyed or held after it, so nothing is leaked or destroyed twice; and it reports success just
-- where a pixmap of that size is held.
pub scanout_create-IsBalanced :
    (made : Option ℕ) (has_fb : Bool) (held : Option ScanoutPixmap) (width height p : ℕ)
    → let (r, held', steps) = scanout_create made has_fb held width height in
      (created p steps + points (kept held) p ≡ destroyed p steps + points (kept held') p)
      × ((r ≡ true)
          ↔ ((s : ScanoutPixmap) × (held' ≡ some s) × (s.width ≡ width) × (s.height ≡ height)))
unfolding scanout_create scanout_make
scanout_create-IsBalanced made has_fb held width height p =
    elim (Bool-cases (is_sized width height held)) [
      | inl fits ↦
          simp (scanout_create, fits) (refl, ((λ _. sized_held held width height fits), λ _. refl))
      | inr unfit ↦
          simp (scanout_create, unfit) (scanout_make-Balances held made has_fb width height p)
    ]
