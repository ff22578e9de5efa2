-- ===== src/Framebuffer/Counting.antt =====
-- src/drmmode_display.h: the holders of a framebuffer and its reference count.
use xf86_video_amdgpu.Prelude.{
  ℕ, ◌+◌, ◌-◌, ◌*◌, ◌≤◌, ◌<◌, ◌≡◌, ◌≢◌, refl, ap, ◌∙◌, ◌⊎◌, inl, inr, true, Option, none, some,
  List, [], ◌∷◌, ◌++◌, if◌then◌else◌, ◌==◌, arith, Bool-cases, Option-cases,
}
use xf86_video_amdgpu.Framebuffer.{
  Fb, Slot, slot_eq, Fbs, ok, set_fb, set_slot, retain, release, fb_reference,
}
use xf86_video_amdgpu.Framebuffer.{pixmap_fb, crtc_fb, flip_pending, flipdata_fb}

abbrev pub points : Option ℕ → ℕ → ℕ
points none p = 0
points (some q) p = if q == p then 1 else 0

-- How many of the slots hold the framebuffer, and how often a slot is listed.
abbrev pub holders : (Slot → Option ℕ) → List Slot → ℕ → ℕ
holders held [] p = 0
holders held (σ ∷ σs) p = points (held σ) p + holders held σs p

abbrev pub occurs : Slot → List Slot → ℕ
occurs σ [] = 0
occurs σ (τ ∷ σs) = (if slot_eq τ σ then 1 else 0) + occurs σ σs

-- A framebuffer is allocated as long as something holds it, and its count says how many do.
abbrev pub IsCountedBy : (ℕ → ℕ) → Fbs → Type 0
IsCountedBy h s =
    (p : ℕ)
    → ((s.fb p ≡ none) × (h p ≡ 0)) ⊎ ((r : Fb) × (s.fb p ≡ some r) × (r.refcnt ≡ h p) × (0 < h p))

-- The slots are all that holds framebuffers.
abbrev pub IsCounted : List Slot → Fbs → Type 0
IsCounted σs s = IsCountedBy (holders s.held σs) s

abbrev pub IsLive : Option ℕ → Fbs → Type 0
IsLive none s = Unit {0}
IsLive (some p) s = s.fb p ≢ none

slot_eq→eq : (σ τ : Slot) → slot_eq σ τ ≡ true → σ ≡ τ
slot_eq→eq (pixmap_fb i) (pixmap_fb j) h = ground arith
slot_eq→eq (crtc_fb i) (crtc_fb j) h = ground arith
slot_eq→eq (flip_pending i) (flip_pending j) h = ground arith
slot_eq→eq (flipdata_fb f i) (flipdata_fb g j) h = ground arith
slot_eq→eq _ _ h = cc

holders-set_slot :
    (σs : List Slot) (σ : Slot) (v : Option ℕ) (s : Fbs) (p : ℕ)
    → holders (set_slot σ v s).held σs p + occurs σ σs * points (s.held σ) p
      ≡ holders s.held σs p + occurs σ σs * points v p
holders-set_slot [] σ v s p = omega arith
holders-set_slot (τ ∷ σs) σ v s p = elim (Bool-cases (slot_eq τ σ)) [
  | inl t ↦
      rw t (
        omega
          (arith, holders-set_slot σs σ v s p, ap (λ x. points (s.held x) p) (slot_eq→eq τ σ t)))
  | inr f ↦ rw f (omega (arith, holders-set_slot σs σ v s p))
]

retain-IsCountedBy :
    (h : ℕ → ℕ) (new : Option ℕ) (s : Fbs)
    → IsCountedBy h s
    → IsLive new s
    → (t : Fbs) × (retain new s ≡ ok t)
      × IsCountedBy (λ p. h p + points new p) t
      × (t.held ≡ s.held)
      × (t.removed ≡ s.removed)
unfolding retain
retain-IsCountedBy h none s c l = (s, refl, λ p. ground (arith, c p), refl, refl)
retain-IsCountedBy h (some q) s c l = elim (c q) [
  | inl (gone, _) ↦ absurd (l gone)
  | inr (r, there, count, positive) ↦ (
    set_fb q (some (record r { refcnt = r.refcnt + 1 })) s,
    ground arith,
    λ p. ground (arith, c p),
    refl,
    refl,
  )
]

release-IsCountedBy :
    (h : ℕ → ℕ) (old : Option ℕ) (s : Fbs)
    → IsCountedBy h s
    → ((p : ℕ) → points old p ≤ h p)
    → (t : Fbs) × (release old s ≡ ok t)
      × IsCountedBy (λ p. h p - points old p) t
      × (t.held ≡ s.held)
unfolding release
release-IsCountedBy h none s c l = (s, refl, λ p. ground (arith, c p), refl)
release-IsCountedBy h (some q) s c l = elim (c q) [
  | inl (gone, zero_holders) ↦ absurd (ground (arith, l q))
  | inr (r, there, count, positive) ↦ elim (Bool-cases (r.refcnt == 1)) [
    | inl last ↦ (
      record (set_fb q none s) { removed = s.removed ++ r.handle ∷ [] },
      ground arith,
      λ p. ground (arith, c p),
      refl,
    )
    | inr more ↦ (
      set_fb q (some (record r { refcnt = r.refcnt - 1 })) s,
      ground arith,
      λ p. ground (arith, c p),
      refl,
    )
  ]
]

pub holders-set_slot_once :
    (σs : List Slot) (σ : Slot) (v : Option ℕ) (s : Fbs) (p : ℕ)
    → occurs σ σs ≡ 1
    → holders (set_slot σ v s).held σs p + points (s.held σ) p ≡ holders s.held σs p + points v p
holders-set_slot_once σs σ v s p once = omega (arith, rw once at (holders-set_slot σs σ v s p))

-- With every framebuffer counted, a reference from one slot can be set to a live framebuffer or to
-- NULL: neither a FatalError nor an access to freed memory happens, only that slot changes, and
-- every framebuffer is counted again, so it is freed exactly when its last holder lets go.
pub fb_reference-IsCounted :
    (σs : List Slot) (σ : Slot) (new : Option ℕ) (s : Fbs)
    → IsCounted σs s
    → occurs σ σs ≡ 1
    → IsLive new s
    → (t : Fbs) × (fb_reference σ new s ≡ ok t)
      × IsCounted σs t
      × (t.held ≡ (set_slot σ new s).held)
unfolding fb_reference
fb_reference-IsCounted σs σ new s c once live =
    let (s', kept, c', same, _) = retain-IsCountedBy (holders s.held σs) new s c live in
    let (t, dropped, c'', same') =
      release-IsCountedBy _ (s.held σ) s' c'
        (λ p. omega (arith, holders-set_slot_once σs σ none s p once)) in
    let held : (set_slot σ new t).held ≡ (set_slot σ new s).held =
      ap {B = Slot → Option ℕ}
        (λ (f : Slot → Option ℕ) (τ : Slot). if slot_eq τ σ then new else f τ) (same' ∙ same) in
    (set_slot σ new t, rw (kept, dropped), λ p. recount t p held (c'' p), held)
  where
    recount :
        (t : Fbs) (p : ℕ)
        → (set_slot σ new t).held ≡ (set_slot σ new s).held
        → ((t.fb p ≡ none) × (holders s.held σs p + points new p - points (s.held σ) p ≡ 0))
          ⊎ ((r : Fb) × (t.fb p ≡ some r)
              × (r.refcnt ≡ holders s.held σs p + points new p - points (s.held σ) p)
              × (0 < holders s.held σs p + points new p - points (s.held σ) p))
        → ((t.fb p ≡ none) × (holders (set_slot σ new t).held σs p ≡ 0))
          ⊎ ((r : Fb) × (t.fb p ≡ some r)
              × (r.refcnt ≡ holders (set_slot σ new t).held σs p)
              × (0 < holders (set_slot σ new t).held σs p))
    recount t p held c = rw held (ground (arith, holders-set_slot_once σs σ new s p once, c))

-- What a slot holds is allocated.
pub IsLive-held :
    (σs : List Slot) (σ : Slot) (s : Fbs) → IsCounted σs s → occurs σ σs ≡ 1 → IsLive (s.held σ) s
IsLive-held σs σ s c once = elim (Option-cases (s.held σ)) [
  | inl empty ↦ rw empty tt
  | inr (p, holds) ↦
      rw holds (λ gone. absurd (ground (arith, c p, holders-set_slot_once σs σ none s p once)))
]
