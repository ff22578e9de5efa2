-- ===== src/Pageflip/Completion.antt =====
-- src/drmmode_display.c: sequences of completions of a page flip.
use xf86_video_amdgpu.Prelude.{
  ℕ, ◌≡◌, inl, inr, refl, ap, ◌∙◌, Option, none, some, List, [], ◌∷◌, if◌then◌else◌, arith,
  Bool-cases, Option-cases,
}
use xf86_video_amdgpu.Framebuffer.{Slot, Fbs, Result, ok, ◌>>=◌, flip_pending, crtc_fb, flipdata_fb}
use xf86_video_amdgpu.Framebuffer.Counting.{IsCounted, IsLive-held, fb_reference-IsCounted, occurs}
use xf86_video_amdgpu.Pageflip.{
  FlipData, Flips, Call, calls_abort, is_some, pointer_eq, clear_pending, count_down, flip_abort,
  shift_fb, record_time, completion_call, flip_handler, or_else,
}

-- Each of the three slots that a completion on the CRTC touches is listed once.
pub record HasSlots (σs : List Slot) (f crtc : ℕ) : Type 0 where
  pub has_pending : occurs (flip_pending crtc) σs ≡ 1
  pub has_fb : occurs (crtc_fb crtc) σs ≡ 1
  pub has_flip : occurs (flipdata_fb f crtc) σs ≡ 1

clear_pending-IsCounted :
    (σs : List Slot) (f crtc : ℕ) (s : Fbs)
    → HasSlots σs f crtc
    → IsCounted σs s
    → (t : Fbs) × (clear_pending f crtc s ≡ ok t)
      × IsCounted σs t
      × (t.held (flipdata_fb f crtc) ≡ s.held (flipdata_fb f crtc))
      × (t.held (crtc_fb crtc) ≡ s.held (crtc_fb crtc))
unfolding clear_pending
clear_pending-IsCounted σs f crtc s h c =
    elim (Bool-cases (pointer_eq (s.held (flip_pending crtc)) (s.held (flipdata_fb f crtc)))) [
      | inl same ↦
          let (t, runs, counted, held) =
            fb_reference-IsCounted σs (flip_pending crtc) none s c h.has_pending tt in
          (
            t,
            rw same runs,
            counted,
            ap (λ (g : Slot → Option ℕ). g (flipdata_fb f crtc)) held,
            ap (λ (g : Slot → Option ℕ). g (crtc_fb crtc)) held,
          )
      | inr other ↦ (s, rw other, c, refl, refl)
    ]

-- After a completion the CRTC shows the framebuffer of the flip, if the flip has one for it, and
-- the flip no longer holds it.
pub shift_fb-IsCounted :
    (σs : List Slot) (f crtc : ℕ) (s : Fbs)
    → HasSlots σs f crtc
    → IsCounted σs s
    → (t : Fbs) × (shift_fb f crtc s ≡ ok t)
      × IsCounted σs t
      × (t.held (flipdata_fb f crtc) ≡ none)
      × (t.held (crtc_fb crtc) ≡ (
          if is_some (s.held (flipdata_fb f crtc))
          then s.held (flipdata_fb f crtc)
          else s.held (crtc_fb crtc)))
unfolding shift_fb
shift_fb-IsCounted σs f crtc s h c = elim (Option-cases (s.held (flipdata_fb f crtc))) [
  | inl empty ↦ (s, rw empty, c, empty, rw empty)
  | inr (p, holds) ↦
      let (s', cleared, c', keeps, _) = clear_pending-IsCounted σs f crtc s h c in
      let (s'', shown, c'', held'') =
        fb_reference-IsCounted σs (crtc_fb crtc) (s'.held (flipdata_fb f crtc)) s' c' h.has_fb
          (IsLive-held σs (flipdata_fb f crtc) s' c' h.has_flip) in
      let (t, dropped, ct, held) =
        fb_reference-IsCounted σs (flipdata_fb f crtc) none s'' c'' h.has_flip tt in
      let at_flip : t.held (flipdata_fb f crtc) ≡ none =
        ap (λ (g : Slot → Option ℕ). g (flipdata_fb f crtc)) held ∙ ground arith in
      let at_fb : t.held (crtc_fb crtc) ≡ s''.held (crtc_fb crtc) =
        ap (λ (g : Slot → Option ℕ). g (crtc_fb crtc)) held in
      let at_fb'' : s''.held (crtc_fb crtc) ≡ s'.held (flipdata_fb f crtc) =
        ap (λ (g : Slot → Option ℕ). g (crtc_fb crtc)) held'' ∙ ground arith in
      (t, rw holds (rw (cleared, shown, dropped)), ct, at_flip, rw (at_fb, at_fb'', keeps, holds))
]

-- A completion of the flip on one CRTC: the kernel's event, or the abort of its queue entry.
pub data Completion : Type 0 where
  completed : (frame usec : ℕ) → Completion
  aborted : Completion

abbrev pub complete : ℕ → ℕ × Completion → Flips → Result (Flips × Option Call)
complete f (crtc, completed frame usec) s = flip_handler crtc frame usec f s
complete f (crtc, aborted) s = flip_abort crtc f s

-- The completions in the order in which they arrive, with the calls that they make.
unfoldable pub complete_all : ℕ → List (ℕ × Completion) → Flips → Result (Flips × List Call)
complete_all f [] s = ok (s, [])
complete_all f (x ∷ xs) s = complete f x s >>= λ (s', call).
    complete_all f xs s' >>= λ (s'', calls).
    ok (s'', (elim call [ none ↦ calls | some c ↦ c ∷ calls ]))

abbrev pub AllSlots : List Slot → ℕ → List (ℕ × Completion) → Type 0
AllSlots σs f [] = Unit {0}
AllSlots σs f ((crtc, c) ∷ xs) = HasSlots σs f crtc × AllSlots σs f xs

-- The flip after a completion that is not the last.
abbrev pub updated : ℕ × Completion → FlipData → FlipData
updated (crtc, completed frame usec) d = record_time crtc frame usec d
updated (crtc, aborted) d = d

-- The call that a last completion makes.
abbrev pub last_call : ℕ × Completion → FlipData → Call
last_call (crtc, completed frame usec) d =
    completion_call crtc frame usec (record_time crtc frame usec d)
last_call (crtc, aborted) d = calls_abort d.abort (or_else d.fe_crtc crtc) d.event_data

pub complete_lem :
    (σs : List Slot) (f : ℕ) (x : ℕ × Completion) (s : Flips) (d : FlipData)
    → HasSlots σs f x.0
    → IsCounted σs s.fbs
    → s.flipdata f ≡ some d
    → (t : Fbs) × IsCounted σs t
      × (complete f x s ≡ ok (count_down f (updated x d) (last_call x d) (record s { fbs = t })))
unfolding flip_handler flip_abort
complete_lem σs f (crtc, completed frame usec) s d h c there =
    let (t, runs, counted, _, _) = shift_fb-IsCounted σs f crtc s.fbs h c in
    (t, counted, rw (there, flip_handler) (rw runs))
complete_lem σs f (crtc, aborted) s d h c there =
    let (s', cleared, c', _, _) = clear_pending-IsCounted σs f crtc s.fbs h c in
    let (t, dropped, ct, _) =
      fb_reference-IsCounted σs (flipdata_fb f crtc) none s' c' h.has_flip tt in
    (t, ct, rw (there, flip_abort) (rw (cleared, dropped)))
