-- ===== src/Pageflip/Delivery.antt =====
-- src/drmmode_display.c: what all completions of a page flip together deliver.
use xf86_video_amdgpu.Prelude.{
  ℕ, ◌^◌, ◌<◌, ◌≡◌, inl, inr, refl, ap, sym, ◌∙◌, Bool, true, false, none, some, List, [], ◌∷◌,
  if◌then◌else◌, ◌==◌, arith, Bool-cases, length,
}
use xf86_video_amdgpu.Framebuffer.{Slot, ok}
use xf86_video_amdgpu.Framebuffer.Counting.{IsCounted}
use xf86_video_amdgpu.Pageflip.{
  FlipData, Flips, Call, calls_handler, decrement, count_down, record_time, set_flipdata,
}
use xf86_video_amdgpu.Pageflip.Completion.{
  Completion, completed, aborted, complete_all, AllSlots, updated, last_call, complete_lem,
}

-- The call after the last completion.
pub delivered : FlipData → ℕ × Completion → List (ℕ × Completion) → Call
delivered d x [] = last_call x d
delivered d x (y ∷ ys) = delivered (updated x d) y ys

updated-flip_count :
    (d : FlipData) (n : ℕ) (x : ℕ × Completion)
    → updated x (record d { flip_count = n }) ≡ record (updated x d) { flip_count = n }
unfolding record_time
updated-flip_count d n (crtc, completed frame usec) = ground arith
updated-flip_count d n (crtc, aborted) = refl

last_call-flip_count :
    (d : FlipData) (n : ℕ) (x : ℕ × Completion)
    → last_call x (record d { flip_count = n }) ≡ last_call x d
unfolding record_time
last_call-flip_count d n (crtc, completed frame usec) = ground arith
last_call-flip_count d n (crtc, aborted) = refl

delivered-flip_count :
    (d : FlipData) (n : ℕ) (x : ℕ × Completion) (xs : List (ℕ × Completion))
    → delivered (record d { flip_count = n }) x xs ≡ delivered d x xs
unfolding delivered
delivered-flip_count d n x [] = last_call-flip_count d n x
delivered-flip_count d n x (y ∷ ys) =
    rw (updated-flip_count d n x) (delivered-flip_count (updated x d) n y ys)

updated-count : (d : FlipData) (x : ℕ × Completion) → (updated x d).flip_count ≡ d.flip_count
unfolding record_time
updated-count d (crtc, completed frame usec) = ground arith
updated-count d (crtc, aborted) = refl

-- Where the slots are all that holds framebuffers, and every framebuffer is counted: when as many
-- completions as the flip counts have arrived, for any CRTCs in any order, whether the kernel's
-- event or an abort: none of them fails, one call has been made, with the last of them,
-- the flip is freed, and every framebuffer is counted.
pub complete_all-delivers :
    (σs : List Slot) (f : ℕ) (x : ℕ × Completion) (xs : List (ℕ × Completion)) (s : Flips)
    (d : FlipData)
    → AllSlots σs f (x ∷ xs)
    → IsCounted σs s.fbs
    → s.flipdata f ≡ some d
    → d.flip_count ≡ length (x ∷ xs)
    → length (x ∷ xs) < 2 ^ 32
    → (t : Flips) × (complete_all f (x ∷ xs) s ≡ ok (t, delivered d x xs ∷ []))
      × IsCounted σs t.fbs
      × (t.flipdata f ≡ none)
unfolding complete_all delivered count_down
complete_all-delivers σs f x [] s d h c there n small =
    let (t, counted, runs) = complete_lem σs f x s d h.0 c there in
    let last : (decrement (updated x d).flip_count == 0) ≡ true =
      ground (arith, updated-count d x) in
    (set_flipdata f none (record s { fbs = t }), rw runs (rw last), counted, ground arith)
complete_all-delivers σs f x (y ∷ ys) s d h c there n small =
    let (t, counted, runs) = complete_lem σs f x s d h.0 c there in
    let more : (decrement (updated x d).flip_count == 0) ≡ false =
      ground (arith, updated-count d x) in
    let d' : FlipData = record (updated x d) { flip_count = decrement (updated x d).flip_count } in
    let (u, rest, counted_u, freed) =
      complete_all-delivers σs f y ys (set_flipdata f (some d') (record s { fbs = t })) d' h.1
        counted (ground arith) (ground (arith, updated-count d x)) (omega arith) in
    (
      u,
      rw runs (
          rw more (
            rw rest
              (rw (delivered-flip_count (updated x d) (decrement (updated x d).flip_count) y ys)))),
      counted_u,
      freed,
    )

-- The frame and the time of the last event of the CRTC.
abbrev pub latest : ℕ → ℕ × ℕ → List (ℕ × Completion) → ℕ × ℕ
latest c t [] = t
latest c t ((crtc, completed frame usec) ∷ xs) =
    latest c (if crtc == c then (frame, usec) else t) xs
latest c t ((crtc, aborted) ∷ xs) = latest c t xs

abbrev pub AllCompleted : List (ℕ × Completion) → Type 0
AllCompleted [] = Unit {0}
AllCompleted ((crtc, completed frame usec) ∷ xs) = AllCompleted xs
AllCompleted ((crtc, aborted) ∷ xs) = ⊥

delivered-latest :
    (d : FlipData) (c : ℕ) (x : ℕ × Completion) (xs : List (ℕ × Completion))
    → d.fe_crtc ≡ some c
    → AllCompleted (x ∷ xs)
    → delivered d x xs
      ≡ calls_handler d.handler c
          (latest c (d.fe_frame, d.fe_usec) (x ∷ xs)).0
          (latest c (d.fe_frame, d.fe_usec) (x ∷ xs)).1
          d.event_data
unfolding delivered record_time
delivered-latest d c (crtc, completed frame usec) [] e all = ground arith
delivered-latest d c (crtc, aborted) [] e all = absurd all
delivered-latest d c (crtc, aborted) (y ∷ ys) e all = absurd all
delivered-latest d c (crtc, completed frame usec) (y ∷ ys) e all = elim (Bool-cases (crtc == c)) [
  | inl t ↦
      let same : record_time crtc frame usec d ≡ record d { fe_frame = frame; fe_usec = usec } =
        ground arith in
      rw same (
        delivered-latest (record d { fe_frame = frame; fe_usec = usec }) c y ys e all
        ∙ ap at (sym t))
  | inr f ↦
      let same : record_time crtc frame usec d ≡ d = ground arith in
      rw same (delivered-latest d c y ys e all ∙ ap at (sym f))
]
  where
    at : Bool → Call
    at b =
        let (n, u) = latest c (if b then (frame, usec) else (d.fe_frame, d.fe_usec)) (y ∷ ys) in
        calls_handler d.handler c n u d.event_data

-- If the flip has a reference CRTC and no completion is an abort, the one call is that of the
-- handler, for the reference CRTC and with the frame and the time of its own last event, whichever
-- CRTC completes last.
pub complete_all-reference :
    (σs : List Slot) (f c : ℕ) (x : ℕ × Completion) (xs : List (ℕ × Completion)) (s : Flips)
    (d : FlipData)
    → AllSlots σs f (x ∷ xs)
    → IsCounted σs s.fbs
    → s.flipdata f ≡ some d
    → d.flip_count ≡ length (x ∷ xs)
    → length (x ∷ xs) < 2 ^ 32
    → d.fe_crtc ≡ some c
    → AllCompleted (x ∷ xs)
    → let (frame, usec) = latest c (d.fe_frame, d.fe_usec) (x ∷ xs) in
      (t : Flips) × (complete_all f (x ∷ xs) s
        ≡ ok (t, calls_handler d.handler c frame usec d.event_data ∷ []))
complete_all-reference σs f c x xs s d h counted there n small reference all =
    let (t, runs, _, _) = complete_all-delivers σs f x xs s d h counted there n small in
    (t, rw (← delivered-latest d c x xs reference all) runs)
