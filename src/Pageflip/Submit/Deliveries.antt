-- ===== src/Pageflip/Submit/Deliveries.antt =====
-- src/drmmode_display.c: a submission of amdgpu_do_pageflip and the completions that it leads to.
use xf86_video_amdgpu.Prelude.{
  ℕ, ◌+◌, ◌*◌, ◌^◌, ◌<◌, ◌≡◌, refl, ap, sym, ◌∙◌, inl, inr, Bool, Option, none, some, List, [], ◌∷◌,
  ◌++◌, arith, length,
}
use mathlib.Core.List.{append-nil}
use xf86_video_amdgpu.Framebuffer.{Slot, ok, fatal, fault}
use xf86_video_amdgpu.Framebuffer.Counting.{IsCounted}
use xf86_video_amdgpu.DrmQueue.{Entry, Driver, State}
use xf86_video_amdgpu.DrmQueue.Invariant.{IsValid}
use xf86_video_amdgpu.Pageflip.{Flips, Call}
use xf86_video_amdgpu.Pageflip.Completion.{Completion, complete_all, AllSlots}
use xf86_video_amdgpu.Pageflip.Delivery.{delivered, complete_all-delivers}
use xf86_video_amdgpu.Pageflip.Submit.{
  Screen, World, Submission, Setting, new_flipdata, do_pageflip,
}
use xf86_video_amdgpu.Pageflip.Submit.Account.{IsPixmap}
use xf86_video_amdgpu.Pageflip.Submit.Rounds.{owed, Each, flipped}
use xf86_video_amdgpu.Pageflip.Submit.Loop.{IsReady}
use xf86_video_amdgpu.Pageflip.Submit.Outcome.{IsSettled, do_pageflip-IsDone}

module _ (other : Driver World) (a : Submission) (e : Setting) (σs : List Slot) (v₀ : Screen) where
  settled_delivers :
      (t : State World) (u : Screen) (xs : List (ℕ × Completion))
      → IsCounted σs u.flips.fbs
      → IsSettled other a e σs v₀ t u
      → AllSlots σs e.address xs
      → length xs ≡ owed e.address t.queue
      → (r : Flips) × (calls : List Call) × (call : Call) × (complete_all e.address xs u.flips
          ≡ ok (r, calls))
        × IsCounted σs r.fbs
        × (r.flipdata e.address ≡ none)
        × (u.calls ++ calls ≡ v₀.calls ++ call ∷ [])
  unfolding complete_all
  settled_delivers t u [] c (inl (n, positive, small, owes, there, same)) slots full =
      absurd (omega arith)
  settled_delivers t u (x ∷ xs) c (inl (n, positive, small, owes, there, same)) slots full =
      let (r, runs, counted, freed) =
        complete_all-delivers σs e.address x xs u.flips _ slots c there (omega arith)
          (omega arith) in
      let call : Call = delivered (record (new_flipdata other a e) { flip_count = n }) x xs in
      (r, call ∷ [], call, runs, counted, freed, ap (λ cs. cs ++ call ∷ []) same)
  settled_delivers t u [] c (inr (call, owes, freed, called, _)) slots full =
      (u.flips, [], call, refl, c, freed, append-nil u.calls ∙ called)
  settled_delivers t u (x ∷ xs) c (inr (call, owes, freed, called, _)) slots full =
      absurd (omega arith)

  -- Under the conditions of do_pageflip-IsDone, once as many completions of the flip as the queue has
  -- entries for it have arrived, for any CRTCs in any order, whether the kernel's event or an abort: none of them
  -- fails, the flip is freed, every framebuffer is counted, and the submission and the completions
  -- together have made exactly one call, of the handler or of the abort callback.
  pub do_pageflip-delivers :
      (crtcs : List ℕ) (s : State World) (b : Bool) (t : State World) (u : Screen)
      (xs : List (ℕ × Completion))
      → IsCounted σs v₀.flips.fbs
      → v₀.flips.flipdata e.address ≡ none
      → owed e.address s.queue ≡ 0
      → IsValid s
      → Each (IsReady other a e σs v₀) crtcs
      → ((fb : ℕ) → a.front_fb ≡ some fb → IsPixmap σs v₀.flips.fbs fb)
      → s.queue_seq + 2 * length crtcs < 2 ^ 64
      → length crtcs < 2 ^ 31
      → 0 < flipped other a e crtcs
      → do_pageflip other a e crtcs (record s { world = ok v₀ })
        ≡ some (b, record t { world = ok u })
      → AllSlots σs e.address xs
      → length xs ≡ owed e.address t.queue
      → (r : Flips) × (calls : List Call) × (call : Call) × (complete_all e.address xs u.flips
          ≡ ok (r, calls))
        × IsCounted σs r.fbs
        × (r.flipdata e.address ≡ none)
        × (u.calls ++ calls ≡ v₀.calls ++ call ∷ [])
  do_pageflip-delivers crtcs s b t u xs c unused none_owed valid ready front room small some_flip
        runs slots full =
      let (b', t', u', runs', counted, settled, _) =
        do_pageflip-IsDone other a e σs v₀ crtcs s c unused none_owed valid ready front room small
          some_flip in
      let same = sym runs' ∙ runs in
      let same_screen : u' ≡ u = ap screen_of same in
      let same_queue : t'.queue ≡ t.queue = ap queue_of same in
      settled_delivers t' u xs (rw (← same_screen) counted) (rw (← same_screen) settled) slots
        (full ∙ rw same_queue)
    where
      queue_of : Option (Bool × State World) → List Entry
      queue_of (some (_, s)) = s.queue
      queue_of none = []

      screen_of : Option (Bool × State World) → Screen
      screen_of (some (_, s)) = elim s.world [ ok v ↦ v | fatal ↦ v₀ | fault ↦ v₀ ]
      screen_of none = v₀
