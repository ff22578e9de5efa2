-- ===== src/Pageflip/Submit/Outcome.antt =====
-- src/drmmode_display.c: what amdgpu_do_pageflip leaves when it returns.
use xf86_video_amdgpu.Prelude.{
  ℕ, suc, ◌+◌, ◌*◌, ◌^◌, ◌≤◌, ◌<◌, ◌≡◌, refl, ap, ◌⊎◌, inl, inr, Bool, true, false, ◌&&◌, Option,
  none, some, List, [], ◌∷◌, ◌++◌, ◌==◌, ltb, arith, Bool-cases, Option-cases, length,
}
use xf86_video_amdgpu.Framebuffer.{Slot, ok}
use xf86_video_amdgpu.Framebuffer.Counting.{IsCounted}
use xf86_video_amdgpu.DrmQueue.{Driver, State}
use xf86_video_amdgpu.DrmQueue.Invariant.{IsValid}
use xf86_video_amdgpu.Pageflip.{
  Flips, Call, calls_abort, calls_abort_early, count_down, decrement, set_flipdata, or_else,
}
use xf86_video_amdgpu.Pageflip.Completion.{HasSlots, aborted, complete_lem}
use xf86_video_amdgpu.Pageflip.Submit.{
  Screen, World, Submission, Setting, Round, abort_in, undo, new_flipdata, finish, release_deferred,
  do_pageflip,
}
use xf86_video_amdgpu.Pageflip.Submit.Account.{IsPixmap}
use xf86_video_amdgpu.Pageflip.Submit.Rounds.{owed, Each, IsOpen, flipped}
use xf86_video_amdgpu.Pageflip.Submit.Loop.{IsReady, IsEnd, flip_crtcs-IsEnd}

-- The abort callback of the higher level, for some CRTC or for none.
abbrev pub IsAbort : Submission → Call → Type 0
IsAbort a call =
    ((crtc : ℕ) × (call ≡ calls_abort a.abort crtc a.event_data))
    ⊎ (call ≡ calls_abort_early a.abort a.event_data)

module _ (other : Driver World) (a : Submission) (e : Setting) (σs : List Slot) (v₀ : Screen) where
  -- Either the flip counts the entries that will complete it, and nothing has been called, or it is
  -- freed, nothing will complete it, and the abort callback has been called once.
  abbrev pub IsSettled : State World → Screen → Type 0
  IsSettled t u =
      ((n : ℕ) × (0 < n)
        × (n < 2 ^ 31)
        × (owed e.address t.queue ≡ n)
        × (u.flips.flipdata e.address ≡ some (record (new_flipdata other a e) { flip_count = n }))
        × (u.calls ≡ v₀.calls))
      ⊎ ((call : Call) × (owed e.address t.queue ≡ 0)
          × (u.flips.flipdata e.address ≡ none)
          × (u.calls ≡ v₀.calls ++ call ∷ [])
          × IsAbort a call)

  abort_in_lem :
      (crtc i : ℕ) (t : State World) (u : Screen)
      → HasSlots σs e.address crtc
      → suc i < 2 ^ 31
      → IsOpen other a e σs v₀ i (suc i) t u
      → (w : Screen) × (abort_in crtc e.address (ok u) ≡ ok w)
        × IsCounted σs w.flips.fbs
        × IsSettled t w
  unfolding abort_in count_down
  abort_in_lem crtc i t u slots small h =
      let (b, counted, runs) =
        complete_lem σs e.address (crtc, aborted) u.flips _ slots h.counted h.there in
      let fl : Flips = record u.flips { fbs = b } in
      let call : Call = calls_abort a.abort (or_else a.ref_crtc crtc) a.event_data in
      elim (Bool-cases (i == 0)) [
        | inl last ↦
            let down : (decrement (suc i) == 0) ≡ true = ground arith in
            (
              record u { flips = set_flipdata e.address none fl; calls = u.calls ++ call ∷ [] },
              rw runs (rw down refl),
              counted,
              inr (
                call,
                ground (arith, h.owes),
                ground arith,
                ap (λ cs. cs ++ call ∷ []) h.same_calls,
                inl (_, refl),
              ),
            )
        | inr more ↦
            let down : (decrement (suc i) == 0) ≡ false = ground arith in
            let left : decrement (suc i) ≡ i = omega arith in
            (
              record u {
                flips =
                    set_flipdata e.address
                      (some (record (new_flipdata other a e) { flip_count = i })) fl;
              },
              rw runs (rw down (rw left refl)),
              counted,
              inl (i, ground arith, omega arith, h.owes, ground arith, h.same_calls),
            )
      ]

  abbrev pub IsDone : List ℕ → Option (Bool × State World) → Type 0
  IsDone crtcs r =
      (b : Bool) × (t : State World) × (u : Screen) × (r ≡ some (b, record t { world = ok u }))
      × IsCounted σs u.flips.fbs
      × IsSettled t u
      × (b ≡ true → owed e.address t.queue ≡ flipped other a e crtcs)

  early-IsDone :
      (crtcs : List ℕ) (s : State World)
      → IsCounted σs v₀.flips.fbs
      → owed e.address s.queue ≡ 0
      → IsDone crtcs (some (false, undo other a e 0 none (record s { world = ok v₀ })))
  unfolding undo
  early-IsDone crtcs s c none_owed =
      let call : Call = calls_abort_early a.abort a.event_data in
      (
        false,
        s,
        record v₀ { flips = set_flipdata e.address none v₀.flips; calls = v₀.calls ++ call ∷ [] },
        refl,
        c,
        inr (call, none_owed, ground arith, refl, inr refl),
        λ h. cc,
      )

  flipped-length : (crtcs : List ℕ) → flipped other a e crtcs ≤ length crtcs
  flipped-length [] = omega arith
  flipped-length (crtc ∷ crtcs) = ground (arith, flipped-length crtcs)

  finish-IsDone :
      (crtcs : List ℕ) (x : Round × Option ℕ)
      → length crtcs < 2 ^ 31
      → 0 < flipped other a e crtcs
      → IsEnd other a e σs v₀ (flipped other a e crtcs) x
      → IsDone crtcs (finish other a e x)
  unfolding finish release_deferred
  finish-IsDone crtcs x small some_flip (inl (s, v, last, ended, h)) =
      let m : ℕ = flipped other a e crtcs in
      let positive : (ltb 0 m && ltb m (2 ^ 31)) ≡ true = ground (arith, flipped-length crtcs) in
      (
        true,
        s,
        v,
        rw ended (rw h.there (rw positive refl)),
        h.counted,
        inl (m, some_flip, omega (arith, flipped-length crtcs), h.owes, h.there, h.same_calls),
        λ _. h.owes,
      )
  finish-IsDone crtcs x small some_flip
        (inr (crtc, i, p, seq, ended, slots, lt, (t, u, undone, kept, h))) =
      let (w, runs, counted, settled) =
        abort_in_lem crtc i t u slots (ground (arith, flipped-length crtcs)) h in
      (false, t, w, rw ended (rw (kept, undone) (rw runs refl)), counted, settled, λ k. cc)

  -- Where every framebuffer is counted, the flip's address is not in use, no update of a scanout
  -- pixmap is pending on the CRTCs, the pixmaps hold the framebuffers that are flipped to, and at
  -- least one CRTC can flip: whatever allocation fails and whatever the kernel refuses, the
  -- submission returns, without a FatalError or an access to freed memory, with every framebuffer
  -- counted. Either the flip counts as many completions as there are entries in the queue that will
  -- complete it, at least one, and no callback has been called; or the flip is freed, no entry
  -- refers to it, and the abort callback has been called exactly once. If it returns TRUE, there is
  -- an entry for each CRTC that is flipped.
  pub do_pageflip-IsDone :
      (crtcs : List ℕ) (s : State World)
      → IsCounted σs v₀.flips.fbs
      → v₀.flips.flipdata e.address ≡ none
      → owed e.address s.queue ≡ 0
      → IsValid s
      → Each (IsReady other a e σs v₀) crtcs
      → ((fb : ℕ) → a.front_fb ≡ some fb → IsPixmap σs v₀.flips.fbs fb)
      → s.queue_seq + 2 * length crtcs < 2 ^ 64
      → length crtcs < 2 ^ 31
      → 0 < flipped other a e crtcs
      → IsDone crtcs (do_pageflip other a e crtcs (record s { world = ok v₀ }))
  unfolding do_pageflip
  do_pageflip-IsDone crtcs s c unused none_owed valid ready front room small some_flip =
      elim (Bool-cases e.flipdata_memory) [
        | inr full ↦ simp full (early-IsDone crtcs s c none_owed)
        | inl memory ↦ elim (Option-cases a.front_fb) [
          | inl missing ↦ simp (memory, missing) (early-IsDone crtcs s c none_owed)
          | inr (fb, found) ↦
              let v : Screen = record v₀ {
                flips = set_flipdata e.address (some (new_flipdata other a e)) v₀.flips;
              } in
              let open₀ : IsOpen other a e σs v₀ 0 0 s v = record {
                counted = c;
                there = ground arith;
                same_calls = refl;
                same_updates = refl;
                same_pixmaps = λ i. refl;
                owes = none_owed;
                valid = valid;
              } in
              let (x, runs, end) =
                flip_crtcs-IsEnd other a e σs v₀ fb crtcs none 0 (flipped other a e crtcs) s v ready
                  (front fb found) room (omega arith) open₀ (omega arith) in
              simp (memory, found, runs) (finish-IsDone crtcs x small some_flip end)
        ]
      ]
