-- ===== src/DrmQueue/Loops.antt =====
-- src/amdgpu_drm_queue.c: the loops that run callbacks, and what they rely on in the callbacks.
use xf86_video_amdgpu.Prelude.{
  ℕ, zero, suc, ◌+◌, ◌≤◌, ◌<◌, ◌≡◌, ap, inl, inr, some, List, [], ◌∷◌, ◌++◌, arith, if◌then◌else◌,
  ◌==◌, Bool-cases, Option-cases, length, List-cases,
}
use mathlib.Core.Path.{subst}
use xf86_video_amdgpu.DrmQueue.{
  Entry, State, Driver, handle_one, vblank_round, handle_vblank_signalled, handle_flip_signalled,
}
use xf86_video_amdgpu.DrmQueue.Count.{count_seq, count_seq-append, All, All-append}
use xf86_video_amdgpu.DrmQueue.Invariant.{IsValid, IsReadyVblank, IsReadyFlip}

-- What the queue relies on in the callbacks that are registered with it: they use the queue by its
-- operations, so they keep its invariant, and they leave no more signalled entries behind than
-- they found.
pub record Contract {W : Type 0} (d : Driver W) : Type 0 where
  pub valid :
      (h crtc frame usec event_data : ℕ) (s : State W)
      → IsValid s
      → IsValid (d.run_handler h crtc frame usec event_data s)
  pub vblanks_le :
      (h crtc frame usec event_data : ℕ) (s : State W)
      → length (d.run_handler h crtc frame usec event_data s).vblank_signalled
        ≤ length s.vblank_signalled
  pub flips_le :
      (h crtc frame usec event_data : ℕ) (s : State W)
      → length (d.run_handler h crtc frame usec event_data s).flip_signalled
        ≤ length s.flip_signalled

pub IsValid-world :
    {W : Type 0} (s : State W) (w : W) → IsValid s → IsValid (record s { world = w })
IsValid-world s w v = record {
  distinct = v.distinct;
  nonzero = v.nonzero;
  fresh = v.fresh;
  flips = v.flips;
  vblanks = v.vblanks;
  deferreds = v.deferreds;
}

-- A state in which the first signalled entry has been unlinked.
IsValid-pop_vblank :
    {W : Type 0} (s : State W) (e : Entry) (rest : List Entry)
    → s.vblank_signalled ≡ e ∷ rest
    → IsValid s
    → IsValid (record s { vblank_signalled = rest })
IsValid-pop_vblank s e rest eq v = record {
  distinct = λ n. ground (arith, ap (count_seq n) eq, v.distinct n);
  nonzero = ground (arith, ap (count_seq 0) eq, v.nonzero);
  fresh = λ n le. ground (arith, ap (count_seq n) eq, v.fresh n le);
  flips = v.flips;
  vblanks = (subst (All IsReadyVblank) eq v.vblanks).1;
  deferreds = v.deferreds;
}

IsValid-defer_vblank :
    {W : Type 0} (s : State W) (e : Entry) (rest : List Entry)
    → s.vblank_signalled ≡ e ∷ rest
    → IsValid s
    → IsValid (record s { vblank_signalled = rest; vblank_deferred = s.vblank_deferred ++ e ∷ [] })
IsValid-defer_vblank s e rest eq v = record {
  distinct = λ n. ground (arith, ap (count_seq n) eq, v.distinct n, moved n);
  nonzero = ground (arith, ap (count_seq 0) eq, v.nonzero, moved 0);
  fresh = λ n le. ground (arith, ap (count_seq n) eq, v.fresh n le, moved n);
  flips = v.flips;
  vblanks = (subst (All IsReadyVblank) eq v.vblanks).1;
  deferreds =
      All-append IsReadyVblank s.vblank_deferred _ v.deferreds
        ((subst (All IsReadyVblank) eq v.vblanks).0, tt);
}
  where
    moved :
        (n : ℕ)
        → count_seq n (s.vblank_deferred ++ e ∷ [])
          ≡ count_seq n s.vblank_deferred + (if e.seq == n then 1 else 0)
    moved n = omega (arith, count_seq-append n s.vblank_deferred (e ∷ []))

IsValid-pop_flip :
    {W : Type 0} (s : State W) (e : Entry) (rest : List Entry)
    → s.flip_signalled ≡ e ∷ rest
    → IsValid s
    → IsValid (record s { flip_signalled = rest })
IsValid-pop_flip s e rest eq v = record {
  distinct = λ n. ground (arith, ap (count_seq n) eq, v.distinct n);
  nonzero = ground (arith, ap (count_seq 0) eq, v.nonzero);
  fresh = λ n le. ground (arith, ap (count_seq n) eq, v.fresh n le);
  flips = (subst (All IsReadyFlip) eq v.flips).1;
  vblanks = v.vblanks;
  deferreds = v.deferreds;
}

module _ {W : Type 0} (d : Driver W) (k : Contract d) where
  pub handle_one-IsValid : (e : Entry) (s : State W) → IsValid s → IsValid (handle_one d e s)
  unfolding handle_one
  handle_one-IsValid e s v = elim (Option-cases e.handler) [
    | inl gone ↦ rw (gone, handle_one) (IsValid-world s _ v)
    | inr (h, set) ↦ rw (set, handle_one) (k.valid h e.crtc e.frame e.usec e.event_data s v)
  ]

  handle_one-le :
      (e : Entry) (s : State W)
      → (length (handle_one d e s).vblank_signalled ≤ length s.vblank_signalled)
        × (length (handle_one d e s).flip_signalled ≤ length s.flip_signalled)
  unfolding handle_one
  handle_one-le e s = elim (Option-cases e.handler) [
    | inl gone ↦ rw (gone, handle_one) (omega arith, omega arith)
    | inr (h, set) ↦
        rw (set, handle_one)
          (
            k.vblanks_le h e.crtc e.frame e.usec e.event_data s,
            k.flips_le h e.crtc e.frame e.usec e.event_data s,
          )
  ]

  vblank_round-IsValid :
      (s : State W) (e : Entry) (rest : List Entry)
      → s.vblank_signalled ≡ e ∷ rest
      → IsValid s
      → IsValid (vblank_round d e (record s { vblank_signalled = rest }))
        × (length (vblank_round d e (record s { vblank_signalled = rest })).vblank_signalled
            ≤ length rest)
        × (length (vblank_round d e (record s { vblank_signalled = rest })).flip_signalled
            ≤ length s.flip_signalled)
  unfolding vblank_round
  vblank_round-IsValid s e rest eq v = elim (Bool-cases (s.nesting e.crtc == 0)) [
    | inl t ↦ rw t (
      handle_one-IsValid e _ (IsValid-pop_vblank s e rest eq v),
      (handle_one-le e (record s { vblank_signalled = rest })).0,
      (handle_one-le e (record s { vblank_signalled = rest })).1,
    )
    | inr f ↦ rw f (IsValid-defer_vblank s e rest eq v, omega arith, omega arith)
  ]

  -- With more fuel than there are signalled vblank events, the loop over them ends, whatever the
  -- callbacks do within their contract: the list is empty then, the invariant holds, and there are
  -- no more signalled flips than before.
  pub handle_vblank_signalled-total :
      (f : ℕ) (s : State W)
      → length s.vblank_signalled < f
      → IsValid s
      → (t : State W) × (handle_vblank_signalled d f s ≡ some t)
        × (t.vblank_signalled ≡ [])
        × IsValid t
        × (length t.flip_signalled ≤ length s.flip_signalled)
  unfolding handle_vblank_signalled
  handle_vblank_signalled-total zero s h v = absurd (omega arith)
  handle_vblank_signalled-total (suc f) s h v = elim (List-cases s.vblank_signalled) [
    | inl empty ↦ (s, ground arith, empty, v, omega arith)
    | inr (e, rest, eq) ↦
        let round = vblank_round-IsValid s e rest eq v in
        let (t, runs, done, valid, fewer) =
          handle_vblank_signalled-total f (vblank_round d e (record s { vblank_signalled = rest }))
            (omega (arith, ap length eq, round.1)) round.0 in
        (t, rw (eq, handle_vblank_signalled) runs, done, valid, omega (arith, round.2))
  ]

  pub handle_flip_signalled-total :
      (f : ℕ) (s : State W)
      → length s.flip_signalled < f
      → IsValid s
      → (t : State W) × (handle_flip_signalled d f s ≡ some t)
        × (t.flip_signalled ≡ [])
        × IsValid t
        × (length t.vblank_signalled ≤ length s.vblank_signalled)
  unfolding handle_flip_signalled
  handle_flip_signalled-total zero s h v = absurd (omega arith)
  handle_flip_signalled-total (suc f) s h v = elim (List-cases s.flip_signalled) [
    | inl empty ↦ (s, ground arith, empty, v, omega arith)
    | inr (e, rest, eq) ↦
        let le = handle_one-le e (record s { flip_signalled = rest }) in
        let (t, runs, done, valid, fewer) =
          handle_flip_signalled-total f (handle_one d e (record s { flip_signalled = rest }))
            (omega (arith, ap length eq, le.1))
            (handle_one-IsValid e _ (IsValid-pop_flip s e rest eq v)) in
        (t, rw (eq, handle_flip_signalled) runs, done, valid, omega (arith, le.0))
  ]
