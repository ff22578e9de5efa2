-- ===== src/Pageflip/Submit/Rounds.antt =====
-- src/drmmode_display.c: one round of the loop of amdgpu_do_pageflip over the CRTCs.
use xf86_video_amdgpu.Prelude.{
  ℕ, suc, ◌+◌, ◌%◌, ◌^◌, ◌≤◌, ◌<◌, ◌≡◌, refl, ap, ◌∙◌, ◌⊎◌, inl, inr, true, false, ◌&&◌, Option,
  some, List, [], ◌∷◌, ◌++◌, if◌then◌else◌, ◌==◌, arith,
}
use xf86_video_amdgpu.Framebuffer.{Slot, ok, pixmap_fb}
use xf86_video_amdgpu.Framebuffer.Counting.{IsCounted}
use xf86_video_amdgpu.DrmQueue.{Entry, Driver, State, next_seq, queue_alloc, queue_error}
use xf86_video_amdgpu.DrmQueue.Invariant.{IsValid, queue_alloc-IsValid}
use xf86_video_amdgpu.Pageflip.{FlipData, set_flipdata}
use xf86_video_amdgpu.Pageflip.Completion.{HasSlots}
use xf86_video_amdgpu.Pageflip.Submit.{
  Screen, World, Submission, Setting, Progress, Round, goes_on, fails, abort_in, flip_abort_proc,
  flip_handler_proc, flip_driver, count_up, allocate, flip_crtc, is_flipped, undo, new_flipdata,
}
use xf86_video_amdgpu.Pageflip.Submit.Undo.{abort_entry-queue_alloc}
use xf86_video_amdgpu.Pageflip.Submit.Account.{
  IsPixmap, Keeps, intact, CanShow, flip_allocated-IsKept,
}

-- How many entries of the list complete the flip.
abbrev pub owed : ℕ → List Entry → ℕ
owed f [] = 0
owed f (x ∷ xs) = (if x.abort == flip_abort_proc && x.event_data == f then 1 else 0) + owed f xs

pub owed-append : (f : ℕ) (xs ys : List Entry) → owed f (xs ++ ys) ≡ owed f xs + owed f ys
owed-append f [] ys = omega arith
owed-append f (x ∷ xs) ys = omega (arith, owed-append f xs ys)

pub owed-new :
    (f : ℕ) (q : List Entry) (x : Entry)
    → (x.abort == flip_abort_proc) ≡ true
    → (x.event_data == f) ≡ true
    → owed f (q ++ x ∷ []) ≡ suc (owed f q)
owed-new f q x h k = owed-append f q (x ∷ []) ∙ rw (h, k) (omega arith)

pub recount-IsValid :
    {W : Type 0} (s : State W) (w : W) (q : ℕ)
    → IsValid s
    → s.queue_seq ≤ q
    → IsValid (record s { world = w; queue_seq = q })
recount-IsValid s w q v le = record {
  distinct = v.distinct;
  nonzero = v.nonzero;
  fresh = λ n h. v.fresh n (omega arith);
  flips = v.flips;
  vblanks = v.vblanks;
  deferreds = v.deferreds;
}

abbrev pub Each : (ℕ → Type 0) → List ℕ → Type 0
Each P [] = Unit {0}
Each P (x ∷ xs) = P x × Each P xs

-- How many of the CRTCs the loop flips.
abbrev pub flipped : Driver World → Submission → Setting → List ℕ → ℕ
flipped other a e [] = 0
flipped other a e (crtc ∷ crtcs) =
    (if is_flipped other a e crtc then 1 else 0) + flipped other a e crtcs

module _ (other : Driver World) (a : Submission) (e : Setting) (σs : List Slot) (v₀ : Screen) where
  -- The flip counts to m, and n entries of the queue complete it. Nothing has been called.
  pub record IsOpen (n m : ℕ) (s : State World) (v : Screen) : Type 0 where
    pub counted : IsCounted σs v.flips.fbs
    pub there :
        v.flips.flipdata e.address ≡ some (record (new_flipdata other a e) { flip_count = m })
    pub same_calls : v.calls ≡ v₀.calls
    pub same_updates : v.update_pending ≡ v₀.update_pending
    pub same_pixmaps : (i : ℕ) → v.flips.fbs.held (pixmap_fb i) ≡ v₀.flips.fbs.held (pixmap_fb i)
    pub owes : owed e.address s.queue ≡ n
    pub valid : IsValid s

  -- The entry for the CRTC is to be aborted, or was not allocated: what is left to do is one abort.
  abbrev pub IsFailed : (crtc n : ℕ) → Progress → (queue_seq : ℕ) → Type 0
  IsFailed crtc n p seq =
      (t : State World) × (u : Screen) × (undo other a e seq (some crtc) p.state
        ≡ record t { world = abort_in crtc e.address (ok u) })
      × (p.deferred ≡ false)
      × IsOpen n (suc n) t u

  abbrev pub IsRound : (crtc n : ℕ) → State World → Round → Type 0
  IsRound crtc n s r =
      ((s' : State World) × (v' : Screen) × (r ≡ goes_on (intact s' v'))
        × (s'.queue_seq ≤ s.queue_seq + 2)
        × IsOpen (suc n) (suc n) s' v')
      ⊎ ((p : Progress) × (seq : ℕ) × (r ≡ fails p seq) × IsFailed crtc n p seq)

  pub count_up_lem :
      (n m : ℕ) (s : State World) (v : Screen)
      → IsOpen n m s v
      → suc m < 2 ^ 31
      → (v' : Screen) × (count_up e.address (ok v) ≡ ok v') × IsOpen n (suc m) s v'
  unfolding count_up
  count_up_lem n m s v h small =
      let up : (m + 1) % 2 ^ 32 ≡ suc m = omega arith in
      (
        record v {
          flips =
              set_flipdata e.address (some (record (new_flipdata other a e) { flip_count = suc m }))
                v.flips;
        },
        rw (h.there, up) refl,
        record {
          counted = h.counted;
          there = ground arith;
          same_calls = h.same_calls;
          same_updates = h.same_updates;
          same_pixmaps = h.same_pixmaps;
          owes = h.owes;
          valid = h.valid;
        },
      )

  pub IsOpen-Keeps :
      (n m k : ℕ) (s t : State World) (v v' : Screen)
      → IsOpen n m s v
      → Keeps σs v v'
      → owed e.address t.queue ≡ k
      → IsValid t
      → IsOpen k m t v'
  IsOpen-Keeps n m k s t v v' h keeps owes valid = record {
    counted = keeps.counted;
    there = ap (λ (g : ℕ → Option FlipData). g e.address) keeps.same_flips ∙ h.there;
    same_calls = keeps.same_calls ∙ h.same_calls;
    same_updates = keeps.same_updates ∙ h.same_updates;
    same_pixmaps = λ i. keeps.same_pixmaps i ∙ h.same_pixmaps i;
    owes = owes;
    valid = valid;
  }

  pub IsOpen-IsPixmap :
      (n m q : ℕ) (s : State World) (v : Screen)
      → IsOpen n m s v
      → IsPixmap σs v₀.flips.fbs q
      → IsPixmap σs v.flips.fbs q
  IsOpen-IsPixmap n m q s v h (i, once, holds) = (i, once, h.same_pixmaps i ∙ holds)

  pub IsOpen-CanShow :
      (n m crtc : ℕ) (s : State World) (v : Screen)
      → IsOpen n m s v
      → CanShow e σs crtc v₀
      → CanShow e σs crtc v
  IsOpen-CanShow n m crtc s v h (idle, pixmaps) = (
    ap (λ (g : ℕ → ℕ). g crtc) h.same_updates ∙ idle,
    λ i q found. IsOpen-IsPixmap n m q s v h (pixmaps i q found),
  )

  pub kept-IsRound :
      (crtc n : ℕ) (s : State World) (v v' : Screen) (r : Round)
      → s.queue_seq + 2 < 2 ^ 64
      → IsOpen n (suc n) s v
      → let (t, seq) =
          queue_alloc
            (flip_driver other)
            true
            crtc
            a.client
            a.id
            e.address
            flip_handler_proc
            flip_abort_proc
            true
            (record s { world = ok v }) in
        Keeps σs v v'
        → ((r ≡ goes_on (intact t v')) ⊎ (r ≡ fails (intact t v') seq))
        → IsRound crtc n s r
  unfolding queue_alloc next_seq undo flip_driver
  kept-IsRound crtc n s v v' r room h keeps ends =
      let d : Driver World = flip_driver other in
      let s₁ : State World = record s { world = ok v } in
      let new =
        queue_alloc d true crtc a.client a.id e.address flip_handler_proc flip_abort_proc true s₁ in
      let valid : IsValid s₁ = recount-IsValid s (ok v) s.queue_seq h.valid (omega arith) in
      let known : (next_seq s.queue_seq == queue_error) ≡ false = ground arith in
      let q : ℕ = (next_seq s.queue_seq + 1) % 2 ^ 64 in
      let below : (s.queue_seq ≤ q) × (q ≤ s.queue_seq + 2) = ground arith in
      elim ends [
        | inl on ↦ inl (
          new.0,
          v',
          on,
          below.1,
          IsOpen-Keeps n (suc n) (suc n) s new.0 v v' h keeps
              (owed-new e.address s.queue _ refl (ground arith) ∙ ap suc h.owes)
              (queue_alloc-IsValid d true crtc a.client a.id e.address flip_handler_proc
                flip_abort_proc true s₁ room valid),
        )
        | inr off ↦ inr (
          intact new.0 v',
          new.1,
          off,
          (
            record s { queue_seq = q },
            v',
            rw known (
                abort_entry-queue_alloc d crtc a.client a.id e.address flip_handler_proc
                  flip_abort_proc true s₁ (ok v') valid),
            refl,
            IsOpen-Keeps n (suc n) n s (record s { queue_seq = q }) v v' h keeps h.owes
                (recount-IsValid s s.world q h.valid below.0),
          ),
        )
      ]

  pub allocated-IsRound :
      (fb crtc n : ℕ) (s : State World) (v : Screen)
      → e.entry_memory crtc ≡ true
      → is_flipped other a e crtc ≡ true
      → HasSlots σs e.address crtc
      → CanShow e σs crtc v₀
      → IsPixmap σs v₀.flips.fbs fb
      → s.queue_seq + 2 < 2 ^ 64
      → suc n < 2 ^ 31
      → IsOpen n n s v
      → (r : Round) × (flip_crtc other a e fb crtc (intact s v) ≡ some r) × IsRound crtc n s r
  unfolding flip_crtc allocate queue_alloc next_seq
  allocated-IsRound fb crtc n s v memory flips slots show front room small h =
      let (v₁, counts, h₁) = count_up_lem n n s v h small in
      let d : Driver World = flip_driver other in
      let s₁ : State World = record s { world = ok v₁ } in
      let new =
        queue_alloc d true crtc a.client a.id e.address flip_handler_proc flip_abort_proc true s₁ in
      let (r, runs, (v', keeps, ends)) =
        flip_allocated-IsKept other a e σs crtc new.1 new.0 fb v₁ h₁.counted slots
          (IsOpen-CanShow n (suc n) crtc s v₁ h₁ show)
          (IsOpen-IsPixmap n (suc n) fb s v₁ h₁ front) in
      let known : (next_seq s.queue_seq == queue_error) ≡ false = ground arith in
      (
        r,
        simp (flips, memory, counts, known, runs),
        kept-IsRound crtc n s v₁ v' r room h₁ keeps ends,
      )
