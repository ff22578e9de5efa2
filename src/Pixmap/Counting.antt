-- ===== src/Pixmap/Counting.antt =====
-- src/amdgpu_pixmap.h and src/amdgpu_bo_helper.c: the counts of buffers over amdgpu_set_pixmap_bo.
use xf86_video_amdgpu.Prelude.{
  ℕ, ◌+◌, ◌-◌, ◌*◌, ◌%◌, ◌^◌, ◌≤◌, ◌<◌, ◌≡◌, refl, sym, ap, ◌∙◌, ◌⊎◌, inl, inr, true, false, Option,
  none, some, List, [], ◌∷◌, if◌then◌else◌, ◌==◌, arith, Bool-cases, ==_iff, Option-cases,
}
use xf86_video_amdgpu.Framebuffer.{Slot, pixmap_fb, Fbs, ok, slot_eq}
use xf86_video_amdgpu.Framebuffer.Counting.{points, occurs, IsCounted, fb_reference-IsCounted}
use xf86_video_amdgpu.DrmQueue.{update}
use xf86_video_amdgpu.Pixmap.{
  Buffer, Memory, set_buffer, note, destroys, bo_ref, bo_unref, bo_unmap,
}
use xf86_video_amdgpu.Pixmap.Private.{
  Private, Screen, new_private, get_pixmap_bo, bo_of, is_same, drop_bo, left_of, attach,
  set_pixmap_bo,
}

-- How many of the pixmaps keep the buffer, and how often a pixmap is listed.
abbrev pub keepers : (ℕ → Option Private) → List ℕ → ℕ → ℕ
keepers private [] b = 0
keepers private (x ∷ xs) b = points (get_pixmap_bo private x) b + keepers private xs b

abbrev pub times : ℕ → List ℕ → ℕ
times x [] = 0
times x (y ∷ ys) = (if y == x then 1 else 0) + times x ys

-- A buffer is allocated as long as something holds it, and its count says how many do.
abbrev pub IsHeldBy : (ℕ → ℕ) → Memory → Type 0
IsHeldBy h m =
    (b : ℕ)
    → ((m.buffer b ≡ none) × (h b ≡ 0))
      ⊎ ((r : Buffer) × (m.buffer b ≡ some r) × (r.ref_count ≡ h b) × (0 < h b) × (h b < 2 ^ 32))

-- The holders are the pixmaps, and `owned` of the rest of the driver.
abbrev pub holders : List ℕ → (ℕ → ℕ) → Screen → ℕ → ℕ
holders xs owned s b = keepers s.private xs b + owned b

keepers-update :
    (xs : List ℕ) (f : ℕ → Option Private) (x : ℕ) (v : Option Private) (b : ℕ)
    → keepers (update f x v) xs b + times x xs * points (bo_of (f x)) b
      ≡ keepers f xs b + times x xs * points (bo_of v) b
unfolding get_pixmap_bo
keepers-update [] f x v b = omega arith
keepers-update (y ∷ ys) f x v b = elim (Bool-cases (y == x)) [
  | inl t ↦ rw t (
      omega (arith, keepers-update ys f x v b, ap (λ z. points (bo_of (f z)) b) ((==_iff y x).0 t)))
  | inr n ↦ rw n (omega (arith, keepers-update ys f x v b))
]

pub keepers-update_once :
    (xs : List ℕ) (f : ℕ → Option Private) (x : ℕ) (v : Option Private) (b : ℕ)
    → times x xs ≡ 1
    → keepers (update f x v) xs b + points (bo_of (f x)) b ≡ keepers f xs b + points (bo_of v) b
keepers-update_once xs f x v b once = omega (arith, rw once at (keepers-update xs f x v b))

bo_ref-IsHeldBy :
    (h : ℕ → ℕ) (b : ℕ) (m : Memory)
    → IsHeldBy h m
    → 0 < h b
    → h b + 1 < 2 ^ 32
    → (t : Memory) × (bo_ref b m ≡ ok t) × IsHeldBy (λ c. h c + points (some b) c) t
unfolding bo_ref
bo_ref-IsHeldBy h b m c held room = elim (c b) [
  | inl (gone, zero_holders) ↦ absurd (ground arith)
  | inr (r, there, count, positive, small) ↦ (
    set_buffer b (some (record r { ref_count = (r.ref_count + 1) % 2 ^ 32 })) m,
    simp (bo_ref, there) refl,
    λ p. ground (arith, c p),
  )
]

bo_unmap-buffer : (b : ℕ) (r : Buffer) (m : Memory) → (bo_unmap b r m).buffer ≡ m.buffer
unfolding bo_unmap
bo_unmap-buffer b r m = elim (Bool-cases (r.cpu_ptr == 0)) [ inl y ↦ rw y refl | inr n ↦ rw n refl ]

decremented : (n : ℕ) → 0 < n → n < 2 ^ 32 → (n + 2 ^ 32 - 1) % 2 ^ 32 ≡ n - 1
decremented n p h = omega arith

pub drop_bo-IsHeldBy :
    (h : ℕ → ℕ) (o : Option ℕ) (m : Memory)
    → IsHeldBy h m
    → ((c : ℕ) → points o c ≤ h c)
    → (t : Memory) × (drop_bo o m ≡ ok t) × IsHeldBy (λ c. h c - points o c) t
unfolding drop_bo bo_unref bo_unmap
drop_bo-IsHeldBy h none m c l = (m, refl, λ p. ground (arith, c p))
drop_bo-IsHeldBy h (some b) m c l = elim (c b) [
  | inl (gone, zero_holders) ↦ absurd (ground (arith, l b))
  | inr (r, there, count, positive, small) ↦ elim (Bool-cases (h b == 1)) [
    | inl last ↦ (
      set_buffer b none (note (destroys b) (bo_unmap b r m)),
      simp (bo_unref, there, count, decremented (h b) positive small) (ground arith),
      λ p. rw (bo_unmap-buffer b r m) (ground (arith, c p)),
    )
    | inr more ↦ (
      set_buffer b (some (record r { ref_count = h b - 1 })) m,
      simp (bo_unref, there, count, decremented (h b) positive small) (ground arith),
      λ p. ground (arith, c p),
    )
  ]
]

-- What amdgpu_set_pixmap_bo stores takes a reference to the buffer it is given.
attach-IsHeldBy :
    (h : ℕ → ℕ) (x : ℕ) (bo : Option ℕ) (p : Option Private) (s : Screen)
    → IsHeldBy h s.memory
    → ((b : ℕ) → bo ≡ some b → (0 < h b) × (h b + 1 < 2 ^ 32))
    → (bo ≡ none → bo_of p ≡ none)
    → (m : Memory) × (v : Option Private) × (attach true x bo p s
        ≡ ok (true, record s { memory = m; private = update s.private x v }))
      × IsHeldBy (λ c. h c + points bo c) m
      × (bo_of v ≡ bo)
unfolding attach
attach-IsHeldBy h x none p s c live empty =
    (s.memory, p, refl, λ b. ground (arith, c b), empty refl)
attach-IsHeldBy h x (some b) none s c live empty =
    let (m, referenced, c') = bo_ref-IsHeldBy h b s.memory c (live b refl).0 (live b refl).1 in
    (m, some (record new_private { bo = some b }), rw (referenced, attach) refl, c', refl)
attach-IsHeldBy h x (some b) (some q) s c live empty =
    let (m, referenced, c') = bo_ref-IsHeldBy h b s.memory c (live b refl).0 (live b refl).1 in
    (m, some (record q { bo = some b }), rw (referenced, attach) refl, c', refl)

pub IsHeldBy-cong : (h k : ℕ → ℕ) (m : Memory) → ((b : ℕ) → h b ≡ k b) → IsHeldBy h m → IsHeldBy k m
IsHeldBy-cong h k m e c b = rw (sym (e b)) (c b)

keepers-points :
    (xs : List ℕ) (f : ℕ → Option Private) (x b : ℕ)
    → times x xs ≡ 1
    → points (bo_of (f x)) b ≤ keepers f xs b
keepers-points xs f x b once = omega (arith, keepers-update_once xs f x none b once)

points-same : (a b : Option ℕ) (n : ℕ) → is_same a b ≡ false → b ≡ some n → points a n ≡ 0
points-same none b n new e = refl
points-same (some a) none n new e = cc
points-same (some a) (some b) n new e = ground arith

points-eq : (a b : Option ℕ) → is_same a b ≡ true → a ≡ b
points-eq (some a) (some b) e = ground arith
points-eq none _ e = cc
points-eq (some a) none e = cc

pub stored_at :
    (f : ℕ → Option Private) (x : ℕ) (v : Option Private) → get_pixmap_bo (update f x v) x ≡ bo_of v
unfolding get_pixmap_bo
stored_at f x v = ground arith

is_same-some : (a b : Option ℕ) → is_same a b ≡ true → (n : ℕ) × (b ≡ some n) × (a ≡ some n)
is_same-some (some a) (some b) e = (b, refl, ground arith)
is_same-some none _ e = cc
is_same-some (some a) none e = cc

absent_fb :
    (x : ℕ) (f : Fbs)
    → f.held (pixmap_fb x) ≡ none
    → (σ : Slot) → f.held σ ≡ (if slot_eq σ (pixmap_fb x) then none else f.held σ)
absent_fb x f none_held (pixmap_fb y) = elim (Bool-cases (y == x)) [
  | inl t ↦ rw t (ap (λ z. f.held (pixmap_fb z)) ((==_iff y x).0 t) ∙ none_held)
  | inr n ↦ rw n refl
]
absent_fb x f none_held σ = refl

-- With the reference of the pixmap let go, what is stored is counted.
stored :
    (xs : List ℕ) (owned : ℕ → ℕ) (x : ℕ) (bo : Option ℕ) (p : Option Private) (s : Screen)
    (m : Memory) (g : Fbs)
    → IsHeldBy (λ b. holders xs owned s b - points (bo_of (s.private x)) b) m
    → times x xs ≡ 1
    → ((b : ℕ)
        → bo ≡ some b
        → (0 < holders xs owned s b - points (bo_of (s.private x)) b)
          × (holders xs owned s b + 1 < 2 ^ 32))
    → (bo ≡ none → bo_of p ≡ none)
    → (t : Screen) × (attach true x bo p (record s { memory = m; fbs = g }) ≡ ok (true, t))
      × (t.fbs ≡ g)
      × IsHeldBy (holders xs owned t) t.memory
      × (get_pixmap_bo t.private x ≡ bo)
unfolding get_pixmap_bo
stored xs owned x bo p s m g c once live empty =
    let (m', v, attached, c', has) =
      attach-IsHeldBy (λ b. holders xs owned s b - points (bo_of (s.private x)) b) x bo p
        (record s { memory = m; fbs = g }) c (λ b e. ((live b e).0, omega (arith, (live b e).1)))
        empty in
    let t : Screen = record s { memory = m'; fbs = g; private = update s.private x v } in
    (
      t,
      attached,
      refl,
      IsHeldBy-cong (λ b. holders xs owned s b - points (bo_of (s.private x)) b + points bo b)
          (holders xs owned t) m'
          (λ b. omega (
            arith,
            keepers-update_once xs s.private x v b once,
            keepers-points xs s.private x b once,
            ap (λ o. points o b) has,
          ))
          c',
      stored_at s.private x v ∙ has,
    )

-- With the buffers and the framebuffers counted, and no framebuffer for a pixmap without a private, a
-- pixmap is given a buffer that is in use, or none: memory that has been freed is not touched, both
-- are counted again, and the pixmap keeps the new buffer. Either that is the buffer that it had, and
-- nothing has changed; or the pixmap has no framebuffer any more, and all other references to
-- framebuffers are as they were.
pub set_pixmap_bo-IsHeldBy :
    (σs : List Slot) (xs : List ℕ) (owned : ℕ → ℕ) (x : ℕ) (bo : Option ℕ) (s : Screen)
    → IsCounted σs s.fbs
    → IsHeldBy (holders xs owned s) s.memory
    → occurs (pixmap_fb x) σs ≡ 1
    → times x xs ≡ 1
    → ((b : ℕ) → bo ≡ some b → (0 < holders xs owned s b) × (holders xs owned s b + 1 < 2 ^ 32))
    → (s.private x ≡ none → s.fbs.held (pixmap_fb x) ≡ none)
    → (t : Screen) × (set_pixmap_bo true x bo s ≡ ok (true, t))
      × IsCounted σs t.fbs
      × IsHeldBy (holders xs owned t) t.memory
      × (get_pixmap_bo t.private x ≡ bo)
      × (((b : ℕ) × (bo ≡ some b) × (get_pixmap_bo s.private x ≡ some b) × (t ≡ s))
          ⊎ ((σ : Slot) → t.fbs.held σ ≡ (if slot_eq σ (pixmap_fb x) then none else s.fbs.held σ)))
unfolding set_pixmap_bo get_pixmap_bo
set_pixmap_bo-IsHeldBy σs xs owned x bo s f c slot once live bare =
    elim (Option-cases (s.private x)) [
      | inl fresh ↦ (elim (Option-cases bo) [
        | inl nothing ↦ (
          s,
          simp (set_pixmap_bo, fresh, nothing) refl,
          f,
          c,
          rw (fresh, nothing) refl,
          inr (absent_fb x s.fbs (bare fresh)),
        )
        | inr (b, given) ↦
            let nothing_kept : (a : ℕ) → points (bo_of (s.private x)) a ≡ 0 = λ a. rw fresh refl in
            let (t, attached, same, c', has) =
              stored xs owned x (some b) none s s.memory s.fbs
                (IsHeldBy-cong (holders xs owned s)
                  (λ b. holders xs owned s b - points (bo_of (s.private x)) b) s.memory
                  (λ b. rw fresh (omega arith)) c)
                once
                (λ a e. let l = live a (given ∙ e) in (omega (arith, l.0, nothing_kept a), l.1))
                (λ _. refl) in
            (
              t,
              simp (set_pixmap_bo, fresh, given, attached) refl,
              rw same f,
              c',
              has ∙ sym given,
              inr (λ σ. ap (λ (g : Fbs). g.held σ) same ∙ absent_fb x s.fbs (bare fresh) σ),
            )
      ])
      | inr (p, there) ↦ elim (Bool-cases (is_same p.bo bo)) [
        | inl same ↦
            let (b, given, has) = is_same-some p.bo bo same in
            (
              s,
              simp (set_pixmap_bo, there, same) refl,
              f,
              c,
              rw there (points-eq p.bo bo same),
              inl (b, given, rw there has, refl),
            )
        | inr new ↦
            let (m, dropped, c') =
              drop_bo-IsHeldBy (holders xs owned s) p.bo s.memory c
                (λ b. omega (arith, rw there at (keepers-points xs s.private x b once))) in
            let (g, released, f', held) =
              fb_reference-IsCounted σs (pixmap_fb x) none s.fbs f slot tt in
            let (t, attached, same, c'', has) =
              stored xs owned x bo (left_of bo p) s m g (rw there c') once
                (λ b e.
                  rw there (omega (arith, (live b e).0, points-same p.bo bo b new e), (live b e).1))
                (λ e. rw e refl) in
            (
              t,
              simp (set_pixmap_bo, there, new, dropped, released, attached) refl,
              rw same f',
              c'',
              has,
              inr (λ σ.
                  ap (λ (g : Fbs). g.held σ) same
                  ∙ ap {B = Option ℕ} (λ (h : Slot → Option ℕ). h σ) held),
            )
      ]
    ]
