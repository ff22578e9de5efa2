-- ===== src/Dri2/Steps.antt =====
-- src/amdgpu_dri2.c: steps of the handlers that keep every reference to a buffer.
use xf86_video_amdgpu.Prelude.{
  ℕ, ◌+◌, ◌≡◌, refl, ◌∙◌, inl, inr, List, [], ◌∷◌, ◌++◌, ◌==◌, arith, Bool-cases, Option-cases,
}
use xf86_video_amdgpu.DrmQueue.{update}
use xf86_video_amdgpu.Dri2.{
  Buffer, Drawable, Effect, completes_swap, completes_wait, drops_pixmap, frees_bo,
  exchanges_pixmaps, Dri2, emit, update_front, can_exchange, can_flip_buffers, exchange_buffers,
  update_screen, set_front_buffer, set_private, set_name, may_flip,
}

abbrev pub completion : Effect → ℕ
completion (completes_swap _ _ _ _ _ _ _ _) = 1
completion (completes_wait _ _ _ _ _) = 1
completion _ = 0

-- How many completions a client has been told.
abbrev pub completions : List Effect → ℕ
completions [] = 0
completions (x ∷ xs) = completion x + completions xs

pub completions-emit :
    (x : Effect) (d : Dri2) → completions (emit x d).effects ≡ completions d.effects + completion x
completions-emit x d = after d.effects
  where
    after : (xs : List Effect) → completions (xs ++ x ∷ []) ≡ completions xs + completion x
    after [] = omega arith
    after (y ∷ ys) = omega (arith, after ys)

-- A step that drops no reference to a buffer, and tells clients of n completions.
pub record Steps (n : ℕ) (d d' : Dri2) : Type 0 where
  pub same_refs : (b : ℕ) → (d'.buffers b).refcnt ≡ (d.buffers b).refcnt
  pub told : completions d'.effects ≡ completions d.effects + n

pub Steps-refl : (d : Dri2) → Steps 0 d d
Steps-refl d = record { same_refs = λ b. refl; told = omega arith }

pub Steps-trans : (n m k : ℕ) {d e f : Dri2} → Steps n d e → Steps m e f → n + m ≡ k → Steps k d f
Steps-trans n m k h l sum = record {
  same_refs = λ b. l.same_refs b ∙ h.same_refs b;
  told = omega (arith, h.told, l.told);
}

pub emit-Steps : (x : Effect) (d : Dri2) → Steps (completion x) d (emit x d)
emit-Steps x d = record { same_refs = λ b. refl; told = completions-emit x d }

pub update_front-Steps :
    (draw : Drawable) (front : ℕ) (d : Dri2) → Steps 0 d (update_front draw front d).1
unfolding update_front
update_front-Steps draw front d = elim (Option-cases (d.flink draw.pixmap)) [
  | inl unnamed ↦ rw (unnamed, update_front) (Steps-refl d)
  | inr (name, named) ↦
      rw (named, update_front)
        (record {
          same_refs = λ b. ground arith;
          told =
              completions-emit _ (emit (drops_pixmap (d.buffers front).pixmap) d)
              ∙ omega (arith, completions-emit (drops_pixmap (d.buffers front).pixmap) d);
        })
]

pub can_exchange-Steps :
    (draw : Drawable) (front back : ℕ) (d : Dri2) → Steps 0 d (can_exchange draw front back d).1
unfolding can_exchange
can_exchange-Steps draw front back d = elim (Bool-cases (update_front draw front d).0) [
  | inl t ↦ rw t (update_front-Steps draw front d)
  | inr f ↦ rw f (update_front-Steps draw front d)
]

pub can_flip_buffers-Steps :
    (draw : Drawable) (front back : ℕ) (d : Dri2) → Steps 0 d (can_flip_buffers draw front back d).1
unfolding can_flip_buffers
can_flip_buffers-Steps draw front back d = elim (Bool-cases (may_flip draw d.server)) [
  | inl t ↦ simp t (can_exchange-Steps draw front back d)
  | inr f ↦ simp f (Steps-refl d)
]

pub set_front_buffer-Steps : (bo : ℕ) (d : Dri2) → Steps 0 d (set_front_buffer bo d)
unfolding set_front_buffer
set_front_buffer-Steps bo d =
    elim (Bool-cases (update d.bo_refs bo (d.bo_refs bo + 1) d.front_buffer == 1)) [
      | inl t ↦
          simp t
            (record { same_refs = λ b. refl; told = completions-emit (frees_bo d.front_buffer) d })
      | inr f ↦ simp f (record { same_refs = λ b. refl; told = omega arith })
    ]

pub update_screen-Steps :
    (front_pix back_pix : ℕ) (d : Dri2) → Steps 0 d (update_screen front_pix back_pix d)
unfolding update_screen
update_screen-Steps front_pix back_pix d =
    let h = set_front_buffer-Steps (d.bo_of back_pix) d in
    elim (Bool-cases (d.bo_of front_pix == d.front_buffer)) [
      | inr f ↦ simp f (Steps-refl d)
      | inl t ↦ simp t (record { same_refs = h.same_refs; told = h.told })
    ]

pub exchange_buffers-Steps : (front back : ℕ) (d : Dri2) → Steps 0 d (exchange_buffers front back d)
unfolding exchange_buffers
exchange_buffers-Steps front back d =
    let f : Buffer = d.buffers front in
    let b : Buffer = d.buffers back in
    let front_pix : ℕ = (d.pixmaps f.pixmap).private in
    let back_pix : ℕ = (d.pixmaps b.pixmap).private in
    let d₁ : Dri2 =
      set_private b.pixmap front_pix
        (set_private f.pixmap back_pix (set_name back f.name (set_name front b.name d))) in
    let first : Steps 0 d d₁ = record { same_refs = λ x. ground arith; told = omega arith } in
    Steps-trans 0 0 0 first
      (Steps-trans 0 0 0 (update_screen-Steps front_pix back_pix d₁)
        (emit-Steps (exchanges_pixmaps f.pixmap b.pixmap) (update_screen front_pix back_pix d₁))
        (omega arith))
      (omega arith)

-- The conditions of a flip that do not depend on the buffers stay.
abbrev pub Stays : Dri2 → Dri2 → Type 0
Stays d d' = (d'.server ≡ d.server) × (d'.timing ≡ d.timing)

pub can_flip_buffers-Stays :
    (draw : Drawable) (front back : ℕ) (d : Dri2) → Stays d (can_flip_buffers draw front back d).1
unfolding can_flip_buffers can_exchange update_front
can_flip_buffers-Stays draw front back d = (ground arith, ground arith)

pub exchange_buffers-server :
    (front back : ℕ) (d : Dri2) → (exchange_buffers front back d).server ≡ d.server
unfolding exchange_buffers update_screen set_front_buffer
exchange_buffers-server front back d = ground arith
