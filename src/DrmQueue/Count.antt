-- ===== src/DrmQueue/Count.antt =====
-- Lemmas on the lists of src/amdgpu_drm_queue.c: how often a sequence number occurs in a list, and
-- predicates of all entries of a list.
use xf86_video_amdgpu.Prelude.{
  ℕ, suc, ◌+◌, ◌≡◌, refl, ◌⊎◌, inl, inr, Bool, true, not, Option, none, some, List, [], ◌∷◌, ◌++◌,
  map, arith, if◌then◌else◌, ◌==◌, Bool-cases, Option-cases, length,
}
use xf86_video_amdgpu.DrmQueue.{Entry, take_first, select}

abbrev pub count_seq : ℕ → List Entry → ℕ
count_seq n [] = 0
count_seq n (e ∷ es) = (if e.seq == n then 1 else 0) + count_seq n es

pub count_seq-append :
    (n : ℕ) (xs ys : List Entry) → count_seq n (xs ++ ys) ≡ count_seq n xs + count_seq n ys
count_seq-append n [] ys = omega arith
count_seq-append n (x ∷ xs) ys = omega (arith, count_seq-append n xs ys)

pub count_seq-select :
    (n : ℕ) (p : Entry → Bool) (xs : List Entry)
    → count_seq n (select p xs) + count_seq n (select (λ e. not (p e)) xs) ≡ count_seq n xs
unfolding select
count_seq-select n p [] = refl
count_seq-select n p (x ∷ xs) = ground (arith, count_seq-select n p xs)

pub count_seq-map :
    (n : ℕ) (f : Entry → Entry) (xs : List Entry)
    → ((e : Entry) → (f e).seq ≡ e.seq)
    → count_seq n (map f xs) ≡ count_seq n xs
count_seq-map n f [] h = refl
count_seq-map n f (x ∷ xs) h = ground (arith, h x, count_seq-map n f xs h)

-- `take_first` takes one entry that passes the test, and no other entry changes.
abbrev pub Taken : (Entry → Bool) → List Entry → Option (Entry × List Entry) → Type 0
Taken p xs r =
    ((r ≡ none) × ((n : ℕ) → ((e : Entry) → e.seq ≡ n → p e ≡ true) → count_seq n xs ≡ 0))
    ⊎ ((e : Entry) × (rest : List Entry) × (r ≡ some (e, rest))
        × (p e ≡ true)
        × ((n : ℕ) → count_seq n xs ≡ (if e.seq == n then 1 else 0) + count_seq n rest)
        × (length xs ≡ suc (length rest)))

pub take_first-Taken : (p : Entry → Bool) (xs : List Entry) → Taken p xs (take_first p xs)
unfolding take_first
take_first-Taken p [] = inl (refl, λ n h. refl)
take_first-Taken p (x ∷ xs) = elim (Bool-cases (p x)) [
  | inl t ↦ inr (x, xs, rw t, t, λ n. refl, refl)
  | inr f ↦ elim (take_first-Taken p xs) [
    | inl (e, h) ↦ inl (rw (f, e), λ n all. ground (arith, h n all, all x))
    | inr (e, rest, eq, pe, c, l) ↦
        inr (e, x ∷ rest, rw (f, eq), pe, λ n. omega (arith, c n), omega arith)
  ]
]

abbrev pub All : (Entry → Type 0) → List Entry → Type 0
All P [] = Unit
All P (x ∷ xs) = P x × All P xs

pub All-append : (P : Entry → Type 0) (xs ys : List Entry) → All P xs → All P ys → All P (xs ++ ys)
All-append P [] ys h k = k
All-append P (x ∷ xs) ys h k = (h.0, All-append P xs ys h.1 k)

pub All-select :
    (P : Entry → Type 0) (p : Entry → Bool) (xs : List Entry) → All P xs → All P (select p xs)
unfolding select
All-select P p [] h = tt
All-select P p (x ∷ xs) h = elim (Bool-cases (p x)) [
  | inl t ↦ rw t (h.0, All-select P p xs h.1)
  | inr f ↦ rw f (All-select P p xs h.1)
]

pub All-take_first :
    (P : Entry → Type 0) (p : Entry → Bool) (xs : List Entry) (e : Entry) (rest : List Entry)
    → take_first p xs ≡ some (e, rest)
    → All P xs
    → P e × All P rest
unfolding take_first
All-take_first P p [] e rest h k = cc
All-take_first P p (x ∷ xs) e rest h k = elim (Bool-cases (p x)) [
  | inl t ↦
      let head : x ≡ e = ground arith in
      let tail : xs ≡ rest = ground arith in (rw (← head) k.0, rw (← tail) k.1)
  | inr f ↦ elim (Option-cases (take_first p xs)) [
    | inl n ↦ absurd (ground arith)
    | inr ((y, ys), found) ↦
        let head : y ≡ e = ground arith in
        let tail : x ∷ ys ≡ rest = ground arith in
        let ih = All-take_first P p xs y ys found k.1 in (rw (← head) ih.0, rw (← tail) (k.0, ih.1))
  ]
]
