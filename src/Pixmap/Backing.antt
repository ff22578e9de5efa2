-- ===== src/Pixmap/Backing.antt =====
-- src/amdgpu_pixmap.h, amdgpu_pixmap_get_fb: the framebuffer of a pixmap and its count.
use xf86_video_amdgpu.Prelude.{
  ℕ, ◌+◌, ◌≡◌, ◌≢◌, refl, sym, ◌∙◌, inl, inr, true, false, Option, none, some, List, arith,
  Bool-cases, Option-cases,
}
use xf86_video_amdgpu.Framebuffer.{Slot, pixmap_fb, Fbs, ok, set_slot, set_fb}
use xf86_video_amdgpu.Framebuffer.Counting.{
  points, occurs, IsCounted, holders, holders-set_slot_once,
}
use xf86_video_amdgpu.Pixmap.{Settings}
use xf86_video_amdgpu.Pixmap.Private.{Private, Screen, new_private, set_private}
use xf86_video_amdgpu.Pixmap.Exports.{
  Answers, do_get_tiling_info, find_handle, handle_of, get_handle, fb_create, has_fb_ptr, get_fb,
  fb_at,
}

emptied :
    (σs : List Slot) (σ : Slot) (f : Fbs)
    → IsCounted σs f
    → occurs σ σs ≡ 1
    → f.held σ ≡ none
    → IsCounted σs (set_slot σ none f)
emptied σs σ f c once empty p =
    let same : holders (set_slot σ none f).held σs p ≡ holders f.held σs p =
      omega (arith, rw empty at (holders-set_slot_once σs σ none f p once)) in
    rw same (c p)

filled :
    (σs : List Slot) (σ : Slot) (f : Fbs) (q k : ℕ)
    → IsCounted σs f
    → occurs σ σs ≡ 1
    → f.held σ ≡ none
    → f.fb q ≡ none
    → IsCounted σs (set_slot σ (some q) (set_fb q (some (record { refcnt = 1; handle = k })) f))
filled σs σ f q k c once empty free p =
    let same : holders (set_slot σ (some q) f).held σs p ≡ holders f.held σs p + points (some q) p =
      omega (arith, rw empty at (holders-set_slot_once σs σ (some q) f p once)) in
    rw same (ground (arith, c p, c q))

-- The framebuffer that is made has one holder.
fb_create-IsCounted :
    (σs : List Slot) (σ : Slot) (a : Answers) (h : ℕ) (f : Fbs)
    → IsCounted σs f
    → occurs σ σs ≡ 1
    → f.held σ ≡ none
    → ((q : ℕ) → a.address ≡ some q → f.fb q ≡ none)
    → IsCounted σs (fb_create a h σ f)
unfolding fb_create
fb_create-IsCounted σs σ a h f c once empty fresh = elim (Option-cases a.address) [
  | inl nowhere ↦ simp (fb_create, nowhere) (emptied σs σ f c once empty)
  | inr (q, there) ↦ elim (Option-cases (a.add_fb h)) [
    | inl refused ↦ simp (fb_create, there, refused) (emptied σs σ f c once empty)
    | inr (k, added) ↦
        simp (fb_create, there, added) (filled σs σ f q k c once empty (fresh q there))
  ]
]

-- What amdgpu_pixmap_get_handle leaves behind: a private, and every framebuffer as it was.
abbrev Finds : Answers → Settings → ℕ → Screen → Type 0
Finds a i x s =
    (found : Option ℕ) × (p : Private) × (get_handle a i x s ≡ ok (found, set_private x (some p) s))

handle_of-glamor :
    (a : Answers) (i : Settings) (x : ℕ) (p : Private) (s : Screen)
    → i.use_glamor ≡ true
    → (found : Option ℕ) × (q : Private) × (handle_of a i x p s
        ≡ ok (found, set_private x (some q) s))
unfolding handle_of find_handle
handle_of-glamor a i x p s glamor = elim (Bool-cases p.handle_valid) [
  | inl valid ↦ (some p.handle, p, simp (handle_of, valid) refl)
  | inr unknown ↦ elim (Bool-cases a.glamor_fd) [
    | inr none_given ↦ (none, p, simp (handle_of, find_handle, unknown, glamor, none_given) refl)
    | inl given ↦ elim (Option-cases a.prime_handle) [
      | inl refused ↦ (none, p, simp (handle_of, find_handle, unknown, glamor, given, refused) refl)
      | inr (h, imported) ↦
          let q = do_get_tiling_info a (record p { handle = h }) in
          (
            some q.handle,
            record q { handle_valid = true },
            simp (handle_of, find_handle, unknown, glamor, given, imported) refl,
          )
    ]
  ]
]

get_handle-glamor :
    (a : Answers) (i : Settings) (x : ℕ) (s : Screen)
    → i.use_glamor ≡ true
    → i.shadow_fb ≡ false
    → a.callocs ≡ true
    → Finds a i x s
unfolding get_handle
get_handle-glamor a i x s glamor shadow callocs = elim (Option-cases (s.private x)) [
  | inl fresh ↦
      let (found, q, handled) = handle_of-glamor a i x new_private s glamor in
      (found, q, simp (get_handle, shadow, fresh, callocs, handled) refl)
  | inr (p, there) ↦
      let (found, q, handled) = handle_of-glamor a i x p s glamor in
      (found, q, simp (get_handle, shadow, there, handled) refl)
]

has_fb_ptr-set_private :
    (i : Settings) (x : ℕ) (p : Private) (s : Screen)
    → i.use_glamor ≡ true
    → has_fb_ptr i x (set_private x (some p) s) ≡ true
unfolding has_fb_ptr
has_fb_ptr-set_private i x p s glamor = rw glamor (ground arith)

fb_at-held :
    (i : Settings) (x : ℕ) (s : Screen)
    → i.use_glamor ≡ true
    → (s.private x ≡ none → s.fbs.held (pixmap_fb x) ≡ none)
    → fb_at i x s ≡ s.fbs.held (pixmap_fb x)
unfolding fb_at has_fb_ptr
fb_at-held i x s glamor empty = elim (Option-cases (s.private x)) [
  | inl fresh ↦ rw (glamor, fresh, empty fresh) refl
  | inr (p, there) ↦ rw (glamor, there) refl
]

-- A framebuffer that the pixmap holds is the answer, with nothing changed.
get_fb-held :
    (a : Answers) (i : Settings) (x : ℕ) (s : Screen) (q : ℕ)
    → fb_at i x s ≡ some q
    → get_fb a i x s ≡ ok (some q, s)
unfolding get_fb
get_fb-held a i x s q held = rw (held, get_fb) refl

-- With glamor, where memory is not short: asking for the framebuffer of a pixmap returns what the
-- pixmap then holds, with every framebuffer counted; one that it held before is the answer, with
-- nothing changed; and asking again returns the same framebuffer, with nothing changed.
pub get_fb-IsCounted :
    (σs : List Slot) (a : Answers) (i : Settings) (x : ℕ) (s : Screen)
    → i.use_glamor ≡ true
    → i.shadow_fb ≡ false
    → a.callocs ≡ true
    → IsCounted σs s.fbs
    → occurs (pixmap_fb x) σs ≡ 1
    → (s.private x ≡ none → s.fbs.held (pixmap_fb x) ≡ none)
    → ((q : ℕ) → a.address ≡ some q → s.fbs.fb q ≡ none)
    → (r : Option ℕ) × (t : Screen) × (get_fb a i x s ≡ ok (r, t))
      × IsCounted σs t.fbs
      × (t.fbs.held (pixmap_fb x) ≡ r)
      × (s.fbs.held (pixmap_fb x) ≢ none → (r ≡ s.fbs.held (pixmap_fb x)) × (t ≡ s))
      × ((b : Answers) (q : ℕ) → r ≡ some q → get_fb b i x t ≡ ok (some q, t))
unfolding get_fb
get_fb-IsCounted σs a i x s glamor shadow callocs c once empty fresh =
    let at_held = fb_at-held i x s glamor empty in
    elim (Option-cases (fb_at i x s)) [
      | inr (q, held) ↦ (
        some q,
        s,
        get_fb-held a i x s q held,
        c,
        sym at_held ∙ held,
        λ _. (sym held ∙ at_held, refl),
        λ b q' e. get_fb-held b i x s q' (held ∙ e),
      )
      | inl nothing ↦
          let free = sym at_held ∙ nothing in
          let (found, p, handled) = get_handle-glamor a i x s glamor shadow callocs in
          let s' = set_private x (some p) s in
          let ptr = has_fb_ptr-set_private i x p s glamor in
          let again : (fbs : Fbs) (b : Answers) (q : ℕ)
              → fbs.held (pixmap_fb x) ≡ some q
              → get_fb b i x (record s' { fbs = fbs }) ≡ ok (some q, record s' { fbs = fbs }) =
            λ fbs b q e.
              get_fb-held b i x (record s' { fbs = fbs }) q
                (fb_at-held i x (record s' { fbs = fbs }) glamor (λ gone. absurd (ground arith))
                  ∙ e) in
          elim (Option-cases found) [
            | inl failed ↦ (
              none,
              s',
              simp
                  (
                    get_fb,
                    nothing,
                    handled,
                    failed,
                    fb_at-held i x s' glamor (λ gone. absurd (ground arith)),
                    free,
                  )
                  refl,
              c,
              free,
              λ ne. absurd (ne free),
              λ b q e. again s.fbs b q (free ∙ e),
            )
            | inr (h, valid) ↦
                let fbs = fb_create a h (pixmap_fb x) s.fbs in
                (
                  fbs.held (pixmap_fb x),
                  record s' { fbs = fbs },
                  simp (get_fb, nothing, handled, valid, ptr) refl,
                  fb_create-IsCounted σs (pixmap_fb x) a h s.fbs c once free fresh,
                  refl,
                  λ ne. absurd (ne free),
                  λ b q e. again fbs b q e,
                )
          ]
    ]
