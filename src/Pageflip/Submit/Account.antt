-- ===== src/Pageflip/Submit/Account.antt =====
-- src/drmmode_display.c: one CRTC in the loop of amdgpu_do_pageflip, after its queue entry is
-- allocated.
use xf86_video_amdgpu.Prelude.{
  ℕ, ◌-◌, ◌≡◌, refl, ap, ◌∙◌, ◌⊎◌, inl, inr, Bool, true, false, Option, none, some, List,
  if◌then◌else◌, ◌==◌, Bool-cases, Option-cases,
}
use xf86_video_amdgpu.Framebuffer.{Slot, Fbs, ok, pixmap_fb, flip_pending, flipdata_fb, set_slot}
use xf86_video_amdgpu.Framebuffer.Counting.{
  IsCounted, IsLive, IsLive-held, fb_reference-IsCounted, occurs,
}
use xf86_video_amdgpu.DrmQueue.{Driver, State}
use xf86_video_amdgpu.Pageflip.Completion.{HasSlots}
use xf86_video_amdgpu.Pageflip.Submit.{
  Screen, World, Submission, Setting, Progress, Round, goes_on, fails, on_world, fb_handle,
  set_reference, switch_scanout, flip_request, request_flip, flip_tear_free, flip_allocated,
  drop_update,
}

-- The framebuffer is held by a pixmap.
abbrev pub IsPixmap : List Slot → Fbs → ℕ → Type 0
IsPixmap σs b q = (i : ℕ) × (occurs (pixmap_fb i) σs ≡ 1) × (b.held (pixmap_fb i) ≡ some q)

-- What the body of the loop leaves as it was, while every framebuffer stays counted.
pub record Keeps (σs : List Slot) (v v' : Screen) : Type 0 where
  pub counted : IsCounted σs v'.flips.fbs
  pub same_flips : v'.flips.flipdata ≡ v.flips.flipdata
  pub same_calls : v'.calls ≡ v.calls
  pub same_updates : v'.update_pending ≡ v.update_pending
  pub same_pixmaps : (i : ℕ) → v'.flips.fbs.held (pixmap_fb i) ≡ v.flips.fbs.held (pixmap_fb i)

Keeps-refl : {σs : List Slot} {v : Screen} → IsCounted σs v.flips.fbs → Keeps σs v v
Keeps-refl c = record {
  counted = c;
  same_flips = refl;
  same_calls = refl;
  same_updates = refl;
  same_pixmaps = λ i. refl;
}

pub Keeps-trans : {σs : List Slot} {u v w : Screen} → Keeps σs u v → Keeps σs v w → Keeps σs u w
Keeps-trans h k = record {
  counted = k.counted;
  same_flips = k.same_flips ∙ h.same_flips;
  same_calls = k.same_calls ∙ h.same_calls;
  same_updates = k.same_updates ∙ h.same_updates;
  same_pixmaps = λ i. k.same_pixmaps i ∙ h.same_pixmaps i;
}

abbrev is_pixmap : Slot → Bool
is_pixmap (pixmap_fb i) = true
is_pixmap _ = false

pub IsPixmap-IsLive :
    (σs : List Slot) (b : Fbs) (q : ℕ) → IsCounted σs b → IsPixmap σs b q → IsLive (some q) b
IsPixmap-IsLive σs b q c (i, once, holds) = rw holds at (IsLive-held σs (pixmap_fb i) b c once)

set_reference_lem :
    (σs : List Slot) (σ : Slot) (new : Option ℕ) (v : Screen)
    → IsCounted σs v.flips.fbs
    → occurs σ σs ≡ 1
    → is_pixmap σ ≡ false
    → IsLive new v.flips.fbs
    → (v' : Screen) × (set_reference σ new (ok v) ≡ ok v')
      × Keeps σs v v'
      × (v'.flips.fbs.held ≡ (set_slot σ new v.flips.fbs).held)
unfolding set_reference
set_reference_lem σs σ new v c once kind live =
    let (t, runs, counted, held) = fb_reference-IsCounted σs σ new v.flips.fbs c once live in
    (
      record v { flips = record v.flips { fbs = t } },
      rw runs refl,
      record {
        counted = counted;
        same_flips = refl;
        same_calls = refl;
        same_updates = refl;
        same_pixmaps = λ i. ap (λ (g : Slot → Option ℕ). g (pixmap_fb i)) held ∙ untouched i σ kind;
      },
      held,
    )
  where
    untouched :
        (i : ℕ) (τ : Slot)
        → is_pixmap τ ≡ false
        → (set_slot τ new v.flips.fbs).held (pixmap_fb i) ≡ v.flips.fbs.held (pixmap_fb i)
    untouched i (pixmap_fb j) h = cc
    untouched i _ h = refl

switch_scanout-Keeps :
    (σs : List Slot) (crtc : ℕ) (b : Bool) (v : Screen)
    → IsCounted σs v.flips.fbs
    → (v' : Screen) × ((if b then switch_scanout crtc (ok v) else ok v) ≡ ok v')
      × Keeps σs v v'
      × (v'.flips.fbs ≡ v.flips.fbs)
unfolding switch_scanout
switch_scanout-Keeps σs crtc false v c = (v, refl, Keeps-refl c, refl)
switch_scanout-Keeps σs crtc true v c = (
  _,
  refl,
  record {
    counted = c;
    same_flips = refl;
    same_calls = refl;
    same_updates = refl;
    same_pixmaps = λ i. refl;
  },
  refl,
)

-- The state of the loop with the rest of the driver intact, and nothing deferred.
abbrev pub intact : State World → Screen → Progress
intact s v = record { state = record s { world = ok v }; deferred = false }

-- A round that changes the rest of the driver's state alone, and keeps the accounts.
abbrev pub IsKept : List Slot → State World → Screen → (queue_seq : ℕ) → Round → Type 0
IsKept σs s v seq r =
    (v' : Screen) × Keeps σs v v' × ((r ≡ goes_on (intact s v')) ⊎ (r ≡ fails (intact s v') seq))

-- No update of the CRTC's scanout pixmap is pending, and its scanout pixmaps hold their
-- framebuffers.
abbrev pub CanShow : Setting → List Slot → (crtc : ℕ) → Screen → Type 0
CanShow e σs crtc v =
    (v.update_pending crtc ≡ 0)
    × ((i q : ℕ) → e.scanout_fb crtc i ≡ some q → IsPixmap σs v.flips.fbs q)

module _ (other : Driver World) (a : Submission) (e : Setting) (σs : List Slot) (crtc seq : ℕ)
    (s : State World) where
  request_flip-IsKept :
      (v : Screen)
      → IsCounted σs v.flips.fbs
      → HasSlots σs e.address crtc
      → IsKept σs s v seq (request_flip other a e crtc seq (intact s v))
  unfolding request_flip
  request_flip-IsKept v c h =
      let new : Option ℕ = v.flips.fbs.held (flipdata_fb e.address crtc) in
      elim (Bool-cases (e.accepts_flip (flip_request a crtc (fb_handle new (ok v)) seq))) [
        | inr refused ↦ (v, Keeps-refl c, inr (rw refused))
        | inl accepted ↦
            let (u, switched, keeps, same) = switch_scanout-Keeps σs crtc (e.tear_free crtc) v c in
            let live : IsLive new u.flips.fbs =
              rw same (IsLive-held σs (flipdata_fb e.address crtc) v.flips.fbs c h.has_flip) in
            let (v', set, keeps', _) =
              set_reference_lem σs (flip_pending crtc) new u keeps.counted h.has_pending refl
                live in
            (v', Keeps-trans keeps keeps', inl (rw (accepted, switched, set)))
      ]

  with_flip-IsKept :
      (q : ℕ) (v : Screen)
      → IsCounted σs v.flips.fbs
      → HasSlots σs e.address crtc
      → IsPixmap σs v.flips.fbs q
      → IsKept σs s v seq (
          request_flip other a e crtc seq (record (intact s v) {
            state =
                on_world (set_reference (flipdata_fb e.address crtc) (some q)) (intact s v).state;
          }))
  with_flip-IsKept q v c h fb =
      let (u, set, keeps, _) =
        set_reference_lem σs (flipdata_fb e.address crtc) (some q) v c h.has_flip refl
          (IsPixmap-IsLive σs v.flips.fbs q c fb) in
      let (v', keeps', round) = request_flip-IsKept u keeps.counted h in
      (v', Keeps-trans keeps keeps', rw set round)

  flip_tear_free-IsKept :
      (v : Screen)
      → IsCounted σs v.flips.fbs
      → HasSlots σs e.address crtc
      → CanShow e σs crtc v
      → (r : Round) × (flip_tear_free other a e crtc seq (intact s v) ≡ some r)
        × IsKept σs s v seq r
  unfolding flip_tear_free drop_update
  flip_tear_free-IsKept v c h (idle, pixmaps) = elim (Bool-cases a.async) [
    | inl async ↦ elim (Bool-cases (e.accepts_vblank crtc seq)) [
      | inl taken ↦ (goes_on (intact s v), rw (async, taken), (v, Keeps-refl c, inl refl))
      | inr refused ↦ (fails (intact s v) seq, rw (async, refused), (v, Keeps-refl c, inr refl))
    ]
    | inr sync ↦ elim (Option-cases (e.scanout_fb crtc (1 - v.scanout_id crtc))) [
      | inl missing ↦
          let (u, set, keeps, _) =
            set_reference_lem σs (flipdata_fb e.address crtc) none v c h.has_flip refl tt in
          (fails (intact s u) seq, simp (sync, missing, set), (u, keeps, inr refl))
      | inr (q, found) ↦
          let (u, set, keeps, _) =
            set_reference_lem σs (flipdata_fb e.address crtc) (some q) v c h.has_flip refl
              (IsPixmap-IsLive σs v.flips.fbs q c (pixmaps _ q found)) in
          let idle' : (u.update_pending crtc == 0) ≡ true = rw (keeps.same_updates, idle) refl in
          let (v', keeps', round) = request_flip-IsKept u keeps.counted h in
          (
            request_flip other a e crtc seq (intact s u),
            simp (sync, found, set, idle'),
            (v', Keeps-trans keeps keeps', round),
          )
    ]
  ]

  pub flip_allocated-IsKept :
      (fb : ℕ) (v : Screen)
      → IsCounted σs v.flips.fbs
      → HasSlots σs e.address crtc
      → CanShow e σs crtc v
      → IsPixmap σs v.flips.fbs fb
      → (r : Round) × (flip_allocated other a e crtc seq fb (intact s v) ≡ some r)
        × IsKept σs s v seq r
  unfolding flip_allocated
  flip_allocated-IsKept fb v c h show front = elim (Bool-cases (e.tear_free crtc)) [
    | inl t ↦ rw t (flip_tear_free-IsKept v c h show)
    | inr f ↦ rw f (_, refl, with_flip-IsKept fb v c h front)
  ]
