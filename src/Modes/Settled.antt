-- ===== src/Modes/Settled.antt =====
-- src/drmmode_display.c, drmmode_set_mode_major: what holds when it returns.
use xf86_video_amdgpu.Prelude.{
  ℕ, ◌+◌, ◌≡◌, refl, sym, ap, ◌∙◌, ◌⊎◌, inl, inr, Bool, true, false, not, Option, none, some, List,
  [], ◌∷◌, ◌++◌, if◌then◌else◌, arith, Bool-cases, Option-cases,
}
use xf86_video_amdgpu.Modes.{Mode}
use xf86_video_amdgpu.Modes.Set.{Output}
use xf86_video_amdgpu.Modes.Major.{
  Crtc, ModeCall, waits_for_flip, sets_mode, handles_deferred, holds_fb, ModeAnswers, Choice,
  ModeAttempt, choose_scanout, or_root, power_on, update_hwcursor, deferred_calls, try_mode,
  with_tear_free, set_transformed, attempt, drop_scanouts, settle_mode, set_mode_major,
}

abbrev pub is_wait : ModeCall → Bool
is_wait waits_for_flip = true
is_wait _ = false

abbrev pub is_deferral : ModeCall → Bool
is_deferral handles_deferred = true
is_deferral _ = false

abbrev pub count : (ModeCall → Bool) → List ModeCall → ℕ
count p [] = 0
count p (c ∷ cs) = (if p c then 1 else 0) + count p cs

count-append :
    (p : ModeCall → Bool) (cs ds : List ModeCall) → count p (cs ++ ds) ≡ count p cs + count p ds
count-append p [] ds = omega arith
count-append p (c ∷ cs) ds = let ih = count-append p cs ds in rw ih (omega arith)

-- The list has no call that waits for a flip or handles deferred events.
abbrev IsQuiet : List ModeCall → Type 0
IsQuiet cs = (count is_wait cs ≡ 0) × (count is_deferral cs ≡ 0)

append-IsQuiet : (cs ds : List ModeCall) → IsQuiet cs → IsQuiet ds → IsQuiet (cs ++ ds)
append-IsQuiet cs ds (w, h) (w', h') = (
  rw (count-append is_wait cs ds, w) (omega (arith, w')),
  rw (count-append is_deferral cs ds, h) (omega (arith, h')),
)

choose_scanout-IsQuiet :
    (a : ModeAnswers) (s : Crtc) (x y : ℕ) → IsQuiet (choose_scanout a s x y).calls
unfolding choose_scanout
choose_scanout-IsQuiet a s x y = ground arith

or_root-IsQuiet : (a : ModeAnswers) (ch : Choice) → IsQuiet ch.calls → IsQuiet (or_root a ch).calls
unfolding or_root
or_root-IsQuiet a ch quiet = elim (Option-cases ch.fb) [
  | inr (fb, e) ↦ rw e quiet
  | inl e ↦ elim (Option-cases a.root_fb) [
    | inr (fb, e') ↦ rw (e, e') quiet
    | inl e' ↦ rw (e, e') (append-IsQuiet ch.calls (holds_fb a.created_fb ∷ []) quiet (refl, refl))
  ]
]

power_on-IsQuiet : (c i : ℕ) (os : List Output) → IsQuiet (power_on c i os)
unfolding power_on
power_on-IsQuiet c i [] = (refl, refl)
power_on-IsQuiet c i (o ∷ os) = let ih = power_on-IsQuiet c (i + 1) os in ground arith

drop_scanouts-IsQuiet :
    (a : ModeAnswers) (fb : Option ℕ) (id : ℕ) (tear_free : Bool)
    → IsQuiet (drop_scanouts a fb id tear_free)
unfolding drop_scanouts
drop_scanouts-IsQuiet a fb id tear_free = ground arith

update_hwcursor-keeps :
    (a : ModeAnswers) (s : Crtc)
    → (update_hwcursor a s
        ≡ record s { hwcursor_disabled = (update_hwcursor a s).hwcursor_disabled })
unfolding update_hwcursor
update_hwcursor-keeps a s = elim (Option-cases a.index) [
  | inl e ↦ rw e refl
  | inr (i, e) ↦ rw e refl
]

-- The CRTC has what has been asked for, and needs no mode.
abbrev pub HasMode : (mode : Option Mode) (rotation x y : ℕ) → Crtc → Type 0
HasMode mode rotation x y s =
    (mode ≡ some s.mode)
    × (s.x ≡ x)
    × (s.y ≡ y)
    × (s.rotation ≡ rotation)
    × (s.need_modeset ≡ false)

abbrev IsAttempt : (s : Crtc) (mode : Option Mode) (rotation x y : ℕ) → ModeAttempt → Type 0
IsAttempt s mode rotation x y t =
    (count is_wait t.calls ≡ (if t.handle_deferred then 1 else 0))
    × (count is_deferral t.calls ≡ 0)
    × (t.crtc.active ≡ s.active)
    × (t.ret ≡ true → HasMode mode rotation x y t.crtc × (t.handle_deferred ≡ true))

-- The list waits once.
abbrev WaitsOnce : List ModeCall → Type 0
WaitsOnce cs = (count is_wait cs ≡ 1) × (count is_deferral cs ≡ 0)

append-WaitsOnce : (cs ds : List ModeCall) → IsQuiet cs → WaitsOnce ds → WaitsOnce (cs ++ ds)
append-WaitsOnce cs ds (w, h) (w', h') =
    (rw (count-append is_wait cs ds, w, w') refl, rw (count-append is_deferral cs ds, h, h') refl)

WaitsOnce-append : (cs ds : List ModeCall) → WaitsOnce cs → IsQuiet ds → WaitsOnce (cs ++ ds)
WaitsOnce-append cs ds (w, h) (w', h') =
    (rw (count-append is_wait cs ds, w, w') refl, rw (count-append is_deferral cs ds, h, h') refl)

in_either {ℓ ℓ'} :
    {A : Type ℓ} (p : A → Type ℓ') (b : Bool) {t u : A} → p t → p u → p (if b then t else u)
in_either p true ht hu = ht
in_either p false ht hu = hu

module _ (a : ModeAnswers) (c : ℕ) (outputs : List Output) where
  try_mode-IsAttempt :
      (mode : Mode) (rotation x y : ℕ) (old s : Crtc) (fb : ℕ) (ch : Choice)
      → IsQuiet ch.calls
      → s.active ≡ old.active
      → (some mode ≡ some s.mode) × (s.x ≡ x) × (s.y ≡ y) × (s.rotation ≡ rotation)
      → IsAttempt old (some mode) rotation x y (try_mode a c outputs s fb ch)
  unfolding try_mode
  try_mode-IsAttempt mode rotation x y old s fb ch quiet active has =
      elim (Bool-cases (a.mode_set fb ch.x ch.y)) [
        | inr refused ↦
            let (w, h) =
              append-WaitsOnce ch.calls (waits_for_flip ∷ sets_mode fb ch.x ch.y ∷ []) quiet
                (refl, refl) in
            rw refused (w, h, active, λ e. cc)
        | inl done ↦
            let tried =
              append-WaitsOnce ch.calls (waits_for_flip ∷ sets_mode fb ch.x ch.y ∷ []) quiet
                (refl, refl) in
            let (w, h) =
              WaitsOnce-append _ (power_on c 0 outputs) tried (power_on-IsQuiet c 0 outputs) in
            let (m, x_, y_, r_) = has in
            rw done (
              rw (update_hwcursor-keeps a (record s { need_modeset = false }))
                (w, h, active, λ _. ((m, x_, y_, r_, refl), refl)))
      ]

  set_transformed-IsAttempt :
      (mode : Mode) (rotation x y : ℕ) (old s : Crtc)
      → s.active ≡ old.active
      → (some mode ≡ some s.mode) × (s.x ≡ x) × (s.y ≡ y) × (s.rotation ≡ rotation)
      → IsAttempt old (some mode) rotation x y (set_transformed a c outputs s x y)
  unfolding set_transformed
  set_transformed-IsAttempt mode rotation x y old s active has =
      let ch = or_root a (choose_scanout a s x y) in
      let quiet = or_root-IsQuiet a (choose_scanout a s x y) (choose_scanout-IsQuiet a s x y) in
      let (w, h) = quiet in
      elim (Option-cases ch.fb) [
        | inl missing ↦ rw (set_transformed, missing) (w, h, active, λ e. cc)
        | inr (fb, e) ↦
            rw (set_transformed, e)
              (try_mode-IsAttempt mode rotation x y old s fb ch quiet active has)
      ]

  attempt-IsAttempt :
      (mode : Option Mode) (rotation x y : ℕ) (s : Crtc)
      → IsAttempt s mode rotation x y (attempt a c outputs mode rotation x y s)
  unfolding attempt with_tear_free
  attempt-IsAttempt none rotation x y s = rw (update_hwcursor-keeps a s) (refl, refl, refl, λ e. cc)
  attempt-IsAttempt (some mode) rotation x y s =
      in_either (IsAttempt s (some mode) rotation x y) (not a.transforms)
        (refl, refl, refl, λ e. cc)
        (set_transformed-IsAttempt mode rotation x y s _ refl (refl, refl, refl, refl))

-- The CRTC shows what it did before.
abbrev pub KeepsMode : (s t : Crtc) → Type 0
KeepsMode s t =
    (t.mode ≡ s.mode)
    × (t.x ≡ s.x)
    × (t.y ≡ s.y)
    × (t.rotation ≡ s.rotation)
    × (t.active ≡ s.active)

-- Deferred events are handled as often as a pending flip is waited for; and either no mode is set,
-- and the CRTC has its old one, or the CRTC has the new one after a wait.
abbrev pub IsSettled :
    (s : Crtc) (mode : Option Mode) (rotation x y : ℕ) → Bool × Crtc × List ModeCall → Type 0
IsSettled s mode rotation x y (ret, t, calls) =
    (count is_wait calls ≡ count is_deferral calls)
    × (((ret ≡ false) × KeepsMode s t)
        ⊎ ((ret ≡ true)
            × HasMode mode rotation x y t
            × (t.active ≡ true)
            × (count is_wait calls ≡ 1)))

-- The deferred events are handled where the flip has been waited for.
deferred_calls-counts :
    (waited : Bool) (cs : List ModeCall)
    → count is_wait cs ≡ (if waited then 1 else 0)
    → count is_deferral cs ≡ 0
    → (count is_wait (cs ++ deferred_calls waited) ≡ (if waited then 1 else 0))
      × (count is_deferral (cs ++ deferred_calls waited) ≡ (if waited then 1 else 0))
deferred_calls-counts waited cs w h = (
  rw (count-append is_wait cs (deferred_calls waited), w) (ground arith),
  rw (count-append is_deferral cs (deferred_calls waited), h) (ground arith),
)

module _ (a : ModeAnswers) (c : ℕ) (outputs : List Output) where
  settle_mode-IsSettled :
      (s : Crtc) (mode : Option Mode) (rotation x y : ℕ) (t : ModeAttempt)
      → IsAttempt s mode rotation x y t
      → IsSettled s mode rotation x y (settle_mode a s t)
  unfolding settle_mode
  settle_mode-IsSettled s mode rotation x y t (w, h, active, has) = elim (Bool-cases t.ret) [
    | inr failed ↦
        let (once, handled) = deferred_calls-counts t.handle_deferred t.calls w h in
        rw (settle_mode, failed) (once ∙ sym handled, inl (refl, (refl, refl, refl, refl, active)))
    | inl done ↦
        let (w', h') = drop_scanouts-IsQuiet a t.fb t.crtc.scanout_id t.crtc.tear_free in
        let (once, handled) =
          deferred_calls-counts t.handle_deferred
            (t.calls ++ drop_scanouts a t.fb t.crtc.scanout_id t.crtc.tear_free)
            (rw (count-append is_wait t.calls _, w, w') (ground arith))
            (rw (count-append is_deferral t.calls _, h, h') refl) in
        let (holds, waited) = has done in
        rw (settle_mode, done)
          (once ∙ sym handled, inr (refl, holds, refl, once ∙ ap (λ b. if b then 1 else 0) waited))
  ]

  -- Whatever is asked for and whatever the calls answer, a pending flip is waited for as often as
  -- deferred events are handled. Either FALSE is returned, and the CRTC keeps its mode,
  -- position, rotation and activity; or TRUE is returned after one wait, and the CRTC is active,
  -- needs no mode, and has the mode, position and rotation that were asked for.
  pub set_mode_major-IsSettled :
      (mode : Option Mode) (rotation x y : ℕ) (s : Crtc)
      → IsSettled s mode rotation x y (set_mode_major a c outputs mode rotation x y s)
  unfolding set_mode_major
  set_mode_major-IsSettled mode rotation x y s =
      in_either (IsSettled s mode rotation x y) (not a.is_exposed)
        (refl, inl (refl, (refl, refl, refl, refl, refl)))
        (settle_mode-IsSettled s mode rotation x y _
          (attempt-IsAttempt a c outputs mode rotation x y s))
