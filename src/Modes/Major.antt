-- ===== src/Modes/Major.antt =====
-- src/drmmode_display.c: drmmode_set_mode_major. The calls of the other components are a list, and
-- what they answer is an argument; framebuffers are addresses.
use xf86_video_amdgpu.Prelude.{
  ℕ, ◌+◌, Bool, true, false, ◌&&◌, ◌||◌, not, Option, none, some, List, [], ◌∷◌, ◌++◌,
  if◌then◌else◌, ◌==◌,
}
use xf86_video_amdgpu.Pageflip.{pointer_eq}
use xf86_video_amdgpu.Modes.{Mode}
use xf86_video_amdgpu.Modes.Set.{Output, Automatic, update_tear_free}

-- The CRTC with its private, and the bits of hwcursor_disabled.
pub record Crtc : Type 0 where
  pub mode : Mode
  pub x : ℕ
  pub y : ℕ
  pub rotation : ℕ
  pub active : Bool
  pub tear_free : Bool
  pub scanout_id : ℕ
  pub need_modeset : Bool
  pub hwcursor_disabled : ℕ → Bool

-- The calls, in order. `holds_fb`: the framebuffer has been created for the mode, and the CRTC drops
-- its own for it.
pub data ModeCall : Type 0 where
  updates_prime updates_scanout : ModeCall
  holds_fb : (fb : Option ℕ) → ModeCall
  waits_for_flip : ModeCall
  sets_mode : (fb x y : ℕ) → ModeCall
  powers_on : (output : ℕ) → ModeCall
  frees_scanout destroys_scanout_1 handles_deferred : ModeCall

-- What the server and the calls answer: whether the root window is exposed, whether the transform
-- is handled, and after it what TearFree depends on for a rotation; whether there is a
-- prime_scanout_pixmap, and the framebuffer that its update gives; the framebuffer of the pixmap
-- `rotate`, where there is one; that of drmmode_crtc_scanout_update, where it sets one; that of the
-- root window's pixmap, and of amdgpu_fb_create; whether drmmode_set_mode succeeds; the framebuffer of
-- a scanout pixmap at the end, where there is one; the index of the CRTC, whether it is enabled, and
-- whether it can use the hardware cursor.
pub record ModeAnswers : Type 0 where
  pub is_exposed : Bool
  pub transforms : Bool
  pub automatic : (rotation : ℕ) → Automatic
  pub is_prime : Bool
  pub prime_fb : Option ℕ
  pub rotate_fb : Option (Option ℕ)
  pub performs_transform : Bool
  pub update_fb : Option (Option ℕ)
  pub root_fb : Option ℕ
  pub created_fb : Option ℕ
  pub mode_set : (fb x y : ℕ) → Bool
  pub scanout_fb : (id : ℕ) → Option (Option ℕ)
  pub index : Option ℕ
  pub is_enabled : Bool
  pub can_use_hw_cursor : Bool

-- A framebuffer, the position in it, and the calls.
pub record Choice : Type 0 where
  pub fb : Option ℕ
  pub x : ℕ
  pub y : ℕ
  pub calls : List ModeCall

abbrev at_origin : Option ℕ → List ModeCall → Choice
at_origin fb calls = record { fb = fb; x = 0; y = 0; calls = calls }

unfoldable pub choose_scanout : ModeAnswers → Crtc → (x y : ℕ) → Choice
choose_scanout a s x y =
    let unset : List ModeCall → Choice =
      λ calls. record { fb = none; x = x; y = y; calls = calls } in
    let info = a.automatic s.rotation in
    if a.is_prime then at_origin a.prime_fb (updates_prime ∷ []) else (elim a.rotate_fb [
      | some fb ↦ at_origin fb []
      | none ↦
          if not info.is_gpu && (s.tear_free || a.performs_transform || info.shadow_primary)
          then (elim a.update_fb [
            | some fb ↦ at_origin fb (updates_scanout ∷ [])
            | none ↦ unset (updates_scanout ∷ [])
          ])
          else unset []
    ])

-- The root window's framebuffer, or one that is created, where none has been chosen.
unfoldable pub or_root : ModeAnswers → Choice → Choice
or_root a ch = elim ch.fb [
  | some fb ↦ ch
  | none ↦ elim a.root_fb [
    | some fb ↦ record ch { fb = some fb }
    | none ↦ record ch { fb = a.created_fb; calls = ch.calls ++ (holds_fb a.created_fb ∷ []) }
  ]
]

-- The outputs of the CRTC, from number i on.
unfoldable pub power_on : (c i : ℕ) → List Output → List ModeCall
power_on c i [] = []
power_on c i (o ∷ os) =
    let rest = power_on c (i + 1) os in
    if pointer_eq o.crtc (some c) then powers_on i ∷ rest else rest

-- What is known at the label `done`.
pub record ModeAttempt : Type 0 where
  pub ret : Bool
  pub handle_deferred : Bool
  pub fb : Option ℕ
  pub calls : List ModeCall
  pub crtc : Crtc

unfoldable pub set_bit : (i : ℕ) → Bool → (ℕ → Bool) → ℕ → Bool
set_bit i b bits j = if j == i then b else bits j

-- The loop over the CRTCs.
unfoldable pub update_hwcursor : ModeAnswers → Crtc → Crtc
update_hwcursor a s = elim a.index [
  | none ↦ s
  | some i ↦ record s {
    hwcursor_disabled = set_bit i (a.is_enabled && not a.can_use_hw_cursor) s.hwcursor_disabled;
  }
]

-- From amdgpu_drm_wait_pending_flip on.
unfoldable pub try_mode :
    ModeAnswers → (c : ℕ) → List Output → Crtc → (fb : ℕ) → Choice → ModeAttempt
try_mode a c outputs s fb ch =
    let calls = ch.calls ++ (waits_for_flip ∷ sets_mode fb ch.x ch.y ∷ []) in
    if not (a.mode_set fb ch.x ch.y)
    then record { ret = false; handle_deferred = true; fb = some fb; calls = calls; crtc = s }
    else (record {
      ret = true;
      handle_deferred = true;
      fb = some fb;
      calls = calls ++ power_on c 0 outputs;
      crtc = update_hwcursor a (record s { need_modeset = false });
    })

-- From drmmode_crtc_update_tear_free on.
unfoldable pub with_tear_free : ModeAnswers → (c : ℕ) → List Output → Crtc → Crtc
with_tear_free a c outputs s =
    let t = update_tear_free c (a.automatic s.rotation) outputs in
    record s { tear_free = t; scanout_id = if t then s.scanout_id else 0 }

unfoldable pub set_transformed :
    ModeAnswers → (c : ℕ) → List Output → Crtc → (x y : ℕ) → ModeAttempt
set_transformed a c outputs s x y =
    let ch = or_root a (choose_scanout a s x y) in
    elim ch.fb [
      | none ↦ record {
        ret = false;
        handle_deferred = false;
        fb = none;
        calls = ch.calls;
        crtc = s;
      }
      | some fb ↦ try_mode a c outputs s fb ch
    ]

-- Up to the label `done`.
unfoldable pub attempt :
    ModeAnswers → (c : ℕ) → List Output → Option Mode → (rotation x y : ℕ) → Crtc → ModeAttempt
attempt a c outputs none rotation x y s = record {
  ret = false;
  handle_deferred = false;
  fb = none;
  calls = [];
  crtc = update_hwcursor a s;
}
attempt a c outputs (some mode) rotation x y s =
    let s' = record s { mode = mode; x = x; y = y; rotation = rotation } in
    if not a.transforms
    then record { ret = false; handle_deferred = false; fb = none; calls = []; crtc = s' }
    else set_transformed a c outputs (with_tear_free a c outputs s') x y

-- The scanout pixmaps that are not shown are freed. `id` is the local scanout_id, which is that of the
-- CRTC: both are 0 without TearFree.
unfoldable pub drop_scanouts :
    ModeAnswers → (fb : Option ℕ) → (id : ℕ) → (tear_free : Bool) → List ModeCall
drop_scanouts a fb id tear_free =
    let unused = if not tear_free then destroys_scanout_1 ∷ [] else [] in
    elim (a.scanout_fb id) [
      | none ↦ unused
      | some other ↦ if not (pointer_eq fb other) then frees_scanout ∷ [] else unused
    ]

abbrev pub deferred_calls : Bool → List ModeCall
deferred_calls handle_deferred = if handle_deferred then handles_deferred ∷ [] else []

-- From the label `done` on; `old` is the CRTC before.
unfoldable pub settle_mode : ModeAnswers → (old : Crtc) → ModeAttempt → Bool × Crtc × List ModeCall
settle_mode a old t =
    let s = t.crtc in
    if not t.ret
    then (
      false,
      record s { mode = old.mode; x = old.x; y = old.y; rotation = old.rotation },
      t.calls ++ deferred_calls t.handle_deferred,
    )
    else (
      true,
      record s { active = true },
      t.calls ++ drop_scanouts a t.fb s.scanout_id s.tear_free ++ deferred_calls t.handle_deferred,
    )

unfoldable pub set_mode_major :
    ModeAnswers
    → (c : ℕ) → List Output
    → Option Mode
    → (rotation x y : ℕ) → Crtc
    → Bool × Crtc × List ModeCall
set_mode_major a c outputs mode rotation x y s =
    if not a.is_exposed
    then (false, s, [])
    else settle_mode a s (attempt a c outputs mode rotation x y s)
