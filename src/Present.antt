-- ===== src/Present.antt =====
-- src/amdgpu_present.c: flips of the Present extension, and drmmode_crtc_can_flip of
-- src/drmmode_display.h. CRTCs, windows, pixmaps and events are addresses.
pub mod Checks
pub mod Same
pub mod Flips
pub mod Vblank
use xf86_video_amdgpu.Prelude.{
  ℕ, ◌+◌, ◌-◌, ◌%◌, ◌^◌, Bool, true, false, ◌&&◌, ◌||◌, not, Option, none, some, List, [], ◌∷◌,
  ◌++◌, if◌then◌else◌, ◌==◌, ltb,
}
use xf86_video_amdgpu.DrmQueue.{Driver, State, update}
use xf86_video_amdgpu.Pageflip.{is_some}
use xf86_video_amdgpu.Pageflip.Submit.{World, Submission, Setting, do_pageflip, pending_in}

-- The fields of a CRTC that decide on flips. `has_scanout` says which of the two scanout pixmaps
-- there are.
pub record Crtc : Type 0 where
  pub enabled : Bool
  pub dpms_on : Bool
  pub rotate : Bool
  pub tear_free : Bool
  pub has_scanout : ℕ → Bool
  pub scanout_id : ℕ
  pub need_modeset : Bool
  pub vrr_enabled : Bool

unfoldable pub crtc_can_flip : Crtc → Bool
crtc_can_flip c =
    c.enabled && c.dpms_on && not c.rotate && (c.tear_free || not (c.has_scanout c.scanout_id))

-- What the functions call: amdgpu_do_pageflip is a definition of the model, and so no call here.
pub data Effect : Type 0 where
  notifies : (event_id usec msc : ℕ) → Effect
  sets_mode : (crtc : ℕ) → Effect
  flushes finishes : Effect

-- amdgpu_present_vblank_event
pub record PresentEvent : Type 0 where
  pub event_id : ℕ
  pub unflip : Bool

-- The screen: `crtcs` are the CRTCs of its configuration, in order, and `fb_failed` is the field
-- of the private of a pixmap, where it has one.
pub record Server : Type 0 where
  pub crtcs : List ℕ
  pub crtc : ℕ → Crtc
  pub vt_sema : Bool
  pub allow_page_flip : Bool
  pub sprites_visible : ℕ
  pub dri2_flipping : Bool
  pub present_flipping : Bool
  pub flip_window : Option ℕ
  pub fb_failed : ℕ → Option Bool
  pub events : ℕ → Option PresentEvent
  pub effects : List Effect

abbrev pub can_flip : Server → ℕ → Bool
can_flip s c = crtc_can_flip (s.crtc c)

-- The loop of amdgpu_present_check_unflip. `none`: a flip is pending.
unfoldable pub unflip_count : (ℕ → Bool) → Server → List ℕ → ℕ → Option ℕ
unflip_count pending s [] n = some n
unflip_count pending s (c ∷ cs) n =
    if can_flip s c
    then (if pending c
        then none
        else unflip_count pending s cs (if (s.crtc c).tear_free then n else n + 1))
    else unflip_count pending s cs n

unfoldable pub check_unflip : (pending : ℕ → Bool) → Server → Bool
check_unflip pending s =
    if not s.vt_sema
    then false
    else (elim (unflip_count pending s s.crtcs 0) [ none ↦ false | some n ↦ ltb 0 n ])

-- The arguments of amdgpu_present_check_flip with what it reads elsewhere: the pixmap's framebuffer,
-- whether amdgpu_pixmap_get_fb leaves a private behind, the kernel's features, and the pitch and
-- the tiling of the pixmap and of the screen's.
pub record Query : Type 0 where
  pub crtc : ℕ
  pub window : Option ℕ
  pub pixmap : ℕ
  pub fb : Option ℕ
  pub makes_private : Bool
  pub dc_enabled : Bool
  pub version_minor : ℕ
  pub pitch : ℕ
  pub screen_pitch : ℕ
  pub tiling : ℕ
  pub screen_tiling : ℕ

-- The loop of amdgpu_present_check_flip. `none`: the CRTC of the query cannot flip.
unfoldable pub flip_count : (crtc : ℕ) → Server → List ℕ → ℕ → Option ℕ
flip_count crtc s [] n = some n
flip_count crtc s (c ∷ cs) n =
    if can_flip s c
    then flip_count crtc s cs (n + 1)
    else if c == crtc
    then none
    else flip_count crtc s cs n

-- `if (!amdgpu_pixmap_get_fb(pixmap))`: the failure is noted in the pixmap's private.
unfoldable pub note_failure : Query → Server → Server
note_failure q s = elim (s.fb_failed q.pixmap) [
  | some b ↦ record s { fb_failed = update s.fb_failed q.pixmap (some true) }
  | none ↦
      if q.makes_private
      then record s { fb_failed = update s.fb_failed q.pixmap (some true) }
      else s
]

abbrev pub has_failed : Query → Server → Bool
has_failed q s = elim (s.fb_failed q.pixmap) [ none ↦ false | some b ↦ b ]

-- The kernel cannot flip between buffers of this pitch or tiling.
unfoldable pub is_incompatible : Query → Bool
is_incompatible q =
    ltb q.version_minor (if q.dc_enabled then 31 else 34) && not (q.pitch == q.screen_pitch)
    || (not q.dc_enabled || ltb q.version_minor 31) && not (q.tiling == q.screen_tiling)

unfoldable pub check_flip : Query → Server → Bool × Server
check_flip q s =
    if not s.vt_sema
      || not s.allow_page_flip
      || ltb 0 s.sprites_visible
      || s.dri2_flipping
      || has_failed q s
    then (false, s)
    else if not (is_some q.fb)
    then (false, note_failure q s)
    else if is_incompatible q
    then (false, s)
    else (elim (flip_count q.crtc s s.crtcs 0) [
      | none ↦ (false, s)
      | some n ↦ if n == 0 then (false, s) else (true, record s { flip_window = q.window })
    ])

-- drmmode_crtc_set_vrr: `property` is whether the kernel has the property, and `accepts` whether it
-- takes the new value.
unfoldable pub set_vrr : (property : Bool) → (accepts : Bool) → Bool → Crtc → Crtc
set_vrr property accepts on c =
    if property && not (c.vrr_enabled && on || not c.vrr_enabled && not on) && accepts
    then record c { vrr_enabled = on }
    else c

unfoldable pub set_screen_vrr :
    (property : Bool) → (accepts : ℕ → Bool) → Bool → List ℕ → Server → Server
set_screen_vrr property accepts on [] s = s
set_screen_vrr property accepts on (c ∷ cs) s =
    set_screen_vrr property accepts on cs
      (record s { crtc = update s.crtc c (set_vrr property (accepts c) on (s.crtc c)) })

-- amdgpu_present_get_ust_msc: `kernel` is the answer of drmmode_crtc_get_ust_msc. `none` is BadAlloc.
unfoldable pub get_ust_msc : Crtc → Option (ℕ × ℕ) → Option (ℕ × ℕ)
get_ust_msc c kernel = if c.dpms_on then kernel else none

abbrev pub emit : Effect → Server → Server
emit x s = record s { effects = s.effects ++ x ∷ [] }

-- amdgpu_present_flip_event, amdgpu_present_flip_abort
unfoldable pub flip_event : (msc ust event : ℕ) → Server → Server
flip_event msc ust event s = elim (s.events event) [
  | none ↦ s
  | some v ↦ record (emit (notifies v.event_id ust msc) s) {
    present_flipping = if v.unflip then false else s.present_flipping;
    events = update s.events event none;
  }
]

unfoldable pub flip_abort : (event : ℕ) → Server → Server
flip_abort event s = record s { events = update s.events event none }

-- amdgpu_present_vblank_handler, amdgpu_present_vblank_abort
unfoldable pub vblank_event : (msc usec event : ℕ) → Server → Server
vblank_event msc usec event s = elim (s.events event) [
  | none ↦ s
  | some v ↦ record (emit (notifies v.event_id usec msc) s) { events = update s.events event none }
]

unfoldable pub vblank_abort : (event : ℕ) → Server → Server
vblank_abort event s = record s { events = update s.events event none }

-- amdgpu_present_flip_event and amdgpu_present_flip_abort as function pointers.
abbrev pub flip_event_proc : ℕ
flip_event_proc = 3

abbrev pub flip_abort_proc : ℕ
flip_abort_proc = 4

-- What a flip or an unflip is given besides the query: the memory for the event, the address it
-- gets, the client AMDGPU_DRM_QUEUE_CLIENT_DEFAULT, the options, and the rest of the setting of
-- amdgpu_do_pageflip, of which the CRTCs are those of the server.
pub record Grant : Type 0 where
  pub memory : Bool
  pub event : ℕ
  pub client : ℕ
  pub vrr_support : Bool
  pub vrr_window : Option ℕ → Bool
  pub vrr_property : Bool
  pub vrr_accepts : ℕ → Bool
  pub async_capable : Bool
  pub async_secondaries : Bool
  pub has_page_flip_target : Bool
  pub setting : Setting

abbrev pub setting_of : Server → Setting → Setting
setting_of s e = record e { can_flip = can_flip s; tear_free = λ c. (s.crtc c).tear_free }

abbrev pub submission_of :
    Grant
    → (event_id : ℕ) → (ref_crtc : Option ℕ) → (async : Bool) → (target_msc : ℕ) → (fb : Option ℕ)
    → Submission
submission_of g event_id ref_crtc async target_msc fb = record {
  client = g.client;
  id = event_id;
  event_data = g.event;
  ref_crtc = ref_crtc;
  handler = flip_event_proc;
  abort = flip_abort_proc;
  async = async;
  target_msc = target_msc % 2 ^ 32;
  front_fb = fb;
  async_secondaries = g.async_secondaries;
  has_page_flip_target = g.has_page_flip_target;
}

-- The server, the queue and the flips, with the result.
pub record Flipped : Type 0 where
  pub result : Bool
  pub server : Server
  pub state : State World

abbrev pub new_event : Grant → PresentEvent → Server → Server
new_event g v s = record s { events = update s.events g.event (some v) }

module _ (other : Driver World) (g : Grant) where
  abbrev vrr_on : Server → Server
  vrr_on s =
      if g.vrr_support && g.vrr_window s.flip_window
      then set_screen_vrr g.vrr_property g.vrr_accepts true s.crtcs s
      else s

  -- amdgpu_present_flip. The callbacks of the flip are calls in the state.
  unfoldable pub flip :
      (event_id target_msc : ℕ) → (sync_flip : Bool) → Query → Server → State World → Option Flipped
  flip event_id target_msc sync_flip q s₀ t =
      let (can, s) = check_flip (record q { window = s₀.flip_window }) s₀ in
      if not (can && g.memory)
      then some (record { result = false; server = s; state = t })
      else (let s' : Server =
            emit flushes
              (vrr_on (new_event g (record { event_id = event_id; unflip = false }) s)) in
          let a : Submission =
            submission_of g event_id (some q.crtc) (not sync_flip) target_msc q.fb in
          elim (do_pageflip other a (setting_of s' g.setting) s'.crtcs t) [
            | none ↦ none
            | some (false, t') ↦ some (record { result = false; server = s'; state = t' })
            | some (true, t') ↦ some (record {
              result = true;
              server = record s' { present_flipping = true };
              state = t';
            })
          ])

  -- The label `modeset` of amdgpu_present_unflip.
  unfoldable pub reset_modes : List ℕ → Server → Server
  reset_modes [] s = s
  reset_modes (c ∷ cs) s = reset_modes cs (
      if not (s.crtc c).enabled || (s.crtc c).tear_free
      then s
      else if (s.crtc c).dpms_on
      then emit (sets_mode c) s
      else record s { crtc = update s.crtc c (record (s.crtc c) { need_modeset = true }) })

  unfoldable pub modeset : (event_id : ℕ) → Server → Server
  modeset event_id s =
      record (emit (notifies event_id 0 0) (reset_modes s.crtcs (emit finishes s))) {
        present_flipping = false;
      }

  -- amdgpu_present_unflip, to the framebuffer of the screen's pixmap.
  unfoldable pub unflip : (event_id : ℕ) → (fb : Option ℕ) → Server → State World → Option Flipped
  unflip event_id fb s₀ t =
      let s : Server = set_screen_vrr g.vrr_property g.vrr_accepts false s₀.crtcs s₀ in
      if not (check_unflip (pending_in t.world) s && g.memory)
      then some (record { result = false; server = modeset event_id s; state = t })
      else (let s' : Server =
            emit flushes (new_event g (record { event_id = event_id; unflip = true }) s) in
          let a : Submission = submission_of g event_id none g.async_capable 0 fb in
          elim (do_pageflip other a (setting_of s' g.setting) s'.crtcs t) [
            | none ↦ none
            | some (true, t') ↦ some (record { result = true; server = s'; state = t' })
            | some (false, t') ↦
                some (record { result = false; server = modeset event_id s'; state = t' })
          ])
