-- ===== src/Dri2.antt =====
-- src/amdgpu_dri2.c: buffers, and the handlers of swaps, flips and waits. Buffers, pixmaps, privates
-- of pixmaps, buffer objects, drawables, CRTCs, clients and events are addresses.
pub mod Exchange
pub mod Steps
pub mod Events
pub mod Leak
pub mod Handlers
pub mod References
use xf86_video_amdgpu.Prelude.{
  ℕ, ◌+◌, ◌-◌, ◌*◌, ◌/◌, ◌%◌, ◌^◌, Bool, true, false, ◌&&◌, ◌||◌, not, Option, none, some, List, [],
  ◌∷◌, ◌++◌, if◌then◌else◌, ◌==◌, ltb,
}
use xf86_video_amdgpu.DrmQueue.{Driver, State, update}
use xf86_video_amdgpu.Msc.{u32, Timing, get_msc_delta}
use xf86_video_amdgpu.Pageflip.Submit.{World, Submission, Setting, do_pageflip}
use xf86_video_amdgpu.Present.{Server, can_flip, setting_of}

-- DRI2BufferRec with dri2_buffer_priv. A buffer whose count is 0 has been freed.
pub record Buffer : Type 0 where
  pub name : ℕ
  pub pitch : ℕ
  pub cpp : ℕ
  pub pixmap : ℕ
  pub refcnt : ℕ

pub record Pixmap : Type 0 where
  pub width : ℕ
  pub height : ℕ
  pub bits_per_pixel : ℕ
  pub pitch : ℕ
  pub private : ℕ

-- A drawable, with the private of a window, and the answers of DRI2CanFlip and DRI2CanExchange.
pub record Drawable : Type 0 where
  pub is_window : Bool
  pub pixmap : ℕ
  pub width : ℕ
  pub height : ℕ
  pub vblank_delta : ℕ
  pub last_flip_ust : ℕ
  pub flip_count : ℕ
  pub dri2_can_flip : Bool
  pub dri2_can_exchange : Bool

pub data EventType : Type 0 where
  dri2_swap dri2_flip dri2_wait_msc : EventType

pub data SwapType : Type 0 where
  exchange_complete blit_complete flip_complete : SwapType

-- DRI2FrameEventRec
pub record FrameEvent : Type 0 where
  pub drawable_id : ℕ
  pub client : ℕ
  pub kind : EventType
  pub frame : ℕ
  pub event_complete : ℕ
  pub event_data : ℕ
  pub front : Option ℕ
  pub back : Option ℕ

-- The calls of the X server, of glamor and of libdrm.
pub data Effect : Type 0 where
  takes_pixmap drops_pixmap frees_buffer frees_bo : ℕ → Effect
  completes_swap :
      (client drawable msc sec usec : ℕ) → SwapType → (event_complete event_data : ℕ) → Effect
  completes_wait : (client drawable msc sec usec : ℕ) → Effect
  copies : (drawable width height front back : ℕ) → Effect
  exchanges_pixmaps : (front back : ℕ) → Effect

-- `bo_of` is the buffer object of the private of a pixmap, and `bo_refs` the count of a buffer
-- object. `flips` are the events of flips that are not freed, and `flink` the names that the kernel
-- gives for pixmaps.
pub record Dri2 : Type 0 where
  pub server : Server
  pub buffers : ℕ → Buffer
  pub pixmaps : ℕ → Pixmap
  pub bo_of : ℕ → ℕ
  pub bo_refs : ℕ → ℕ
  pub front_buffer : ℕ
  pub screen_pixmap : ℕ
  pub drawables : ℕ → Option Drawable
  pub timing : ℕ → Timing
  pub flips : ℕ → Option FrameEvent
  pub flink : ℕ → Option ℕ
  pub effects : List Effect

abbrev pub emit : Effect → Dri2 → Dri2
emit x d = record d { effects = d.effects ++ x ∷ [] }

-- amdgpu_dri2_ref_buffer
unfoldable pub ref_buffer : ℕ → Dri2 → Dri2
ref_buffer b d = record d {
  buffers = update d.buffers b (record (d.buffers b) { refcnt = (d.buffers b).refcnt + 1 });
}

-- amdgpu_dri2_destroy_buffer2
unfoldable pub destroy_buffer : ℕ → Dri2 → Dri2
destroy_buffer b d =
    let n : ℕ = (d.buffers b).refcnt in
    let d' : Dri2 = record d {
      buffers = update d.buffers b (record (d.buffers b) { refcnt = n - 1 });
    } in
    if n == 0
    then d
    else if n == 1
    then emit (frees_buffer b) (emit (drops_pixmap (d.buffers b).pixmap) d')
    else d'

unfoldable pub unref_buffer : Option ℕ → Dri2 → Dri2
unref_buffer none d = d
unref_buffer (some b) d = destroy_buffer b d

unfoldable pub update_front : Drawable → (front : ℕ) → Dri2 → Bool × Dri2
update_front draw front d = elim (d.flink draw.pixmap) [
  | none ↦ (false, d)
  | some name ↦
      let p : Pixmap = d.pixmaps draw.pixmap in
      let b : Buffer = record (d.buffers front) {
        name = name;
        pitch = p.pitch;
        cpp = p.bits_per_pixel / 8;
        pixmap = draw.pixmap;
      } in
      (
        true,
        emit (takes_pixmap draw.pixmap) (
            emit (drops_pixmap (d.buffers front).pixmap)
              (record d { buffers = update d.buffers front b })),
      )
]

abbrev pub same_layout : Pixmap → Pixmap → Bool
same_layout p q =
    p.width == q.width
    && p.height == q.height
    && p.bits_per_pixel == q.bits_per_pixel
    && p.pitch == q.pitch

unfoldable pub can_exchange : Drawable → (front back : ℕ) → Dri2 → Bool × Dri2
can_exchange draw front back d =
    let (updated, d') = update_front draw front d in
    if updated
    then (
      same_layout (d'.pixmaps (d'.buffers front).pixmap) (d'.pixmaps (d.buffers back).pixmap),
      d',
    )
    else (false, d')

abbrev pub count_on : Server → List ℕ → ℕ
count_on s [] = 0
count_on s (c ∷ cs) = (if can_flip s c then 1 else 0) + count_on s cs

-- The conditions of can_flip other than those on buffers.
unfoldable pub may_flip : Drawable → Server → Bool
may_flip draw s =
    draw.is_window
    && s.allow_page_flip
    && not (ltb 0 s.sprites_visible)
    && not s.present_flipping
    && s.vt_sema
    && draw.dri2_can_flip
    && ltb 0 (count_on s s.crtcs)

unfoldable pub can_flip_buffers : Drawable → (front back : ℕ) → Dri2 → Bool × Dri2
can_flip_buffers draw front back d =
    if may_flip draw d.server then can_exchange draw front back d else (false, d)

-- amdgpu_bo_ref of the new buffer object, and amdgpu_bo_unref of the old one.
unfoldable pub set_front_buffer : ℕ → Dri2 → Dri2
set_front_buffer bo d =
    let refs : ℕ → ℕ = update d.bo_refs bo (d.bo_refs bo + 1) in
    let d' : Dri2 = record d {
      bo_refs = update refs d.front_buffer (refs d.front_buffer - 1);
      front_buffer = bo;
    } in
    if refs d.front_buffer == 1 then emit (frees_bo d.front_buffer) d' else d'

abbrev pub set_private : (pixmap private : ℕ) → Dri2 → Dri2
set_private p v d = record d { pixmaps = update d.pixmaps p (record (d.pixmaps p) { private = v }) }

abbrev pub set_name : (buffer name : ℕ) → Dri2 → Dri2
set_name b n d = record d { buffers = update d.buffers b (record (d.buffers b) { name = n }) }

-- `if (front_pix->bo == info->front_buffer)`: the screen's private becomes a copy of the back one.
unfoldable pub update_screen : (front_pix back_pix : ℕ) → Dri2 → Dri2
update_screen front_pix back_pix d =
    let d' : Dri2 = set_front_buffer (d.bo_of back_pix) d in
    if d.bo_of front_pix == d.front_buffer
    then record d' { bo_of = update d.bo_of (d.pixmaps d.screen_pixmap).private (d.bo_of back_pix) }
    else d

-- amdgpu_dri2_exchange_buffers
unfoldable pub exchange_buffers : (front back : ℕ) → Dri2 → Dri2
exchange_buffers front back d =
    let f : Buffer = d.buffers front in
    let b : Buffer = d.buffers back in
    let front_pix : ℕ = (d.pixmaps f.pixmap).private in
    let back_pix : ℕ = (d.pixmaps b.pixmap).private in
    emit (exchanges_pixmaps f.pixmap b.pixmap) (
      update_screen front_pix back_pix (
        set_private b.pixmap front_pix
          (set_private f.pixmap back_pix (set_name back f.name (set_name front b.name d)))))
