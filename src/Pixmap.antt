-- ===== src/Pixmap.antt =====
-- src/amdgpu_bo_helper.c and src/amdgpu_drv.h: buffer objects, their counts and their allocation. The
-- pixmaps that hold them are in the child modules.
pub mod Align
pub mod Private
pub mod Create
pub mod Counting
pub mod Backing
pub mod Fallback
pub mod Unmapped
pub mod Exports
use xf86_video_amdgpu.Prelude.{
  ℕ, zero, suc, ◌+◌, ◌-◌, ◌*◌, ◌/◌, ◌%◌, ◌^◌, Bool, true, false, ◌&&◌, ◌||◌, not, Option, none,
  some, List, [], ◌∷◌, ◌++◌, if◌then◌else◌, ◌==◌, ltb,
}
use xf86_video_amdgpu.Framebuffer.{Result, ok, fatal, fault, ◌>>=◌}
use xf86_video_amdgpu.DrmQueue.{update}

-- `x & ~m` on integers of `w` bits.
unfoldable pub and_not : (w x m : ℕ) → ℕ
and_not zero x m = 0
and_not (suc w) x m = (if x % 2 == 1 && m % 2 == 0 then 1 else 0) + 2 * and_not w (x / 2) (m / 2)

-- AMDGPU_ALIGN, on 32 bits
unfoldable pub align : (x bytes : ℕ) → ℕ
align x bytes = and_not 32 (x + (bytes - 1)) (bytes - 1)

-- What allocation reads of the screen: `gbm` says whether there is a GBM device, and `usage_shared`
-- is the X server's CREATE_PIXMAP_USAGE_SHARED.
pub record Settings : Type 0 where
  pub gbm : Bool
  pub have_tiling_info : Bool
  pub group_bytes : ℕ
  pub usage_shared : ℕ
  pub use_glamor : Bool
  pub shadow_fb : Bool

abbrev larger : ℕ → ℕ → ℕ
larger a b = if ltb b a then a else b

unfoldable pub get_pitch_align : Settings → (bpe : ℕ) → ℕ
get_pitch_align i bpe = if i.have_tiling_info then larger 64 (i.group_bytes / bpe) else 512

pub data GbmFormat : Type 0 where
  r8 argb1555 rgb565 argb8888 xrgb2101010 xrgb8888 : GbmFormat

-- `none` is ~0U.
unfoldable pub get_gbm_format : (depth bits_per_pixel : ℕ) → Option GbmFormat
get_gbm_format depth bits_per_pixel =
    if depth == 8
    then some r8
    else if depth == 15
    then some argb1555
    else if depth == 16
    then some rgb565
    else if depth == 32
    then some argb8888
    else if depth == 30
    then some xrgb2101010
    else if depth == 24 && bits_per_pixel == 32
    then some xrgb8888
    else none

-- struct amdgpu_buffer: `gbm` is AMDGPU_BO_FLAGS_GBM; the address `cpu_ptr` is 0 for NULL.
pub record Buffer : Type 0 where
  pub gbm : Bool
  pub cpu_ptr : ℕ
  pub ref_count : ℕ

-- Calls of GBM and of libdrm_amdgpu.
pub data Call : Type 0 where
  gbm_bo_create :
      (width height : ℕ) (format : GbmFormat) (scanout front_rendering linear : Bool) → Call
  amdgpu_bo_alloc : (alloc_size phys_alignment : ℕ) (gtt : Bool) → Call
  unmaps destroys : (buffer : ℕ) → Call

-- The buffers that are allocated, by address.
pub record Memory : Type 0 where
  pub buffer : ℕ → Option Buffer
  pub calls : List Call

abbrev pub note : Call → Memory → Memory
note c m = record m { calls = m.calls ++ c ∷ [] }

abbrev pub set_buffer : ℕ → Option Buffer → Memory → Memory
set_buffer b v m = record m { buffer = update m.buffer b v }

-- What an allocation is answered: the address from calloc, whether GBM or the kernel creates the
-- buffer, and the stride GBM gives it.
pub record Grant : Type 0 where
  pub address : Option ℕ
  pub creates : Bool
  pub stride : ℕ

-- The bit of a usage hint.
abbrev pub has_bit : (k usage : ℕ) → Bool
has_bit k usage = usage / 2 ^ k % 2 == 1

abbrev pub with_bit : (k usage : ℕ) → ℕ
with_bit k usage = if has_bit k usage then usage else usage + 2 ^ k

abbrev pub front_bit : ℕ
front_bit = 28

abbrev pub dri2_bit : ℕ
dri2_bit = 27

abbrev pub linear_bit : ℕ
linear_bit = 26

abbrev pub scanout_bit : ℕ
scanout_bit = 25

abbrev pub gtt_bit : ℕ
gtt_bit = 24

-- The call is made where calloc gave an address; the buffer stays where the call succeeds.
unfoldable pub granted : Grant → Call → (gbm : Bool) → Memory → Option ℕ × Memory
granted g c gbm m = elim g.address [
  | none ↦ (none, m)
  | some b ↦
      if g.creates
      then (
        some b,
        set_buffer b (some (record { gbm = gbm; cpu_ptr = 0; ref_count = 1 })) (note c m),
      )
      else (none, note c m)
]

unfoldable pub bo_open :
    Grant → (alloc_size phys_alignment : ℕ) (gtt : Bool) → Memory → Option ℕ × Memory
bo_open g alloc_size phys_alignment gtt =
    granted g (amdgpu_bo_alloc alloc_size phys_alignment gtt) false

pub record Request : Type 0 where
  pub width : ℕ
  pub height : ℕ
  pub depth : ℕ
  pub usage_hint : ℕ
  pub bits_per_pixel : ℕ

-- The pitch of a buffer of libdrm_amdgpu.
unfoldable pub pitch_of : Settings → Request → ℕ
pitch_of i r =
    let cpp = (r.bits_per_pixel + 7) / 8 in cpp * align r.width (get_pitch_align i cpp) % 2 ^ 32

-- The buffer, what is written to `new_pitch`, and the memory.
unfoldable pub alloc_pixmap_bo : Grant → Settings → Request → Memory → Option ℕ × Option ℕ × Memory
alloc_pixmap_bo g i r m =
    if not (has_bit gtt_bit r.usage_hint) && i.gbm
    then (elim (get_gbm_format r.depth r.bits_per_pixel) [
      | none ↦ (none, none, m)
      | some format ↦
          let call =
            gbm_bo_create r.width r.height format (has_bit scanout_bit r.usage_hint)
              (has_bit front_bit r.usage_hint)
              (r.usage_hint == i.usage_shared || has_bit linear_bit r.usage_hint) in
          let (b, m') = granted g call true m in
          (b, (elim b [ none ↦ none | some _ ↦ some g.stride ]), m')
    ])
    else (let (b, m') =
          bo_open g (pitch_of i r * r.height % 2 ^ 32) 4096 (has_bit gtt_bit r.usage_hint) m in
        (b, some (pitch_of i r), m'))

-- MAP_FAILED, which is (void *) -1.
abbrev pub map_failed : ℕ
map_failed = 2 ^ 64 - 1

-- What mapping a buffer is answered: whether DRM_AMDGPU_GEM_MMAP succeeds, the address that mmap
-- returns, and the one that amdgpu_bo_cpu_map stores where it succeeds.
pub record Mapping : Type 0 where
  pub gem_mmap : Bool
  pub mmap : ℕ
  pub cpu_map : Option ℕ

-- The new cpu_ptr. `none`: an error is returned. The result of mmap is compared with NULL.
unfoldable pub mapped_at : Mapping → (gbm : Bool) → Option ℕ
mapped_at a gbm =
    if not gbm
    then a.cpu_map
    else if not a.gem_mmap
    then none
    else if a.mmap == 0
    then none
    else some a.mmap

-- Whether amdgpu_bo_map returns 0, and the memory.
unfoldable pub bo_map : Mapping → ℕ → Memory → Result (Bool × Memory)
bo_map a b m = elim (m.buffer b) [
  | none ↦ fault
  | some r ↦ elim (mapped_at a r.gbm) [
    | none ↦ ok (false, m)
    | some p ↦ ok (true, set_buffer b (some (record r { cpu_ptr = p })) m)
  ]
]

unfoldable pub bo_ref : ℕ → Memory → Result Memory
bo_ref b m = elim (m.buffer b) [
  | none ↦ fault
  | some r ↦ ok (set_buffer b (some (record r { ref_count = (r.ref_count + 1) % 2 ^ 32 })) m)
]

unfoldable pub bo_unmap : ℕ → Buffer → Memory → Memory
bo_unmap b r m = if r.cpu_ptr == 0 then m else note (unmaps b) m

-- The pointer is set to NULL with the last reference: this function's callers drop it anyway.
unfoldable pub bo_unref : ℕ → Memory → Result Memory
bo_unref b m = elim (m.buffer b) [
  | none ↦ fault
  | some r ↦
      let count = (r.ref_count + 2 ^ 32 - 1) % 2 ^ 32 in
      if not (count == 0)
      then ok (set_buffer b (some (record r { ref_count = count })) m)
      else ok (set_buffer b none (note (destroys b) (bo_unmap b r m)))
]
