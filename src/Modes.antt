-- ===== src/Modes.antt =====
-- src/drmmode_display.c: modes of the X server and of the kernel, and the clones of outputs.
pub mod Convert
pub mod Clones
pub mod Set
pub mod Counted
pub mod Outputs
pub mod Major
pub mod Settled
use xf86_video_amdgpu.Prelude.{
  ℕ, zero, suc, ◌+◌, ◌-◌, ◌*◌, ◌/◌, ◌%◌, ◌^◌, Bool, true, false, ◌&&◌, ◌||◌, not, Option, none,
  some, List, [], ◌∷◌, ◌++◌, if◌then◌else◌, ◌==◌, take,
}

-- The timings that drmModeModeInfo and DisplayModeRec have in common; they are `int` in the latter,
-- and but for the clock and the flags 16-bit in the former.
pub record Timings : Type 0 where
  pub clock : ℕ
  pub hdisplay : ℕ
  pub hsync_start : ℕ
  pub hsync_end : ℕ
  pub htotal : ℕ
  pub hskew : ℕ
  pub vdisplay : ℕ
  pub vsync_start : ℕ
  pub vsync_end : ℕ
  pub vtotal : ℕ
  pub vscan : ℕ
  pub flags : ℕ

-- drmModeModeInfo: `name` are the characters before the first NUL of the 32 bytes.
pub record KMode : Type 0 where
  pub timings : Timings
  pub vrefresh : ℕ
  pub is_driver : Bool
  pub is_preferred : Bool
  pub name : List ℕ

-- DisplayModeRec: the type has the bits M_T_DRIVER and M_T_PREFERRED.
pub record Mode : Type 0 where
  pub timings : Timings
  pub is_driver : Bool
  pub is_preferred : Bool
  pub name : Option (List ℕ)

-- `memory`: whether strdup succeeds. The status is MODE_OK; the fields that xf86SetModeCrtc fills for
-- the hardware are left out.
unfoldable pub convert_from_kmode : (memory : Bool) → KMode → Mode
convert_from_kmode memory k = record {
  timings = k.timings;
  is_driver = k.is_driver;
  is_preferred = k.is_preferred;
  name = if memory then some k.name else none;
}

-- Assigned to 16 and to 32 bits.
abbrev u16 : ℕ → ℕ
u16 n = n % 2 ^ 16

abbrev u32 : ℕ → ℕ
u32 n = n % 2 ^ 32

unfoldable pub narrowed : Timings → Timings
narrowed t = record {
  clock = u32 t.clock;
  hdisplay = u16 t.hdisplay;
  hsync_start = u16 t.hsync_start;
  hsync_end = u16 t.hsync_end;
  htotal = u16 t.htotal;
  hskew = u16 t.hskew;
  vdisplay = u16 t.vdisplay;
  vsync_start = u16 t.vsync_start;
  vsync_end = u16 t.vsync_end;
  vtotal = u16 t.vtotal;
  vscan = u16 t.vscan;
  flags = u32 t.flags;
}

-- DRM_DISPLAY_MODE_LEN
abbrev pub display_mode_len : ℕ
display_mode_len = 32

-- strncpy, and the NUL at the end.
abbrev copied_name : Option (List ℕ) → List ℕ
copied_name none = []
copied_name (some cs) = take (display_mode_len - 1) cs

unfoldable pub convert_to_kmode : Mode → KMode
convert_to_kmode m = record {
  timings = narrowed m.timings;
  vrefresh = 0;
  is_driver = false;
  is_preferred = false;
  name = copied_name m.name;
}

-- The masks of an output: the encoders that it has, and those that all its encoders can be cloned
-- with.
pub record Masks : Type 0 where
  pub enc_mask : ℕ
  pub enc_clone_mask : ℕ

-- The loop of find_clones over the outputs from number i on. `output` is the number of the output. The
-- bits are those of the C mask for at most 32 outputs; beyond, `1 << i` is undefined.
unfoldable pub clone_bits : (output : ℕ) → (own : Masks) → (i : ℕ) → List Masks → ℕ
clone_bits output own i [] = 0
clone_bits output own i (m ∷ ms) =
    let rest = clone_bits output own (i + 1) ms in
    if i == output
    then rest
    else if m.enc_mask == 0
    then rest
    else if own.enc_clone_mask == m.enc_mask
    then 2 ^ i + rest
    else rest

unfoldable pub find_clones : (output : ℕ) → (own : Masks) → List Masks → ℕ
find_clones output own outputs =
    if own.enc_clone_mask == 0 then 0 else clone_bits output own 0 outputs
