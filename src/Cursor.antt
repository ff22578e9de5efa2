-- ===== src/Cursor.antt =====
-- src/drmmode_display.c: the image of the hardware cursor (drmmode_cursor_pixel and
-- drmmode_load_cursor_argb). A pixel is its 32-bit word, alpha in the highest byte.
pub mod Image
pub mod Load
use xf86_video_amdgpu.Prelude.{
  ℕ, zero, suc, ◌+◌, ◌-◌, ◌*◌, ◌/◌, ◌%◌, ◌^◌, Bool, true, false, ◌&&◌, ◌||◌, not, Option, none,
  some, List, [], ◌∷◌, if◌then◌else◌, ◌==◌, ltb, get_elem?,
}
use xf86_video_amdgpu.Msc.{u32}

-- The legacy gamma ramps of the CRTC, of 256 entries.
pub record Gamma : Type 0 where
  pub red : List ℕ
  pub green : List ℕ
  pub blue : List ℕ

-- What drmmode_cursor_pixel does with a pixel: it writes it, it asks for another round without gamma
-- correction, or it reads a ramp outside its bounds.
pub data Pixel : Type 0 where
  writes : ℕ → Pixel
  retries overrun : Pixel

abbrev pub alpha : ℕ → ℕ
alpha argb = argb / 2 ^ 24

-- alpha | alpha << 8 | alpha << 16 | alpha << 24
abbrev pub spread : ℕ → ℕ
spread a = a + a * 2 ^ 8 + a * 2 ^ 16 + a * 2 ^ 24

-- The byte `i` of the word, un-premultiplied.
abbrev pub channel : ℕ → ℕ → ℕ
channel i argb = argb / 2 ^ (8 * i) % 2 ^ 8 * 255 / alpha argb

-- The word of the corrected channels, premultiplied again.
abbrev pub premultiply : (a red green blue : ℕ) → ℕ
premultiply a red green blue =
    a * 2 ^ 24 + red * a / 255 * 2 ^ 16 + green * a / 255 * 2 ^ 8 + blue * a / 255

unfoldable pub corrected : Gamma → ℕ → Pixel
corrected g argb = elim (get_elem? g.blue (channel 0 argb)) [
  | none ↦ overrun
  | some blue ↦ elim (get_elem? g.green (channel 1 argb)) [
    | none ↦ overrun
    | some green ↦ elim (get_elem? g.red (channel 2 argb)) [
      | none ↦ overrun
      | some red ↦ writes (premultiply (alpha argb) (red / 2 ^ 8) (green / 2 ^ 8) (blue / 2 ^ 8))
    ]
  ]
]

-- drmmode_cursor_pixel. Its argument `premultiplied` is a pointer that is never NULL, so that the
-- tests of it hold.
unfoldable pub cursor_pixel : Gamma → (apply_gamma : Bool) → ℕ → Pixel
cursor_pixel g false argb = writes argb
cursor_pixel g true argb =
    if ltb (spread (alpha argb)) argb
    then retries
    else if alpha argb == 0
    then writes 0
    else corrected g argb

-- The loop of drmmode_load_cursor_argb over the pixels: the words it has written when it ends, or
-- when a pixel asks for another round. `count` is cursor_size - i, and the image has that many pixels.
pub data Round : Type 0 where
  finished : List ℕ → Round
  restarts faults : Round

unfoldable pub next_pixel : Pixel → Round → Round
next_pixel (writes argb) (finished ptr) = finished (argb ∷ ptr)
next_pixel (writes argb) restarts = restarts
next_pixel (writes argb) faults = faults
next_pixel retries rest = restarts
next_pixel overrun rest = faults

unfoldable pub round : Gamma → (apply_gamma : Bool) → List ℕ → Round
round g apply_gamma [] = finished []
round g apply_gamma (argb ∷ image) =
    next_pixel (cursor_pixel g apply_gamma argb) (round g apply_gamma image)

-- The rounds, from the label `retry`. `none`: the fuel has run out.
unfoldable pub rounds : ℕ → Gamma → (apply_gamma : Bool) → List ℕ → Option Round
rounds zero g apply_gamma image = none
rounds (suc fuel) g apply_gamma image = elim (round g apply_gamma image) [
  | finished ptr ↦ some (finished ptr)
  | faults ↦ some faults
  | restarts ↦ rounds fuel g false image
]

-- The CRTC's cursor: the buffer that is shown, the contents of both, and the cursor it shows.
pub record Cursor : Type 0 where
  pub cursor : Option ℕ
  pub cursor_id : ℕ
  pub buffers : ℕ → List ℕ

-- What drmmode_load_cursor_argb leaves: the cursor's state, and whether it calls show_cursor.
pub record Loaded : Type 0 where
  pub state : Cursor
  pub shows : Bool

abbrev pub is_other : Option ℕ → ℕ → Bool
is_other none current = false
is_other (some c) current = not (c == current)

abbrev pub flip_id : ℕ → ℕ
flip_id id = if id == 0 then 1 else 0

-- The buffer to write: not the one that shows another cursor.
unfoldable pub target_id : (current : ℕ) → Cursor → ℕ
target_id current s = if is_other s.cursor current then flip_id s.cursor_id else s.cursor_id

abbrev pub written : (id : ℕ) → Cursor → Round → Option Loaded
written id s restarts = none
written id s faults = none
written id s (finished ptr) = some (record {
  state = record s { cursor_id = id; buffers = λ j. if j == id then ptr else s.buffers j };
  shows = not (id == s.cursor_id);
})

-- drmmode_load_cursor_argb: `current` is the server's cursor, and `depth` the depth of the screen.
-- `none`: the fuel has run out, or a ramp was read outside its bounds.
unfoldable pub load_cursor_argb :
    (fuel : ℕ)
    → Gamma
    → (depth : ℕ) → (has_gamma_lut : Bool) → (current : ℕ) → List ℕ
    → Cursor
    → Option Loaded
load_cursor_argb fuel g depth has_gamma_lut current image s =
    let apply_gamma : Bool = not (not (depth == 24) && not (depth == 32) || has_gamma_lut) in
    elim (rounds fuel g apply_gamma image) [
      | none ↦ none
      | some r ↦ written (target_id current s) s r
    ]
