-- ===== src/Tests/Screens.antt =====
-- Two CRTCs beside each other, and cursor images, for src/amdgpu_video.c and src/drmmode_display.c.
use xf86_video_amdgpu.Prelude.{
  ℕ, zero, suc, ◌+◌, ◌*◌, ◌^◌, ◌≡◌, ◌<◌, ◌⊎◌, refl, true, false, none, some, List, [], ◌∷◌, map,
  arith, get_elem?, replicate,
}
use xf86_video_amdgpu.Prelude.Int.{pos, negsuc}
use xf86_video_amdgpu.Lut.Samples.{IsLut}
use xf86_video_amdgpu.Coverage.{
  Box, RrCrtc, Screen, rotate_0, rotate_90, crtc_covering_box, coverage, crtc_on,
}
use xf86_video_amdgpu.Coverage.Best.{AreBelow, IsIn, crtc_covering_box-AreBelow}
use xf86_video_amdgpu.Cursor.{Gamma, cursor_pixel, writes, overrun, alpha}
use xf86_video_amdgpu.Prelude.{◌-◌}
use xf86_video_amdgpu.Cursor.{Cursor, Loaded, load_cursor_argb}
use xf86_video_amdgpu.Cursor.Load.{load_cursor_argb-ArePremultiplied}
use xf86_video_amdgpu.Cursor.Image.{
  IsGamma, IsPremultiplied, cursor_pixel-IsPremultiplied, cursor_pixel-overrun,
}

abbrev left : RrCrtc
left = record {
  id = 1;
  mode = some (1920, 1080);
  x = pos 0;
  y = pos 0;
  rotation = rotate_0;
  enabled = some true;
}

abbrev right : RrCrtc
right = record {
  id = 2;
  mode = some (1920, 1080);
  x = pos 1920;
  y = pos 0;
  rotation = rotate_90;
  enabled = some true;
}

abbrev screen : Screen
screen = record { crtcs = some (left ∷ right ∷ []); primary = some 2; is_output_secondary = false }

abbrev window : Box
window = record { x1 = negsuc 9; y1 = pos 10; x2 = pos 2000; y2 = pos 20 }

abbrev other : Box
other = record { x1 = pos 5; y1 = pos 0; x2 = pos 8; y2 = pos 90 }

crtc_covering_box-AreBelow_example :
    ((crtc_covering_box screen window true ≡ none)
      × AreBelow (some 2) true window (left ∷ right ∷ []) (none, pos 0))
    ⊎ ((c : RrCrtc) × (crtc_covering_box screen window true ≡ some c)
        × IsIn c (left ∷ right ∷ [])
        × (crtc_on c true ≡ true)
        × AreBelow (some 2) true window (left ∷ right ∷ []) (some c, coverage window c))
crtc_covering_box-AreBelow_example =
    crtc_covering_box-AreBelow screen window true (left ∷ right ∷ []) refl

abbrev flat : List ℕ
flat = replicate 256 40000

flat-IsLut : IsLut flat
flat-IsLut k v e = constant 256 k v e
  where
    constant : (n k v : ℕ) → get_elem? (replicate n 40000) k ≡ some v → v < 2 ^ 16
    constant zero k v e = cc
    constant (suc n) zero v e = ground arith
    constant (suc n) (suc k) v e = constant n k v e

abbrev gamma : Gamma
gamma = record { red = flat; green = flat; blue = flat }

gamma-IsGamma : IsGamma gamma
gamma-IsGamma = record {
  size_red = refl;
  size_green = refl;
  size_blue = refl;
  is_red = flat-IsLut;
  is_green = flat-IsLut;
  is_blue = flat-IsLut;
}

-- Half transparent, with the colours 64, 32 and 128.
abbrev pixel : ℕ
pixel = 128 * 2 ^ 24 + 64 * 2 ^ 16 + 32 * 2 ^ 8 + 128

pixel-IsPremultiplied : IsPremultiplied pixel
pixel-IsPremultiplied = record {
  word = omega arith;
  blue_le = omega arith;
  green_le = omega arith;
  red_le = omega arith;
}

cursor_pixel-IsPremultiplied_example :
    (v : ℕ) × (cursor_pixel gamma true pixel ≡ writes v) × (alpha v ≡ 128)
cursor_pixel-IsPremultiplied_example =
    cursor_pixel-IsPremultiplied gamma true pixel gamma-IsGamma pixel-IsPremultiplied

cursor_pixel-overrun_example : cursor_pixel gamma true (128 * 2 ^ 24 + 255) ≡ overrun
cursor_pixel-overrun_example =
    cursor_pixel-overrun gamma (128 * 2 ^ 24 + 255) gamma-IsGamma (omega arith) (omega arith)
      (omega arith)

-- Buffer 0 is on the screen, with the server's cursor 7.
abbrev shown : Cursor
shown = record { cursor = some 7; cursor_id = 0; buffers = λ j. [] }

load_cursor_argb-ArePremultiplied_example :
    (l : Loaded) × (load_cursor_argb 1 gamma 24 false 8 (pixel ∷ pixel ∷ []) shown ≡ some l)
    × (l.shows ≡ true)
    × (l.state.cursor_id ≡ 1)
    × (map alpha (l.state.buffers l.state.cursor_id) ≡ 128 ∷ 128 ∷ [])
    × (l.state.buffers (1 - l.state.cursor_id) ≡ [])
load_cursor_argb-ArePremultiplied_example =
    load_cursor_argb-ArePremultiplied gamma 24 false 8 (pixel ∷ pixel ∷ []) shown gamma-IsGamma
      (pixel-IsPremultiplied, (pixel-IsPremultiplied, tt)) (omega arith)
