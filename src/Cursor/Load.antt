-- ===== src/Cursor/Load.antt =====
-- src/drmmode_display.c: drmmode_load_cursor_argb as a whole.
use xf86_video_amdgpu.Prelude.{
  ℕ, ◌-◌, ◌<◌, ◌≡◌, refl, Bool, not, ◌&&◌, ◌||◌, some, List, map, if◌then◌else◌, ◌==◌, arith,
}
use xf86_video_amdgpu.Cursor.{Gamma, Cursor, Loaded, alpha, is_other, target_id, load_cursor_argb}
use xf86_video_amdgpu.Cursor.Image.{IsGamma, ArePremultiplied, rounds-ArePremultiplied}

-- Loading an image of premultiplied pixels ends, in one round. If the CRTC shows another cursor, the
-- image goes to the other buffer, which is then shown, and the one on the screen is not touched;
-- else it goes to the buffer that is shown. The pixels keep their alphas.
pub load_cursor_argb-ArePremultiplied :
    (g : Gamma) (depth : ℕ) (has_gamma_lut : Bool) (current : ℕ) (image : List ℕ) (s : Cursor)
    → IsGamma g
    → ArePremultiplied image
    → s.cursor_id < 2
    → (l : Loaded) × (load_cursor_argb 1 g depth has_gamma_lut current image s ≡ some l)
      × (l.shows ≡ is_other s.cursor current)
      × (l.state.cursor_id ≡ (if is_other s.cursor current then 1 - s.cursor_id else s.cursor_id))
      × (map alpha (l.state.buffers l.state.cursor_id) ≡ map alpha image)
      × (l.state.buffers (1 - l.state.cursor_id) ≡ s.buffers (1 - l.state.cursor_id))
unfolding load_cursor_argb target_id
load_cursor_argb-ArePremultiplied g depth has_gamma_lut current image s gamma p two =
    let apply_gamma : Bool = not (not (depth == 24) && not (depth == 32) || has_gamma_lut) in
    let (out, runs, alphas) = rounds-ArePremultiplied g apply_gamma image gamma p in
    let id : ℕ = target_id current s in
    (
      record {
        state = record s { cursor_id = id; buffers = λ j. if j == id then out else s.buffers j };
        shows = not (id == s.cursor_id);
      },
      rw (runs, load_cursor_argb) refl,
      ground arith,
      ground arith,
      ground (arith, alphas),
      ground arith,
    )
