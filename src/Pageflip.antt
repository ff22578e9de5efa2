-- ===== src/Pageflip.antt =====
-- src/drmmode_display.c, drmmode_flip_handler and drmmode_flip_abort: the completion of a page flip
-- that spans several CRTCs. A CRTC is its hardware number, drmmode_get_crtc_id.
pub mod Completion
pub mod Delivery
pub mod Submit
use xf86_video_amdgpu.Prelude.{
  ℕ, ◌+◌, ◌-◌, ◌%◌, ◌^◌, Bool, true, false, ◌&&◌, Option, none, some, List, [], ◌∷◌, ◌++◌,
  if◌then◌else◌, ◌==◌,
}
use xf86_video_amdgpu.Framebuffer.{
  Slot, Fbs, Result, ok, fatal, fault, ◌>>=◌, fb_reference, flip_pending, crtc_fb, flipdata_fb,
}

-- drmmode_flipdata_rec, without its array of framebuffers, which are the slots flipdata_fb. The
-- signed flip_count is its bit pattern.
pub record FlipData : Type 0 where
  pub event_data : ℕ
  pub flip_count : ℕ
  pub fe_frame : ℕ
  pub fe_usec : ℕ
  pub fe_crtc : Option ℕ
  pub handler : ℕ
  pub abort : ℕ

-- The allocated flips, by their address.
pub record Flips : Type 0 where
  pub fbs : Fbs
  pub flipdata : ℕ → Option FlipData

-- What a completion does beyond the flips: the call of the higher level's callback, if any.
pub data Call : Type 0 where
  calls_handler : (handler crtc frame usec event_data : ℕ) → Call
  calls_abort : (abort crtc event_data : ℕ) → Call
  -- with NULL for the CRTC
  calls_abort_early : (abort event_data : ℕ) → Call

abbrev pub decrement : ℕ → ℕ
decrement n = (n + 2 ^ 32 - 1) % 2 ^ 32

abbrev pub pointer_eq : Option ℕ → Option ℕ → Bool
pointer_eq none none = true
pointer_eq (some p) (some q) = p == q
pointer_eq _ _ = false

abbrev pub is_some : Option ℕ → Bool
is_some none = false
is_some (some _) = true

abbrev pub or_else : Option ℕ → ℕ → ℕ
or_else none d = d
or_else (some a) d = a

abbrev pub set_flipdata : ℕ → Option FlipData → Flips → Flips
set_flipdata f v s = record s { flipdata = λ g. if g == f then v else s.flipdata g }

-- `if (drmmode_crtc->flip_pending == *fb)`: the CRTC no longer waits for this framebuffer.
unfoldable pub clear_pending : ℕ → ℕ → Fbs → Result Fbs
clear_pending f crtc s =
    if pointer_eq (s.held (flip_pending crtc)) (s.held (flipdata_fb f crtc))
    then fb_reference (flip_pending crtc) none s
    else ok s

-- `if (--flipdata->flip_count == 0)`: the last completion makes the call and frees the flip.
unfoldable pub count_down : ℕ → FlipData → Call → Flips → Flips × Option Call
count_down f d call s =
    if decrement d.flip_count == 0
    then (set_flipdata f none s, some call)
    else (set_flipdata f (some (record d { flip_count = decrement d.flip_count })) s, none)

unfoldable pub flip_abort : ℕ → ℕ → Flips → Result (Flips × Option Call)
flip_abort crtc f s = elim (s.flipdata f) [
  | none ↦ fault
  | some d ↦ do
    s' ← clear_pending f crtc s.fbs
    s'' ← fb_reference (flipdata_fb f crtc) none s'
    ok (
        count_down f d (calls_abort d.abort (or_else d.fe_crtc crtc) d.event_data)
          (record s { fbs = s'' }))
]

-- `if (*fb)`: the CRTC scans the framebuffer out from now on.
unfoldable pub shift_fb : ℕ → ℕ → Fbs → Result Fbs
shift_fb f crtc s =
    if is_some (s.held (flipdata_fb f crtc))
    then (do
      s' ← clear_pending f crtc s
      s'' ← fb_reference (crtc_fb crtc) (s'.held (flipdata_fb f crtc)) s'
      fb_reference (flipdata_fb f crtc) none s'')
    else ok s

-- The time of the reference CRTC is kept for the call.
unfoldable pub record_time : ℕ → ℕ → ℕ → FlipData → FlipData
record_time crtc frame usec d =
    if pointer_eq (some crtc) d.fe_crtc then record d { fe_frame = frame; fe_usec = usec } else d

abbrev pub completion_call : ℕ → ℕ → ℕ → FlipData → Call
completion_call crtc frame usec d = elim d.fe_crtc [
  | some c ↦ calls_handler d.handler c d.fe_frame d.fe_usec d.event_data
  | none ↦ calls_handler d.handler crtc frame usec d.event_data
]

unfoldable pub flip_handler : ℕ → ℕ → ℕ → ℕ → Flips → Result (Flips × Option Call)
flip_handler crtc frame usec f s = elim (s.flipdata f) [
  | none ↦ fault
  | some d ↦ do
    s' ← shift_fb f crtc s.fbs
    ok (
        count_down f (record_time crtc frame usec d)
          (completion_call crtc frame usec (record_time crtc frame usec d)) (record s { fbs = s' }))
]
