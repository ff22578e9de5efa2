-- ===== src/Framebuffer.antt =====
-- src/drmmode_display.h, drmmode_fb_reference_loc: counted references to framebuffers. The pointers
-- `struct drmmode_fb **` that hold references are slots; a framebuffer is an address.
pub mod Counting
use xf86_video_amdgpu.Prelude.{
  ℕ, suc, ◌+◌, ◌-◌, Bool, true, false, ◌&&◌, Option, none, some, List, [], ◌∷◌, ◌++◌, if◌then◌else◌,
  ◌==◌,
}

-- struct drmmode_fb
pub record Fb : Type 0 where
  pub refcnt : ℕ
  pub handle : ℕ

-- The places that hold a reference: the private of a pixmap, the fields `fb` and `flip_pending` of
-- a CRTC, and the entry for a CRTC in the array of a flip.
pub data Slot : Type 0 where
  pixmap_fb crtc_fb flip_pending : ℕ → Slot
  flipdata_fb : ℕ → ℕ → Slot

abbrev pub slot_eq : Slot → Slot → Bool
slot_eq (pixmap_fb i) (pixmap_fb j) = i == j
slot_eq (crtc_fb i) (crtc_fb j) = i == j
slot_eq (flip_pending i) (flip_pending j) = i == j
slot_eq (flipdata_fb f i) (flipdata_fb g j) = f == g && i == j
slot_eq _ _ = false

-- The framebuffers that are allocated, the slots, and the handles that drmModeRmFB was given.
pub record Fbs : Type 0 where
  pub fb : ℕ → Option Fb
  pub held : Slot → Option ℕ
  pub removed : List ℕ

-- FatalError ends the server; a fault is an access to a framebuffer that has been freed.
pub data Result {ℓ} (A : Type ℓ) : Type ℓ where
  ok : A → Result A
  fatal fault : Result A

infixl 5 ◌>>=◌
abbrev pub ◌>>=◌ {ℓ κ} : {A : Type ℓ} {B : Type κ} → Result A → (A → Result B) → Result B
ok a >>= f = f a
fatal >>= f = fatal
fault >>= f = fault

abbrev pub set_fb : ℕ → Option Fb → Fbs → Fbs
set_fb p v s = record s { fb = λ q. if q == p then v else s.fb q }

abbrev pub set_slot : Slot → Option ℕ → Fbs → Fbs
set_slot σ v s = record s { held = λ τ. if slot_eq τ σ then v else s.held τ }

-- `if (new)`: the new framebuffer gets a reference.
unfoldable pub retain : Option ℕ → Fbs → Result Fbs
retain none s = ok s
retain (some p) s = elim (s.fb p) [
  | none ↦ fault
  | some r ↦
      if r.refcnt == 0 then fatal else ok (set_fb p (some (record r { refcnt = r.refcnt + 1 })) s)
]

-- `if (*old)`: the old one loses a reference, and is removed and freed with the last.
unfoldable pub release : Option ℕ → Fbs → Result Fbs
release none s = ok s
release (some p) s = elim (s.fb p) [
  | none ↦ fault
  | some r ↦
      if r.refcnt == 0
      then fatal
      else if r.refcnt == 1
      then ok (record (set_fb p none s) { removed = s.removed ++ r.handle ∷ [] })
      else ok (set_fb p (some (record r { refcnt = r.refcnt - 1 })) s)
]

unfoldable pub fb_reference : Slot → Option ℕ → Fbs → Result Fbs
fb_reference σ new s = do s' ← retain new s; s'' ← release (s.held σ) s'; ok (set_slot σ new s'')
