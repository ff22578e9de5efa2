-- ===== src/Dri2/Exchange.antt =====
-- src/amdgpu_dri2.c: what amdgpu_dri2_exchange_buffers exchanges.
use xf86_video_amdgpu.Prelude.{
  ℕ, ◌+◌, ◌≡◌, ◌≢◌, refl, ap, sym, ◌∙◌, ◌⊎◌, inl, inr, true, false, ◌==◌, arith, Bool-cases,
}
use xf86_video_amdgpu.DrmQueue.{update}
use xf86_video_amdgpu.Dri2.{
  Buffer, Dri2, exchange_buffers, update_screen, set_front_buffer, set_private, set_name,
}

-- The buffer object behind a buffer: that of the private of its pixmap.
abbrev pub storage : ℕ → Dri2 → ℕ
storage b d = d.bo_of (d.pixmaps (d.buffers b).pixmap).private

-- The driver's front buffer object is that of the screen's pixmap.
abbrev pub IsShown : Dri2 → Type 0
IsShown d = d.front_buffer ≡ d.bo_of (d.pixmaps d.screen_pixmap).private

abbrev SamePlaces : Dri2 → Dri2 → Type 0
SamePlaces d d' =
    (d'.buffers ≡ d.buffers) × (d'.pixmaps ≡ d.pixmaps) × (d'.screen_pixmap ≡ d.screen_pixmap)

set_front_buffer_lem :
    (bo : ℕ) (d : Dri2)
    → SamePlaces d (set_front_buffer bo d) × ((set_front_buffer bo d).front_buffer ≡ bo)
unfolding set_front_buffer
set_front_buffer_lem bo d =
    elim (Bool-cases (update d.bo_refs bo (d.bo_refs bo + 1) d.front_buffer == 1)) [
      | inl t ↦ simp t ((refl, refl, refl), refl)
      | inr f ↦ simp f ((refl, refl, refl), refl)
    ]

update_screen_hit :
    (front_pix back_pix : ℕ) (d : Dri2)
    → (d.bo_of front_pix == d.front_buffer) ≡ true
    → SamePlaces d (update_screen front_pix back_pix d)
      × ((update_screen front_pix back_pix d).front_buffer ≡ d.bo_of back_pix)
      × ((update_screen front_pix back_pix d).bo_of
          ≡ update d.bo_of (d.pixmaps d.screen_pixmap).private (d.bo_of back_pix))
unfolding update_screen
update_screen_hit front_pix back_pix d h =
    let (same, front) = set_front_buffer_lem (d.bo_of back_pix) d in simp h (same, front, refl)

update_screen_miss :
    (front_pix back_pix : ℕ) (d : Dri2)
    → (d.bo_of front_pix == d.front_buffer) ≡ false
    → update_screen front_pix back_pix d ≡ d
unfolding update_screen
update_screen_miss front_pix back_pix d h = simp h

-- On two buffers with pixmaps and privates of their own, where the back pixmap is not the screen's,
-- and the front one is the screen's or has another buffer object than the screen: the exchange swaps
-- the names and the buffer objects of the two, and the driver's front buffer object, if it was that
-- of the screen's pixmap, is that again.
pub exchange_buffers-storage :
    (front back : ℕ) (d : Dri2)
    → front ≢ back
    → (d.buffers front).pixmap ≢ (d.buffers back).pixmap
    → (d.pixmaps (d.buffers front).pixmap).private ≢ (d.pixmaps (d.buffers back).pixmap).private
    → d.screen_pixmap ≢ (d.buffers back).pixmap
    → ((d.screen_pixmap ≡ (d.buffers front).pixmap) ⊎ (storage front d ≢ d.front_buffer))
    → IsShown d
    → let d' = exchange_buffers front back d in
      ((d'.buffers front).name ≡ (d.buffers back).name)
      × ((d'.buffers back).name ≡ (d.buffers front).name)
      × (storage front d' ≡ storage back d)
      × (storage back d' ≡ storage front d)
      × IsShown d'
unfolding exchange_buffers
exchange_buffers-storage front back d apart pixmaps privates not_back (inl screen) shown =
    let f : Buffer = d.buffers front in
    let b : Buffer = d.buffers back in
    let front_pix : ℕ = (d.pixmaps f.pixmap).private in
    let back_pix : ℕ = (d.pixmaps b.pixmap).private in
    let d₁ : Dri2 =
      set_private b.pixmap front_pix
        (set_private f.pixmap back_pix (set_name back f.name (set_name front b.name d))) in
    let fp : (d₁.buffers front).pixmap ≡ f.pixmap = ground arith in
    let bp : (d₁.buffers back).pixmap ≡ b.pixmap = ground arith in
    let fv : (d₁.pixmaps f.pixmap).private ≡ back_pix = ground arith in
    let bv : (d₁.pixmaps b.pixmap).private ≡ front_pix = ground arith in
    let names : ((d₁.buffers front).name ≡ b.name) × ((d₁.buffers back).name ≡ f.name) =
      (ground arith, ground arith) in
    let same : (d₁.bo_of front_pix == d₁.front_buffer) ≡ true =
      ground (arith, shown, ap (λ p. d.bo_of (d.pixmaps p).private) screen) in
    let ((buffers, maps, screen_same), front_same, bos) =
      update_screen_hit front_pix back_pix d₁ same in
    let sv : (d₁.pixmaps d.screen_pixmap).private ≡ back_pix =
      ap (λ p. (d₁.pixmaps p).private) screen ∙ fv in
    let bo : ℕ → ℕ = update d.bo_of (d₁.pixmaps d.screen_pixmap).private (d.bo_of back_pix) in
    let at_front : bo (d₁.pixmaps (d₁.buffers front).pixmap).private ≡ d.bo_of back_pix =
      rw (fp, fv, sv) (ground arith) in
    let at_back : bo (d₁.pixmaps (d₁.buffers back).pixmap).private ≡ d.bo_of front_pix =
      rw (bp, bv, sv) (ground arith) in
    let at_screen : d.bo_of back_pix ≡ bo (d₁.pixmaps d.screen_pixmap).private = ground arith in
    (
      rw buffers names.0,
      rw buffers names.1,
      rw (buffers, maps, bos) at_front,
      rw (buffers, maps, bos) at_back,
      rw (maps, screen_same, front_same, bos) at_screen,
    )
exchange_buffers-storage front back d apart pixmaps privates not_back (inr hidden) shown =
    let f : Buffer = d.buffers front in
    let b : Buffer = d.buffers back in
    let front_pix : ℕ = (d.pixmaps f.pixmap).private in
    let back_pix : ℕ = (d.pixmaps b.pixmap).private in
    let d₁ : Dri2 =
      set_private b.pixmap front_pix
        (set_private f.pixmap back_pix (set_name back f.name (set_name front b.name d))) in
    let fp : (d₁.buffers front).pixmap ≡ f.pixmap = ground arith in
    let bp : (d₁.buffers back).pixmap ≡ b.pixmap = ground arith in
    let fv : (d₁.pixmaps f.pixmap).private ≡ back_pix = ground arith in
    let bv : (d₁.pixmaps b.pixmap).private ≡ front_pix = ground arith in
    let names : ((d₁.buffers front).name ≡ b.name) × ((d₁.buffers back).name ≡ f.name) =
      (ground arith, ground arith) in
    let differs : (d₁.bo_of front_pix == d₁.front_buffer) ≡ false = ground arith in
    let not_front : d.screen_pixmap ≢ f.pixmap =
      λ q. hidden (ap (λ p. d.bo_of (d.pixmaps p).private) (sym q) ∙ sym shown) in
    let sv : (d₁.pixmaps d.screen_pixmap).private ≡ (d.pixmaps d.screen_pixmap).private =
      ground (arith, not_front, not_back) in
    rw (update_screen_miss front_pix back_pix d₁ differs) (
      names.0,
      names.1,
      ap d.bo_of (ap (λ p. (d₁.pixmaps p).private) fp ∙ fv),
      ap d.bo_of (ap (λ p. (d₁.pixmaps p).private) bp ∙ bv),
      shown ∙ ap d.bo_of (sym sv),
    )
