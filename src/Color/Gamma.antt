-- ===== src/Color/Gamma.antt =====
-- src/drmmode_display.c: what drmmode_crtc_push_cm_prop asks of the kernel, and the gamma table that
-- it makes of the legacy ramps.
use xf86_video_amdgpu.Prelude.{
  ℕ, zero, suc, ◌*◌, ◌^◌, ◌≤◌, ◌<◌, ◌≡◌, ◌⊎◌, inl, inr, refl, sym, ◌∙◌, true, false, Option, none,
  some, List, [], ◌∷◌, ◌==◌, length, arith, Bool-cases, Option-cases,
}
use xf86_video_amdgpu.Lut.Samples.{IsLut}
use xf86_video_amdgpu.Lut.Tables.{lut_interpolate-total, lut_compose-total}
use xf86_video_amdgpu.Color.{
  CmProp, degamma_lut, ctm, gamma_lut, Status, bad_name, bad_alloc, Colors,
}
use xf86_video_amdgpu.Color.Push.{
  Kernel, Ramps, KernelCall, creates_blob, sets_property, destroys_blob, do_push, push_supported,
  push_cm_prop, gamma_blob, reds, greens, blues, pack, sets_legacy, pushes, gamma_do_set,
}

-- The blobs that a sequence of calls creates and destroys, in order.
abbrev pub created : List KernelCall → List ℕ
created [] = []
created (creates_blob xs b ∷ cs) = b ∷ created cs
created (sets_property p b ∷ cs) = created cs
created (destroys_blob b ∷ cs) = created cs

abbrev pub destroyed : List KernelCall → List ℕ
destroyed [] = []
destroyed (creates_blob xs b ∷ cs) = destroyed cs
destroyed (sets_property p b ∷ cs) = destroyed cs
destroyed (destroys_blob b ∷ cs) = b ∷ destroyed cs

abbrev pub IsBalanced : Status × List KernelCall → Type 0
IsBalanced (st, cs) = created cs ≡ destroyed cs

do_push-IsBalanced :
    (k : Kernel) (p : CmProp) (blob : Option (List ℕ)) → IsBalanced (do_push k p blob)
unfolding do_push
do_push-IsBalanced k p none = refl
do_push-IsBalanced k p (some xs) = elim (Option-cases k.new_blob) [
  | inl e ↦ rw e refl
  | inr (b, e) ↦ rw e refl
]

returned_IsBalanced :
    (x : Status × List KernelCall) (st : Status) (cs : List KernelCall)
    → IsBalanced x
    → some x ≡ some (st, cs)
    → created cs ≡ destroyed cs
returned_IsBalanced (st', cs') st cs h e = cc

push_supported-IsBalanced :
    (k : Kernel) (r : Ramps) (p : CmProp) (s : Colors) (st : Status) (cs : List KernelCall)
    → push_supported k r p s ≡ some (st, cs)
    → created cs ≡ destroyed cs
unfolding push_supported
push_supported-IsBalanced k r gamma_lut s st cs h = elim (Bool-cases k.gamma_set) [
  | inr legacy ↦
      let direct : push_supported k r gamma_lut s ≡ some (do_push k gamma_lut s.gamma_lut) =
        rw legacy refl in
      returned_IsBalanced (do_push k gamma_lut s.gamma_lut) st cs
        (do_push-IsBalanced k gamma_lut s.gamma_lut) (sym direct ∙ h)
  | inl set ↦ elim (Bool-cases k.memory) [
    | inr out_of_memory ↦
        returned_IsBalanced (bad_alloc, []) st cs refl (rw out_of_memory at (rw set at h))
    | inl memory ↦ elim (Option-cases (gamma_blob r s.gamma_lut s.gamma_lut_size)) [
      | inl fault ↦ absurd (ground arith)
      | inr (xs, made) ↦
          let composed : push_supported k r gamma_lut s ≡ some (do_push k gamma_lut (some xs)) =
            rw (set, push_supported) (rw memory (rw made refl)) in
          returned_IsBalanced (do_push k gamma_lut (some xs)) st cs
            (do_push-IsBalanced k gamma_lut (some xs)) (sym composed ∙ h)
    ]
  ]
]
push_supported-IsBalanced k r degamma_lut s st cs h =
    returned_IsBalanced _ st cs (do_push-IsBalanced k degamma_lut s.degamma_lut) h
push_supported-IsBalanced k r ctm s st cs h =
    returned_IsBalanced _ st cs (do_push-IsBalanced k ctm s.ctm) h
push_supported-IsBalanced k r _ s st cs h = returned_IsBalanced (bad_name, []) st cs refl h

-- Every blob that drmmode_crtc_push_cm_prop creates in the kernel is destroyed before it returns, on
-- every path that returns, errors included.
pub push_cm_prop-IsBalanced :
    (k : Kernel) (r : Ramps) (p : CmProp) (s : Colors) (st : Status) (cs : List KernelCall)
    → push_cm_prop k r p s ≡ some (st, cs)
    → created cs ≡ destroyed cs
unfolding push_cm_prop
push_cm_prop-IsBalanced k r p s st cs h = elim (Bool-cases (k.prop_id p == 0)) [
  | inl unknown ↦ returned_IsBalanced (bad_name, []) st cs refl (rw unknown at h)
  | inr known ↦ push_supported-IsBalanced k r p s st cs (rw known at h)
]

-- The ramps of the server have the size that is declared, and 16-bit entries.
pub record IsRamps (r : Ramps) : Type 0 where
  pub size_red : length r.red ≡ r.gamma_size
  pub size_green : length r.green ≡ r.gamma_size
  pub size_blue : length r.blue ≡ r.gamma_size
  pub nonempty : 0 < r.gamma_size
  pub bounded : r.gamma_size ≤ 2 ^ 16
  pub is_red : IsLut r.red
  pub is_green : IsLut r.green
  pub is_blue : IsLut r.blue

length-reds :
    (n : ℕ) (xs : List ℕ)
    → length xs ≡ 4 * n
    → (length (reds xs) ≡ n) × (length (greens xs) ≡ n) × (length (blues xs) ≡ n)
unfolding reds greens blues
length-reds zero [] h = (refl, refl, refl)
length-reds zero (x ∷ xs) h = absurd (omega arith)
length-reds (suc n) [] h = absurd (omega arith)
length-reds (suc n) (r ∷ []) h = absurd (omega arith)
length-reds (suc n) (r ∷ g ∷ []) h = absurd (omega arith)
length-reds (suc n) (r ∷ g ∷ b ∷ []) h = absurd (omega arith)
length-reds (suc n) (r ∷ g ∷ b ∷ x ∷ t) h =
    let (reds_t, greens_t, blues_t) = length-reds n t (omega arith) in
    (omega (arith, reds_t), omega (arith, greens_t), omega (arith, blues_t))

length-pack :
    (n : ℕ) (rs gs bs : List ℕ)
    → length rs ≡ n
    → length gs ≡ n
    → length bs ≡ n
    → length (pack rs gs bs) ≡ 4 * n
unfolding pack
length-pack zero [] [] [] h h' h'' = refl
length-pack (suc n) (r ∷ rs) (g ∷ gs) (b ∷ bs) h h' h'' =
    omega (arith, length-pack n rs gs bs (omega arith) (omega arith) (omega arith))
length-pack _ _ _ _ h h' h'' = absurd (omega arith)

-- What is staged for the gamma table has four elements for each entry, if anything is staged.
abbrev pub HasSize : ℕ → Option (List ℕ) → Type 0
HasSize n none = Unit {0}
HasSize n (some lut) = length lut ≡ 4 * n

-- For ramps of the server and a table of the kernel with 2 up to 65536 entries, whether or not a
-- table is staged, the composition does not fault, and gives a table with four elements for each
-- entry.
pub gamma_blob-total :
    (r : Ramps) (staged : Option (List ℕ)) (len : ℕ)
    → IsRamps r
    → 1 < len
    → len ≤ 2 ^ 16
    → HasSize len staged
    → (xs : List ℕ) × (gamma_blob r staged len ≡ some xs) × (length xs ≡ 4 * len)
unfolding gamma_blob
gamma_blob-total r none len ramps pos small size =
    let (red, red_runs, red_size, _) =
      lut_interpolate-total r.red r.gamma_size len ramps.size_red ramps.nonempty ramps.bounded pos
        small ramps.is_red in
    let (green, green_runs, green_size, _) =
      lut_interpolate-total r.green r.gamma_size len ramps.size_green ramps.nonempty ramps.bounded
        pos small ramps.is_green in
    let (blue, blue_runs, blue_size, _) =
      lut_interpolate-total r.blue r.gamma_size len ramps.size_blue ramps.nonempty ramps.bounded pos
        small ramps.is_blue in
    (
      pack red green blue,
      rw (red_runs, gamma_blob) (rw (green_runs, blue_runs) refl),
      length-pack len red green blue red_size green_size blue_size,
    )
gamma_blob-total r (some lut) len ramps pos small size =
    let (size_red, size_green, size_blue) = length-reds len lut size in
    let (red, red_runs, red_size, _) =
      lut_compose-total r.red (reds lut) r.gamma_size len ramps.size_red size_red ramps.nonempty
        ramps.bounded pos small ramps.is_red in
    let (green, green_runs, green_size, _) =
      lut_compose-total r.green (greens lut) r.gamma_size len ramps.size_green size_green
        ramps.nonempty ramps.bounded pos small ramps.is_green in
    let (blue, blue_runs, blue_size, _) =
      lut_compose-total r.blue (blues lut) r.gamma_size len ramps.size_blue size_blue ramps.nonempty
        ramps.bounded pos small ramps.is_blue in
    (
      pack red green blue,
      rw (red_runs, gamma_blob) (rw (green_runs, blue_runs) refl),
      length-pack len red green blue red_size green_size blue_size,
    )

-- drmmode_crtc_gamma_do_set on a CRTC with legacy ramps of the server, and with a size of the
-- kernel's table from 2 up to 65536 that a staged table has, either sets the
-- ramps directly, where the kernel has no gamma property, or sends it one table of the kernel's
-- size and returns; it fails if the memory, the blob or the property is refused.
pub gamma_do_set_lem :
    (k : Kernel) (r : Ramps) (s : Colors)
    → k.gamma_set ≡ true
    → IsRamps r
    → 1 < s.gamma_lut_size
    → s.gamma_lut_size ≤ 2 ^ 16
    → HasSize s.gamma_lut_size s.gamma_lut
    → ((k.prop_id gamma_lut ≡ 0) × (gamma_do_set k r s ≡ sets_legacy r))
      ⊎ ((k.memory ≡ false) × (gamma_do_set k r s ≡ pushes (some (bad_alloc, []))))
      ⊎ ((xs : List ℕ) × (length xs ≡ 4 * s.gamma_lut_size)
          × (gamma_do_set k r s ≡ pushes (some (do_push k gamma_lut (some xs)))))
unfolding gamma_do_set push_cm_prop push_supported
gamma_do_set_lem k r s set ramps pos small size = elim (Bool-cases (k.prop_id gamma_lut == 0)) [
  | inl unknown ↦ inl (ground arith, rw unknown refl)
  | inr known ↦ elim (Bool-cases k.memory) [
    | inr out_of_memory ↦
        inr (inl (out_of_memory, rw (known, gamma_do_set) (rw set (rw out_of_memory refl))))
    | inl memory ↦
        let (xs, made, count) =
          gamma_blob-total r s.gamma_lut s.gamma_lut_size ramps pos small size in
        inr (inr (xs, count, rw (known, gamma_do_set) (rw set (rw memory (rw made refl)))))
  ]
]
