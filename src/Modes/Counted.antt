-- ===== src/Modes/Counted.antt =====
-- src/drmmode_display.c, drmmode_set_mode: the framebuffer of a CRTC, and its count.
use xf86_video_amdgpu.Prelude.{
  ℕ, ◌≡◌, refl, sym, ap, ◌∙◌, ◌⊎◌, inl, inr, true, false, Option, none, some, List, arith,
  Bool-cases, Option-cases,
}
use xf86_video_amdgpu.Framebuffer.{Fb, Slot, Fbs, ok, crtc_fb}
use xf86_video_amdgpu.Framebuffer.Counting.{occurs, IsCounted, fb_reference-IsCounted}
use xf86_video_amdgpu.Modes.{Mode, convert_to_kmode}
use xf86_video_amdgpu.Modes.Outputs.{connectors, output_ids-sequence}
use xf86_video_amdgpu.Modes.Set.{
  Output, output_ids, SetCrtc, Kernel, request_mode, apply_mode, set_mode,
}

-- With the framebuffers counted, and this one allocated, setting a mode returns without touching freed
-- memory, and they are counted again. Either each output of the CRTC has a connector, the kernel is
-- asked to show the framebuffer at (x, y) in the converted mode on just those connectors and does it,
-- TRUE is returned, and the CRTC holds the framebuffer; or FALSE is returned and nothing has changed,
-- and the allocation, a connector, or the kernel's consent to that request was missing.
pub set_mode-IsCounted :
    (σs : List Slot) (k : Kernel) (c fb x y : ℕ) (mode : Mode) (outputs : List Output) (s : Fbs)
    (r : Fb)
    → IsCounted σs s
    → occurs (crtc_fb c) σs ≡ 1
    → s.fb fb ≡ some r
    → let asked : List ℕ → SetCrtc = λ ids. record {
      crtc = c;
      fb_handle = r.handle;
      x = x;
      y = y;
      outputs = ids;
      mode = convert_to_kmode mode;
    } in
      ((t : Fbs) × (ids : List ℕ) × (set_mode k c fb x y mode outputs s ≡ ok (true, t))
        × (connectors c outputs ≡ some ids)
        × (k.sets_crtc (asked ids) ≡ true)
        × IsCounted σs t
        × (t.held (crtc_fb c) ≡ some fb))
      ⊎ ((set_mode k c fb x y mode outputs s ≡ ok (false, s))
          × ((k.callocs ≡ false)
              ⊎ ((connectors c outputs ≡ none)
                  ⊎ ((ids : List ℕ) × (connectors c outputs ≡ some ids)
                      × (k.sets_crtc (asked ids) ≡ false)))))
unfolding set_mode apply_mode request_mode
set_mode-IsCounted σs k c fb x y mode outputs s r counted once there = elim (Bool-cases k.callocs) [
  | inr lacks ↦ inr (simp (set_mode, lacks) refl, inl lacks)
  | inl has ↦ elim (Option-cases (output_ids c outputs)) [
    | inl missing ↦ inr (
      simp (set_mode, has, missing) refl,
      inr (inl (sym (output_ids-sequence c outputs) ∙ missing)),
    )
    | inr (ids, found) ↦ elim (Bool-cases (k.sets_crtc (request_mode c r.handle x y mode ids))) [
      | inr refused ↦ inr (
        simp (set_mode, has, found, apply_mode, there, refused) refl,
        inr (inr (ids, sym (output_ids-sequence c outputs) ∙ found, refused)),
      )
      | inl done ↦
          let (t, referenced, counted', held) =
            fb_reference-IsCounted σs (crtc_fb c) (some fb) s counted once (λ gone. cc) in
          inl (
            t,
            ids,
            simp (set_mode, has, found, apply_mode, there, done, referenced) refl,
            sym (output_ids-sequence c outputs) ∙ found,
            done,
            counted',
            ap {B = Option ℕ} (λ (h : Slot → Option ℕ). h (crtc_fb c)) held ∙ ground arith,
          )
    ]
  ]
]
