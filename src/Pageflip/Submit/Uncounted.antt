-- ===== src/Pageflip/Submit/Uncounted.antt =====
-- src/drmmode_display.c: amdgpu_do_pageflip where no CRTC can flip.
use xf86_video_amdgpu.Prelude.{
  ℕ, ◌-◌, ◌^◌, ◌≡◌, refl, ◌∙◌, true, false, none, some, List, [], ◌∷◌, arith,
}
use xf86_video_amdgpu.Framebuffer.{Slot, ok}
use xf86_video_amdgpu.Framebuffer.Counting.{IsCounted}
use xf86_video_amdgpu.DrmQueue.{Driver, State}
use xf86_video_amdgpu.Pageflip.{FlipData, count_down, set_flipdata}
use xf86_video_amdgpu.Pageflip.Completion.{HasSlots, aborted, complete_lem}
use xf86_video_amdgpu.Pageflip.Submit.{
  Screen, World, Submission, Setting, Progress, goes_on, abort_in, flip_crtcs, is_flipped, undo,
  new_flipdata, finish, release_deferred, do_pageflip,
}
use xf86_video_amdgpu.Pageflip.Submit.Account.{intact}
use xf86_video_amdgpu.Pageflip.Submit.Rounds.{Each, flipped}
use xf86_video_amdgpu.Pageflip.Submit.Loop.{flip_crtcs_on, flip_crtc_skipped}

module _ (other : Driver World) (a : Submission) (e : Setting) (σs : List Slot) (v₀ : Screen) where
  none_flipped :
      (fb : ℕ) (crtcs : List ℕ) (last : ℕ) (p : Progress)
      → flipped other a e crtcs ≡ 0
      → Each (λ crtc. HasSlots σs e.address crtc) crtcs
      → HasSlots σs e.address last
      → (c : ℕ) × (flip_crtcs other a e fb crtcs (some last) p ≡ some (goes_on p, some c))
        × HasSlots σs e.address c
  unfolding flip_crtcs
  none_flipped fb [] last p idle slots has = (last, refl, has)
  none_flipped fb (crtc ∷ crtcs) last p idle slots has =
      let (c, runs, h) = none_flipped fb crtcs crtc p (omega arith) slots.1 slots.0 in
      let skipped : is_flipped other a e crtc ≡ false = ground arith in
      (
        c,
        flip_crtcs_on other a e σs v₀ fb crtc crtcs (some last) p p
              (flip_crtc_skipped other a e σs v₀ fb crtc p skipped)
            ∙ runs,
        h,
      )

  finish_uncounted :
      (last : ℕ) (s : State World) (v : Screen)
      → IsCounted σs v.flips.fbs
      → v.flips.flipdata e.address ≡ some (new_flipdata other a e)
      → HasSlots σs e.address last
      → (t : State World) × (u : Screen) × (finish other a e (goes_on (intact s v), some last)
          ≡ some (false, record t { world = ok u }))
        × (u.calls ≡ v.calls)
        × (u.flips.flipdata e.address
            ≡ some (record (new_flipdata other a e) { flip_count = 2 ^ 32 - 1 }))
  unfolding finish undo abort_in count_down release_deferred
  finish_uncounted last s v c there has =
      let d : FlipData = new_flipdata other a e in
      let (b, _, aborts) = complete_lem σs e.address (last, aborted) v.flips d has c there in
      (
        s,
        record v {
          flips =
              set_flipdata e.address (some (record d { flip_count = 2 ^ 32 - 1 }))
                (record v.flips { fbs = b });
        },
        rw there (rw aborts refl),
        refl,
        ground arith,
      )

  -- Where every framebuffer is counted, the flip and the framebuffer of the pixmap are found, and
  -- none of the CRTCs, of which there is at least one, can flip: the submission returns FALSE and
  -- the abort callback is not called. The flip is not freed: its count is that of -1.
  pub do_pageflip-none_flipped :
      (fb crtc : ℕ) (crtcs : List ℕ) (s : State World)
      → IsCounted σs v₀.flips.fbs
      → e.flipdata_memory ≡ true
      → a.front_fb ≡ some fb
      → Each (λ c. HasSlots σs e.address c) (crtc ∷ crtcs)
      → flipped other a e (crtc ∷ crtcs) ≡ 0
      → (t : State World) × (u : Screen) × (do_pageflip other a e
            (crtc ∷ crtcs)
            (record s { world = ok v₀ })
          ≡ some (false, record t { world = ok u }))
        × (u.calls ≡ v₀.calls)
        × (u.flips.flipdata e.address
            ≡ some (record (new_flipdata other a e) { flip_count = 2 ^ 32 - 1 }))
  unfolding do_pageflip
  do_pageflip-none_flipped fb crtc crtcs s c memory found slots idle =
      let v : Screen = record v₀ {
        flips = set_flipdata e.address (some (new_flipdata other a e)) v₀.flips;
      } in
      let p : Progress = intact s v in
      let skipped : is_flipped other a e crtc ≡ false = ground arith in
      let (last, runs, has) = none_flipped fb crtcs crtc p (omega arith) slots.1 slots.0 in
      let (t, u, ended, calls, left) = finish_uncounted last s v c (ground arith) has in
      let looped =
        flip_crtcs_on other a e σs v₀ fb crtc crtcs none p p
          (flip_crtc_skipped other a e σs v₀ fb crtc p skipped)
        ∙ runs in
      (t, u, simp (memory, found, looped, ended), calls, left)
