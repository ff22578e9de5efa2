-- ===== src/Tests/Presents.antt =====
-- Flips and unflips of the Present extension on two CRTCs, for src/amdgpu_present.c.
use xf86_video_amdgpu.Prelude.{◌≡◌, refl, true, false, none, some, [], ◌∷◌, ◌==◌, arith}
use xf86_video_amdgpu.Present.{Crtc, Server, Query, Grant, Flipped, flip, unflip, submission_of}
use xf86_video_amdgpu.Present.Flips.{IsPresented, flip-IsPresented, unflip-IsPresented}
use xf86_video_amdgpu.Tests.Submits.{
  slots, screen, idle, idle-IsValid, other, setting, shown-IsCounted, crtc_0-IsReady,
  crtc_1-IsReady, front,
}

abbrev pub lit : Crtc
lit = record {
  enabled = true;
  dpms_on = true;
  rotate = false;
  tear_free = false;
  has_scanout = λ i. false;
  scanout_id = 0;
  need_modeset = false;
  vrr_enabled = false;
}

abbrev pub server : Server
server = record {
  crtcs = 0 ∷ 1 ∷ [];
  crtc = λ c. record lit { tear_free = c == 0 };
  vt_sema = true;
  allow_page_flip = true;
  sprites_visible = 0;
  dri2_flipping = false;
  present_flipping = false;
  flip_window = some 8;
  fb_failed = λ p. none;
  events = λ v. none;
  effects = [];
}

abbrev query : Query
query = record {
  crtc = 0;
  window = some 8;
  pixmap = 2;
  fb = some 2;
  makes_private = true;
  dc_enabled = true;
  version_minor = 40;
  pitch = 256;
  screen_pitch = 512;
  tiling = 1;
  screen_tiling = 2;
}

abbrev grant : Grant
grant = record {
  memory = true;
  event = 5;
  client = 7;
  vrr_support = true;
  vrr_window = λ w. true;
  vrr_property = true;
  vrr_accepts = λ c. true;
  async_capable = false;
  async_secondaries = false;
  has_page_flip_target = true;
  setting = setting;
}

flip-IsPresented_example :
    (r : Flipped) × (flip other grant 1 100 true query server idle ≡ some r)
    × IsPresented other grant slots screen
        (submission_of grant 1 (some 0) false 100 (some 2))
        idle
        server
        r
flip-IsPresented_example =
    flip-IsPresented other grant slots screen 1 100 true query server idle shown-IsCounted
      (refl, refl, idle-IsValid) (crtc_0-IsReady, (crtc_1-IsReady, tt)) front (omega arith)
      (omega arith) refl

unflip-IsPresented_example :
    (r : Flipped) × (unflip other grant 1 (some 2) server idle ≡ some r)
    × IsPresented other grant slots screen
        (submission_of grant 1 none false 0 (some 2))
        idle
        server
        r
    × (r.result ≡ false → r.server.present_flipping ≡ false)
unflip-IsPresented_example =
    unflip-IsPresented other grant slots screen 1 (some 2) server idle shown-IsCounted
      (refl, refl, idle-IsValid) (crtc_0-IsReady, (crtc_1-IsReady, tt)) front (omega arith)
      (omega arith)
