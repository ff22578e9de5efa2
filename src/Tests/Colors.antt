-- ===== src/Tests/Colors.antt =====
-- Small tables and values of a client, for the colour properties of src/drmmode_display.c.
use xf86_video_amdgpu.Prelude.{
  ℕ, ◌≡◌, ◌<◌, refl, true, none, some, List, [], ◌∷◌, arith, get_elem?, length, take, suc, zero,
}
use xf86_video_amdgpu.Lut.{lut_interpolate}
use xf86_video_amdgpu.Lut.Samples.{IsLut}
use xf86_video_amdgpu.Lut.Tables.{IsBetween, lut_interpolate-total}
use xf86_video_amdgpu.Color.{
  ctm, gamma_lut, Colors, Value, stage_cm_prop, Shown, cm_property, copy, fits,
}
use xf86_video_amdgpu.Color.Push.{Kernel, Ramps}
use xf86_video_amdgpu.Color.Stage.{IsValue, cm_property-stage_cm_prop, stage_cm_prop-ctm}
use xf86_video_amdgpu.Color.Gamma.{IsRamps}

abbrev ramp : List ℕ
ramp = 0 ∷ 20000 ∷ 65535 ∷ []

ramp-IsLut : IsLut ramp
ramp-IsLut zero v e = ground arith
ramp-IsLut (suc zero) v e = ground arith
ramp-IsLut (suc (suc zero)) v e = ground arith
ramp-IsLut (suc (suc (suc k))) v e = cc

lut_interpolate-total_example :
    (out : List ℕ) × (lut_interpolate ramp 3 5 ≡ some out)
    × (length out ≡ 5)
    × ((i : ℕ) → i < 5 → (y : ℕ) × (get_elem? out i ≡ some y) × IsBetween ramp 2 4 i y)
lut_interpolate-total_example =
    lut_interpolate-total ramp 3 5 refl (omega arith) (omega arith) (omega arith) (omega arith)
      ramp-IsLut

-- Tables of two entries.
abbrev colors : Colors
colors = record {
  degamma_lut_size = 2;
  gamma_lut_size = 2;
  degamma_lut = none;
  ctm = none;
  gamma_lut = none;
}

abbrev table : Value
table = record {
  is_integer = true;
  format = 16;
  size = 8;
  elements = 1 ∷ 2 ∷ 3 ∷ 0 ∷ 4 ∷ 5 ∷ 6 ∷ 0 ∷ [];
}

abbrev matrix : Value
matrix = record {
  is_integer = true;
  format = 32;
  size = 18;
  elements = 1 ∷ 2 ∷ 3 ∷ 4 ∷ 5 ∷ 6 ∷ 7 ∷ 8 ∷ 9 ∷ 1 ∷ 2 ∷ 3 ∷ 4 ∷ 5 ∷ 6 ∷ 7 ∷ 8 ∷ 9 ∷ [];
}

abbrev kernel : Kernel
kernel = record {
  prop_id = λ p. 40;
  gamma_set = true;
  memory = true;
  new_blob = some 77;
  accepts = true;
}

abbrev ramps : Ramps
ramps = record { red = ramp; green = ramp; blue = ramp; gamma_size = 3 }

table-IsValue : IsValue table
table-IsValue = record { counted = refl; in_range = omega arith; several = λ e. omega arith }

ramps-IsRamps : IsRamps ramps
ramps-IsRamps = record {
  size_red = refl;
  size_green = refl;
  size_blue = refl;
  nonempty = omega arith;
  bounded = omega arith;
  is_red = ramp-IsLut;
  is_green = ramp-IsLut;
  is_blue = ramp-IsLut;
}

cm_property-stage_cm_prop_example :
    (w : Shown) × (cm_property gamma_lut (stage_cm_prop true gamma_lut table colors).0 ≡ some w)
    × (w.format ≡ 16)
    × (w.length ≡ 8)
    × (w.elements ≡ table.elements)
unfolding stage_cm_prop copy fits
cm_property-stage_cm_prop_example =
    cm_property-stage_cm_prop true gamma_lut table colors table-IsValue refl

stage_cm_prop-ctm_example :
    (matrix.size ≡ 18)
    × ((stage_cm_prop true ctm matrix colors).0.ctm ≡ some (take 18 matrix.elements))
unfolding stage_cm_prop copy fits
stage_cm_prop-ctm_example = stage_cm_prop-ctm true matrix colors (omega arith) refl
