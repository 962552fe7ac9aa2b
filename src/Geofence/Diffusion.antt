-- ===== src/Geofence/Diffusion.antt =====
-- SenSa/geofence/diffusion.py: the radius of a leak by Graham's law.
use sen_sa.Prelude.{◌≡◌, false, Option, none, some, String, arith, if◌then◌else◌}
use sen_sa.Prelude.Float.{FloatOps}
use sen_sa.Prelude.Text.{Casing, str_eq}

module _ (fl : FloatOps) (text : Casing) where
  open fl use {Float, flt, fle, fadd, fsub, fmul, fdiv, fsqrt, lit}

  -- `GAS_MOLAR_MASS`
  unfoldable pub gas_molar_mass : String → Option Float
  gas_molar_mass key =
      if str_eq key "nh3"
      then some (lit 1703 100)
      else if str_eq key "co"
      then some (lit 2801 100)
      else if str_eq key "o2"
      then some (lit 3200 100)
      else if str_eq key "h2s"
      then some (lit 3408 100)
      else if str_eq key "co2"
      then some (lit 4401 100)
      else if str_eq key "no2"
      then some (lit 4601 100)
      else if str_eq key "o3"
      then some (lit 4800 100)
      else if str_eq key "so2"
      then some (lit 6407 100)
      else if str_eq key "voc"
      then some (lit 7811 100)
      else none

  abbrev pub m_air : Float
  m_air = lit 2897 100

  abbrev pub v_base_px_per_sec : Float
  v_base_px_per_sec = lit 2 1

  abbrev pub r_max : Float
  r_max = lit 700 1

  unfoldable pub relative_velocity : (gas_type : String) → Float
  relative_velocity gas_type =
      let mass : Float = elim (gas_molar_mass (text.lower gas_type)) [
        | some m ↦ m
        | none ↦ m_air
      ] in
      fsqrt (fdiv m_air mass)

  -- Python's `min` keeps its first argument unless the second is below it.
  abbrev pub min : Float → Float → Float
  min a b = if flt b a then b else a

  unfoldable pub diffusion_radius : (gas_type : String) (elapsed_sec : Float) → Float
  diffusion_radius gas_type elapsed_sec =
      let elapsed : Float = if flt elapsed_sec (lit 0 1) then lit 0 1 else elapsed_sec in
      min (fmul (fmul v_base_px_per_sec (relative_velocity gas_type)) elapsed) r_max

  -- `none` is `float('inf')`.
  unfoldable pub gas_reach_time : (gas_type : String) (target_distance_px : Float) → Option Float
  gas_reach_time gas_type distance =
      let v : Float = fmul v_base_px_per_sec (relative_velocity gas_type) in
      if fle distance (lit 0 1)
      then some (lit 0 1)
      else if fle v (lit 0 1)
      then none
      else some (fdiv distance v)

  -- No radius is above the cap, if no number is below itself.
  pub diffusion_radius_le :
      (irreflexive : (a : Float) → flt a a ≡ false)
      → (gas_type : String) (elapsed_sec : Float)
      → flt r_max (diffusion_radius gas_type elapsed_sec) ≡ false
  unfolding diffusion_radius
  diffusion_radius_le irreflexive gas_type elapsed_sec = ground (arith, irreflexive r_max)
