-- ===== src/Alerts/Classify/Worst.antt =====
-- `classify_gas` against the status of each gas by itself.
use Prim.Native.Nat.{max}
use sen_sa.Prelude.{
  ℕ, ◌≡◌, ap, ◌||◌, Option, none, some, List, [], ◌∷◌, String, arith, ◌≤◌, Option-cases, inl, inr,
  if◌then◌else◌,
}
use sen_sa.Prelude.Float.{FloatOps}
use sen_sa.Prelude.Text.{str_eq}
use sen_sa.Alerts.Types.{Status, rank}
use sen_sa.Alerts.Classify.{gas_thresholds, gas_step, classify_gas_from, classify_gas}

module _ (fl : FloatOps) where
  open fl use {Float, flt, fle, lit}

  -- How severe one gas is by itself: oxygen outside its inner or outer range, another gas at or
  -- above its thresholds, and nothing for a gas without a value or without thresholds.
  abbrev pub severity : String → Option Float → ℕ
  severity key none = 0
  severity key (some v) =
      if str_eq key "o2"
      then (if flt v (lit 16 1) || fle (lit 235 10) v
          then 2
          else if flt v (lit 18 1) || flt (lit 215 10) v
          then 1
          else 0)
      else elim (gas_thresholds fl key) [
        | none ↦ 0
        | some (caution, danger) ↦ if fle danger v then 2 else if fle caution v then 1 else 0
      ]

  abbrev pub worst_severity : List (String × Option Float) → ℕ
  worst_severity [] = 0
  worst_severity ((key, value) ∷ rest) = max (severity key value) (worst_severity rest)

  abbrev step_rank : Option Status → ℕ
  step_rank none = 2
  step_rank (some st) = rank st

  -- The loop goes on with normal or caution only.
  gas_step-severity :
      (worst : Status) (key : String) (value : Option Float)
      → rank worst ≤ 1
      → step_rank (gas_step fl worst key value) ≡ max (rank worst) (severity key value)
  unfolding gas_step
  gas_step-severity worst key none low = ground arith
  gas_step-severity worst key (some v) low = ground arith

  gas_step_low :
      (worst next : Status) (key : String) (value : Option Float)
      → rank worst ≤ 1
      → gas_step fl worst key value ≡ some next
      → rank next ≤ 1
  unfolding gas_step
  gas_step_low worst next key none low h = ground arith
  gas_step_low worst next key (some v) low h = ground arith

  worst_severity_bounded : (gas : List (String × Option Float)) → worst_severity gas ≤ 2
  worst_severity_bounded [] = omega arith
  worst_severity_bounded ((key, none) ∷ rest) = ground (arith, worst_severity_bounded rest)
  worst_severity_bounded ((key, some v) ∷ rest) = ground (arith, worst_severity_bounded rest)

  classify_gas_from_worst :
      (worst : Status) (gas : List (String × Option Float))
      → rank worst ≤ 1
      → rank (classify_gas_from fl worst gas) ≡ max (rank worst) (worst_severity gas)
  unfolding classify_gas_from
  classify_gas_from_worst worst [] low = ground arith
  classify_gas_from_worst worst ((key, value) ∷ rest) low =
      elim (Option-cases (gas_step fl worst key value)) [
        | inl ends ↦
            rw (ends, classify_gas_from)
              (omega (
                arith,
                ap step_rank ends,
                gas_step-severity worst key value low,
                worst_severity_bounded rest,
                worst_severity_bounded ((key, value) ∷ rest),
              ))
        | inr (next, goes_on) ↦
            rw (goes_on, classify_gas_from)
              (omega (
                arith,
                ap step_rank goes_on,
                gas_step-severity worst key value low,
                classify_gas_from_worst next rest (gas_step_low worst next key value low goes_on),
              ))
      ]

  -- The status of a gas reading is that of its worst gas, whatever the order of the gases and
  -- wherever the loop stops.
  pub classify_gas_worst :
      (gas : List (String × Option Float)) → rank (classify_gas fl gas) ≡ worst_severity gas
  unfolding classify_gas
  classify_gas_worst gas = omega (arith, classify_gas_from_worst Status.normal gas (omega arith))
