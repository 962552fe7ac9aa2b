-- ===== src/Alerts/Classify/Examples.antt =====
-- Readings of a gas sensor and of a power sensor, over the naturals.
use sen_sa.Prelude.{
  ℕ, zero, suc, ◌<◌, ◌≤◌, ◌≡◌, refl, true, Option, none, some, List, [], ◌∷◌, String, arith, length,
}
use sen_sa.Prelude.Sample.{naturals}
use sen_sa.Alerts.Types.{Status, rank}
use sen_sa.Alerts.Classify.{
  WattRow, PowerReading, power_min_samples, watts, gas_step, gas_thresholds, classify_gas_from,
  classify_gas, is_usable_avg,
}
use sen_sa.Alerts.Classify.Worst.{worst_severity, classify_gas_worst}
use sen_sa.Alerts.Classify.Power.{samples}

-- Hydrogen sulphide at its upper threshold, after an unknown gas and one without a value.
abbrev gas : List (String × Option ℕ)
gas = ("h2", some 400) ∷ ("co", none) ∷ ("nh3", some 30) ∷ ("h2s", some 50) ∷ []

gas_is_danger : classify_gas naturals gas ≡ Status.danger
unfolding classify_gas classify_gas_from gas_step gas_thresholds
gas_is_danger = refl

classify_gas_worst_example : rank (classify_gas naturals gas) ≡ worst_severity naturals gas
classify_gas_worst_example = classify_gas_worst naturals gas

abbrev rows : ℕ → List (WattRow ℕ)
rows zero = []
rows (suc n) =
    let rest = rows n in record { device_id = "power_01"; timestamp = n; watt = some 2200 } ∷ rest

abbrev first_or_zero : List ℕ → ℕ
first_or_zero [] = 0
first_or_zero (x ∷ xs) = x

abbrev overload : PowerReading ℕ
overload = record { watt = 2300; voltage = 220; current = 90 }

few : length (samples naturals (rows 3) 200 "power_01") < power_min_samples
unfolding watts
few = ground arith

many : power_min_samples ≤ length (samples naturals (rows 180) 200 "power_01")
unfolding watts
many = ground arith

usable : is_usable_avg naturals (first_or_zero (samples naturals (rows 180) 200 "power_01")) ≡ true
unfolding watts
usable = refl
