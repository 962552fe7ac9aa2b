-- ===== src/Generator/Scenario/Examples.antt =====
-- A day of the scenario controller.
use sen_sa.Prelude.{ℕ, ◌≡◌, refl, inr, true, false, none, some, List, [], ◌∷◌, arith}
use sen_sa.Generator.Scenario.{gas, scenario_device, Toggle, Toggles, put}
use sen_sa.Generator.Scenario.Phases.{Request, AllPhased, serve_all, serve_all-AllPhased}
use sen_sa.Generator.Scenario.Ramp.{IsClimbing, IsPaced, poll_all, poll_all-IsPaced}

-- Switched on at second 1.
abbrev begun : Toggle
begun = record { on = true; current_phase = 1; phase_started_at = 1000000 }

abbrev leak : Toggles
leak = put (λ _. none) "sensor_01" begun

sensor_01_is_mapped : scenario_device "sensor_01" ≡ some ("G3", gas)
unfolding scenario_device
sensor_01_is_mapped = refl

abbrev polls : List ℕ
polls = 5000000 ∷ 31000000 ∷ 62000000 ∷ 95000000 ∷ 130000000 ∷ []

poll_all-IsPaced_example :
    (t : Toggle) × (poll_all leak "sensor_01" polls "sensor_01" ≡ some t)
    × IsClimbing gas 130000000 t
    × IsPaced gas begun t
poll_all-IsPaced_example =
    poll_all-IsPaced leak "sensor_01" "G3" gas begun 1000000 polls sensor_01_is_mapped refl
      (refl, omega arith, omega arith, inr (omega arith)) (ground arith)

abbrev day : List (ℕ × Request)
day =
    (1000000, Request.set "sensor_01" true)
    ∷ (31000000, Request.poll "sensor_01")
    ∷ (40000000, Request.set "sensor_01" false)
    ∷ (50000000, Request.clear)
    ∷ []

serve_all-AllPhased_example : AllPhased (serve_all (λ _. none) day)
serve_all-AllPhased_example = serve_all-AllPhased day
