-- ===== src/Alerts/Sensor/Examples.antt =====
-- The evaluations of a sensor on small inputs.
use sen_sa.Prelude.{ℕ, ◌≡◌, refl, true, false, List, [], ◌∷◌, map, arith, All, inr}
use sen_sa.Prelude.Sample.{naturals}
use sen_sa.Alerts.Types.{Status, transition, ongoing, parse_status, is_sensor_escalation}
use sen_sa.Alerts.Store.{get_sensor_snapshot, cell_at, hgetall}
use sen_sa.Alerts.Samples.{plant, start, leaking, calm, watched}
use sen_sa.Alerts.Sensor.Evaluate.{
  confirm, clear_if_confirmed, verdict, raise_alarm, conclude, evaluate_status, evaluate_sensor,
}
use sen_sa.Alerts.Sensor.Spec.{watch}
use sen_sa.Alerts.Sensor.Refinement.{said, due, evaluate_status-watch}
use sen_sa.Alerts.Sensor.Escalation.{
  Arrival, reading, arrive, arrivals, IsKnown, IsMild, evaluate_sensor_fifth_danger,
}
use sen_sa.Alerts.Sensor.Windows.{IsBounded}

stored : Unit {0}
unfolding get_sensor_snapshot hgetall cell_at
stored = tt

abbrev arrival : ℕ → Status → Arrival ℕ
arrival now observed = record {
  db = plant;
  now = now;
  sensor_type = "gas";
  observed = observed;
  detail = "CO 210ppm";
  is_ai = false;
  ai_detail = "";
}

start_steady :
    get_sensor_snapshot start.redis 6000000 "sensor_01"
    ≡ get_sensor_snapshot start.redis 5000000 "sensor_01"
unfolding stored
start_steady = refl

evaluate_status-watch_example :
    let r = reading "sensor_01" (arrival 5000000 Status.danger) in
    let (w', created) = evaluate_status naturals plant start 5000000 r Status.danger in
    let (s', v) =
      watch 5000000 (get_sensor_snapshot start.redis 5000000 "sensor_01") Status.danger in
    (get_sensor_snapshot w'.redis 6000000 "sensor_01" ≡ s')
    × (said created ≡ due v)
    × (w'.redis.up ≡ true)
evaluate_status-watch_example =
    evaluate_status-watch naturals plant start 5000000 6000000
      (reading "sensor_01" (arrival 5000000 Status.danger)) Status.danger refl (omega arith)
      start_steady

abbrev between : List (Arrival ℕ)
between =
    arrival 2000000 Status.danger
    ∷ arrival 3000000 Status.normal
    ∷ arrival 4000000 Status.danger
    ∷ arrival 5000000 Status.danger
    ∷ []

watched-IsKnown : IsKnown naturals "sensor_01" calm 11000000 watched
unfolding stored
watched-IsKnown = (refl, λ t h. ground arith)

between-IsMild : All (IsMild naturals "sensor_01" 1000000) between
between-IsMild = ground arith

evaluate_sensor_fifth_danger_example :
    let (w1, first) = arrive naturals "sensor_01" watched (arrival 1000000 Status.danger) in
    let (w2, later) = arrivals naturals "sensor_01" w1 between in
    (said first ≡ [])
    × (later ≡ map (λ _. []) between)
    × (said (arrive naturals "sensor_01" w2 (arrival 6000000 Status.danger)).1
        ≡ (transition, Status.danger) ∷ [])
evaluate_sensor_fifth_danger_example =
    evaluate_sensor_fifth_danger naturals "sensor_01" watched (arrival 1000000 Status.danger)
      (arrival 6000000 Status.danger) between calm (omega arith) watched-IsKnown (refl, refl) refl
      between-IsMild refl (omega arith, omega arith, inr refl) refl

leaking_steady :
    get_sensor_snapshot leaking.redis 170000000 "sensor_01"
    ≡ get_sensor_snapshot leaking.redis 165000000 "sensor_01"
unfolding stored
leaking_steady = refl

leaking-IsBounded : IsBounded (get_sensor_snapshot leaking.redis 165000000 "sensor_01")
unfolding stored
leaking-IsBounded = ground arith

is_in_danger : Status.danger ≡ (get_sensor_snapshot leaking.redis 165000000 "sensor_01").state
unfolding stored
is_in_danger = refl

-- A sensor in danger that observes danger again past the interval repeats its alarm.
repeats :
    said (arrive naturals "sensor_01" leaking (arrival 165000000 Status.danger)).1
    ≡ (ongoing, Status.danger) ∷ []
unfolding stored evaluate_sensor evaluate_status parse_status confirm clear_if_confirmed verdict
    raise_alarm conclude is_sensor_escalation
repeats = refl
