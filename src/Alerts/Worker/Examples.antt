-- ===== src/Alerts/Worker/Examples.antt =====
-- The evaluations of a worker on small inputs.
use sen_sa.Prelude.{ℕ, ◌+◌, ◌<◌, ◌≡◌, refl, true, none, List, [], ◌∷◌, map, arith}
use sen_sa.Prelude.Sample.{naturals}
use sen_sa.Geofence.Polygon.{crosses, point_in_polygon}
use sen_sa.Alerts.Types.{Status, WorkerState, safe, transition, ongoing, ladder, rank}
use sen_sa.Alerts.Store.{get_worker_snapshot, cell_at, hgetall, ttl}
use sen_sa.Alerts.Store.Reads.{Everywhere}
use sen_sa.Alerts.Fences.{holds, find_containing_geofences}
use sen_sa.Alerts.Samples.{square, plant, empty_redis, start, outage, endangered}
use sen_sa.Alerts.Worker.State.{classify_state}
use sen_sa.Alerts.Worker.Evaluate.{evaluate_worker}
use sen_sa.Alerts.Worker.Spec.{watch}
use sen_sa.Alerts.Worker.Refinement.{seen, due, said, evaluate_worker-watch}
use sen_sa.Alerts.Worker.Hysteresis.{Visit, visit, state_at, snapshot, evaluate_worker_recovers}
use sen_sa.Alerts.Worker.Slow.{visits, IsSlow, AllSee, evaluate_worker_slow}
use sen_sa.Alerts.Worker.Outage.{outage_alarm, evaluate_worker_outage}
use sen_sa.Alerts.Worker.Effects.{IsAccounted, evaluate_worker-IsAccounted}
use sen_sa.Alerts.Worker.Invariant.{IsSound, evaluate_worker-IsSound}
use sen_sa.Alerts.Worker.Classification.{worst_of, classify_state_worst}

observed : Unit {0}
unfolding classify_state find_containing_geofences holds point_in_polygon crosses
    mathlib.Core.Bool.xor get_worker_snapshot hgetall cell_at
observed = tt

-- A visit to the danger zone, and one outside every zone.
abbrev inside : ℕ → Visit ℕ
inside now = record {
  configured = true;
  db = plant;
  now = now;
  name = "Kim";
  x = 5;
  y = 5;
  worst = Status.normal;
  sensors = [];
}

abbrev outside : ℕ → Visit ℕ
outside now = record (inside now) { x = 50; y = 50 }

inside_is_danger : (now : ℕ) → state_at naturals "w1" (inside now) ≡ WorkerState.danger
unfolding observed
inside_is_danger now = refl

outside_is_safe : (now : ℕ) → state_at naturals "w1" (outside now) ≡ safe
unfolding observed
outside_is_safe now = refl

rises :
    ladder (snapshot naturals "w1" start 5000000).state
    < ladder (state_at naturals "w1" (inside 5000000))
unfolding observed
rises = omega arith

falls : ladder safe < ladder (snapshot naturals "w1" endangered 110000000).state
unfolding observed
falls = omega arith

idle : (snapshot naturals "w1" endangered 110000000).pending_state ≡ none
unfolding observed
idle = refl

quiet :
    (now : ℕ)
    → now < 160000000
    → now < (snapshot naturals "w1" endangered 110000000).last_alarm_at + 60000000
unfolding observed
quiet now h = omega arith

-- ─── the theorems ───

evaluate_worker-watch_example :
    let (w', created) =
      evaluate_worker naturals true plant start 5000000 "w1" "Kim" 5 5 Status.normal [] in
    let (s', v) =
      watch 5000000
        (get_worker_snapshot empty_redis 5000000 "w1")
        (seen naturals plant 5 5 Status.normal) in
    (get_worker_snapshot w'.redis 9000000 "w1" ≡ s') × (said created ≡ due v) × (w'.redis.up ≡ true)
unfolding observed
evaluate_worker-watch_example =
    evaluate_worker-watch naturals true plant start 5000000 "w1" "Kim" 5 5 Status.normal [] 9000000
      refl (omega arith) refl

evaluate_worker_recovers_example :
    let (w1, first) = visit naturals "w1" endangered (outside 110000000) in
    let (w2, second) = visit naturals "w1" w1 (outside 120000000) in
    let (w3, third) = visit naturals "w1" w2 (outside 130000000) in
    (said first ≡ [])
    × (said second ≡ [])
    × (said third ≡ (transition, safe) ∷ [])
    × ((snapshot naturals "w1" w1 120000000).state
        ≡ (snapshot naturals "w1" endangered 110000000).state)
    × ((snapshot naturals "w1" w2 130000000).state
        ≡ (snapshot naturals "w1" endangered 110000000).state)
    × ((snapshot naturals "w1" w3 140000000).state ≡ safe)
evaluate_worker_recovers_example =
    evaluate_worker_recovers naturals "w1" endangered (outside 110000000) (outside 120000000)
      (outside 130000000) safe 140000000 refl idle falls
      (outside_is_safe 110000000, outside_is_safe 120000000, outside_is_safe 130000000)
      (quiet 110000000 (omega arith), quiet 120000000 (omega arith))
      (omega arith, omega arith, omega arith)

abbrev slow_visits : List (Visit ℕ)
slow_visits = outside 170000000 ∷ outside 230000000 ∷ outside 300000000 ∷ []

slow_visits-IsSlow : IsSlow naturals "w1" 100000000 slow_visits
slow_visits-IsSlow = ground arith

slow_visits-AllSee : AllSee naturals "w1" safe slow_visits
slow_visits-AllSee =
    (outside_is_safe 170000000, (outside_is_safe 230000000, (outside_is_safe 300000000, tt)))

lives_on :
    (now : ℕ)
    → now < 100000000 + ttl
    → snapshot naturals "w1" endangered now ≡ record {
      state = WorkerState.danger;
      last_alarm_at = 100000000;
      pending_state = none;
      pending_count = 0;
    }
unfolding observed
lives_on now h = ground arith

evaluate_worker_slow_example :
    (visits naturals "w1" endangered slow_visits).1
    ≡ map (λ (v : Visit ℕ). (ongoing, WorkerState.danger) ∷ []) slow_visits
evaluate_worker_slow_example =
    evaluate_worker_slow naturals "w1" endangered WorkerState.danger safe 100000000 slow_visits refl
      (omega arith) slow_visits-IsSlow slow_visits-AllSee lives_on

evaluate_worker_outage_example :
    (visits naturals "w1" outage (inside 1000000 ∷ inside 2000000 ∷ outside 3000000 ∷ [])).1
    ≡ map
        (λ (v : Visit ℕ). outage_alarm (state_at naturals "w1" v))
        (inside 1000000 ∷ inside 2000000 ∷ outside 3000000 ∷ [])
evaluate_worker_outage_example =
    evaluate_worker_outage naturals "w1" outage
      (inside 1000000 ∷ inside 2000000 ∷ outside 3000000 ∷ []) refl

evaluate_worker-IsAccounted_example :
    IsAccounted true start 5000000 5 5
      (evaluate_worker naturals true plant start 5000000 "w1" "Kim" 5 5 Status.normal [])
evaluate_worker-IsAccounted_example =
    evaluate_worker-IsAccounted naturals true plant start 5000000 "w1" "Kim" 5 5 Status.normal []

start-IsSound : Everywhere IsSound empty_redis
unfolding observed
start-IsSound t id = refl

evaluate_worker-IsSound_example :
    Everywhere IsSound
      (evaluate_worker naturals true plant start 5000000 "w1" "Kim" 5 5 Status.normal []).0.redis
evaluate_worker-IsSound_example =
    evaluate_worker-IsSound naturals true plant start 5000000 "w1" "Kim" 5 5 Status.normal []
      start-IsSound

classify_state_worst_example :
    ladder (classify_state (square ∷ []) Status.caution)
    ≡ worst_of (rank Status.caution) (square ∷ [])
classify_state_worst_example = classify_state_worst (square ∷ []) Status.caution
