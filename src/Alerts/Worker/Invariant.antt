-- ===== src/Alerts/Worker/Invariant.antt =====
-- What holds of every worker's snapshot in the store between two evaluations.
use sen_sa.Prelude.{
  ℕ, ◌+◌, ◌≤◌, ◌<◌, ◌≡◌, refl, Bool, true, false, Option, none, some, List, String, arith, if_cases,
  ltb, leb,
}
use sen_sa.Prelude.Float.{FloatOps}
use sen_sa.Geofence.Zone.{GeoFence}
use sen_sa.Alerts.Types.{Status, WorkerState, Reason, ladder, same_state, is_escalation}
use sen_sa.Alerts.Common.{recovery_confirm_ticks}
use sen_sa.Alerts.Store.{Redis, WorkerSnapshot, get_worker_snapshot}
use sen_sa.Alerts.Store.Reads.{
  Everywhere, Everywhere-commit_state, Everywhere-set_pending, Everywhere-clear_pending,
}
use sen_sa.Alerts.World.{World}
use sen_sa.Alerts.Fences.{Db, find_containing_geofences}
use sen_sa.Alerts.Worker.Evaluate.{confirm, verdict, conclude, evaluate_worker, is_some, is_pending}
use sen_sa.Alerts.Worker.Refinement.{seen, raise_alarm-redis}

-- A recovery under way leads to a better state and has not been seen often enough; without one the
-- counter is 0.
abbrev pub IsUnderWay : WorkerState → Option WorkerState → ℕ → Type 0
IsUnderWay state none count = count ≡ 0
IsUnderWay state (some target) count =
    (ladder target < ladder state) × (1 ≤ count) × (count < recovery_confirm_ticks)

abbrev pub IsSound : WorkerSnapshot → Type 0
IsSound s = IsUnderWay s.state s.pending_state s.pending_count

-- The facts about one snapshot that the writes need.
next_count :
    (s : WorkerSnapshot) (observed : WorkerState)
    → same_state observed s.state ≡ false
    → is_escalation s.state observed ≡ false
    → ltb (s.pending_count + 1) recovery_confirm_ticks ≡ true
    → IsUnderWay s.state (some observed) (s.pending_count + 1)
unfolding is_escalation
next_count s observed differs falls few = ground arith

first_count :
    (s : WorkerSnapshot) (observed : WorkerState)
    → same_state observed s.state ≡ false
    → is_escalation s.state observed ≡ false
    → IsUnderWay s.state (some observed) 1
unfolding is_escalation
first_count s observed differs falls = ground arith

confirm-IsSound :
    (r : Redis) (now : ℕ) (id : String) (observed : WorkerState)
    → Everywhere IsSound r
    → Everywhere IsSound (confirm r now id (get_worker_snapshot r now id) observed).0
unfolding confirm
confirm-IsSound r now id observed every =
    let s = get_worker_snapshot r now id in
    let P : Redis × Option WorkerState → Type 0 = λ c. Everywhere IsSound c.0 in
    if_cases P (same_state observed s.state)
      (λ _.
        if_cases (Everywhere IsSound) (is_some s.pending_state)
          (λ _. Everywhere-clear_pending IsSound r now id refl every refl) (λ _. every))
      (λ differs.
        if_cases P (is_escalation s.state observed) (λ _. every)
          (λ falls.
            if_cases P (is_pending s.pending_state observed)
              (λ _.
                if_cases P (leb recovery_confirm_ticks (s.pending_count + 1)) (λ _. every)
                  (λ few.
                    Everywhere-set_pending IsSound r now id observed (s.pending_count + 1) refl
                      every (next_count s observed differs falls (ground arith))))
              (λ _.
                Everywhere-set_pending IsSound r now id observed 1 refl every
                  (first_count s observed differs falls))))

module _ (fl : FloatOps) where
  open fl use {Float}

  conclude-IsSound :
      (configured : Bool) (w : World Float) (now : ℕ) (id name : String) (x y : Float)
      (worst : Status) (sensors : List (String × Status)) (geofences : List (GeoFence Float))
      (official : WorkerState) (v : Option (Reason × WorkerState))
      → Everywhere IsSound w.redis
      → Everywhere IsSound
          (conclude fl configured w now id name x y worst sensors geofences official v).0.redis
  unfolding conclude
  conclude-IsSound configured w now id name x y worst sensors geofences official none every = every
  conclude-IsSound configured w now id name x y worst sensors geofences official
        (some (reason, target)) every =
      rw
        (raise_alarm-redis fl configured w now id name x y worst sensors geofences official reason
          target)
        (Everywhere-commit_state IsSound w.redis now id target refl every refl)

  -- Whether Redis answers during the call or not, an evaluation keeps the stored snapshots of all
  -- workers sound, as a reader finds them at any instant at which Redis answers.
  pub evaluate_worker-IsSound :
      (configured : Bool) (db : Db Float) (w : World Float) (now : ℕ) (id name : String)
      (x y : Float) (worst : Status) (sensors : List (String × Status))
      → Everywhere IsSound w.redis
      → Everywhere IsSound
          (evaluate_worker fl configured db w now id name x y worst sensors).0.redis
  unfolding evaluate_worker
  evaluate_worker-IsSound configured db w now id name x y worst sensors every =
      let snap = get_worker_snapshot w.redis now id in
      let c = confirm w.redis now id snap (seen fl db x y worst) in
      conclude-IsSound configured (record w { redis = c.0 }) now id name x y worst sensors
        (find_containing_geofences fl db x y) snap.state (verdict now snap c.1)
        (confirm-IsSound w.redis now id (seen fl db x y worst) every)
