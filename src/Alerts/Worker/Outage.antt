-- ===== src/Alerts/Worker/Outage.antt =====
-- A worker's evaluation while Redis does not answer.
use mathlib.Core.Path.{ap₂}
use sen_sa.Prelude.{
  ℕ, ◌≡◌, refl, ◌∙◌, ap, map, true, false, none, some, List, [], ◌∷◌, String, arith, if◌then◌else◌,
  Bool-cases, inl, inr,
}
use sen_sa.Prelude.Float.{FloatOps}
use sen_sa.Geofence.Zone.{GeoFence}
use sen_sa.Alerts.Types.{WorkerState, safe, Reason, transition, is_escalation, same_state}
use sen_sa.Alerts.Store.{Redis, worker_default, get_worker_snapshot, commit_state}
use sen_sa.Alerts.World.{World}
use sen_sa.Alerts.Fences.{find_containing_geofences}
use sen_sa.Alerts.Worker.Evaluate.{confirm, verdict, conclude, evaluate_worker}
use sen_sa.Alerts.Worker.Refinement.{said, raise_alarm-redis}
use sen_sa.Alerts.Worker.Hysteresis.{Visit, visit, state_at}
use sen_sa.Alerts.Worker.Slow.{visits}

module _ (r : Redis) (down : r.up ≡ false) (now : ℕ) (id : String) where
  get_worker_snapshot_down : get_worker_snapshot r now id ≡ worker_default
  unfolding get_worker_snapshot
  get_worker_snapshot_down = ground arith

  commit_state_down : (state : WorkerState) → commit_state r now id state true ≡ r
  unfolding commit_state
  commit_state_down state = ground arith

  confirm_down :
      (observed : WorkerState)
      → confirm r now id worker_default observed
        ≡ (r, (if same_state observed safe then none else some observed))
  unfolding confirm is_escalation
  confirm_down observed = ground arith

abbrev pub outage_alarm : WorkerState → List (Reason × WorkerState)
outage_alarm observed = if same_state observed safe then [] else (transition, observed) ∷ []

module _ (fl : FloatOps) (id : String) where
  open fl use {Float}

  module _ (w : World Float) (v : Visit Float) (down : w.redis.up ≡ false) where
    conclude_down :
        (geofences : List (GeoFence Float)) (observed : WorkerState)
        → let (w', created) =
            conclude fl v.configured w v.now id v.name v.x v.y v.worst v.sensors geofences safe (
              verdict v.now worker_default
                (if same_state observed safe then none else some observed)) in
          (w'.redis ≡ w.redis) × (said created ≡ outage_alarm observed)
    unfolding conclude verdict
    conclude_down geofences observed = elim (Bool-cases (same_state observed safe)) [
      | inl is_safe ↦ rw is_safe (refl, refl)
      | inr is_not ↦ rw is_not (
        raise_alarm-redis fl v.configured w v.now id v.name v.x v.y v.worst v.sensors geofences safe
              transition observed
            ∙ commit_state_down w.redis down v.now id observed,
        refl,
      )
    ]

    visit_down :
        ((visit fl id w v).0.redis ≡ w.redis)
        × (said (visit fl id w v).1 ≡ outage_alarm (state_at fl id v))
    unfolding evaluate_worker
    visit_down = rw (get_worker_snapshot_down w.redis down v.now id) (
        rw (confirm_down w.redis down v.now id (state_at fl id v))
          (conclude_down (find_containing_geofences fl v.db v.x v.y) (state_at fl id v)))

  -- While Redis does not answer, every visit that observes a state other than safe raises the alarm
  -- of a transition to it, however many visits there are and however close together, and a visit
  -- that observes safe raises none: nothing holds the alarms back.
  pub evaluate_worker_outage :
      (w : World Float) (vs : List (Visit Float))
      → w.redis.up ≡ false
      → (visits fl id w vs).1 ≡ map (λ (v : Visit Float). outage_alarm (state_at fl id v)) vs
  evaluate_worker_outage w [] down = refl
  evaluate_worker_outage w (v ∷ vs) down =
      ap₂ ◌∷◌ (visit_down w v down).1
        (evaluate_worker_outage (visit fl id w v).0 vs (ap Redis.up (visit_down w v down).0 ∙ down))
