-- ===== src/Backoffice/Dispatch/Routing.antt =====
-- Which policies the alarms of the workers reach.
use sen_sa.Prelude.{
  ℕ, ◌≡◌, refl, Bool, ◌&&◌, Option, none, some, List, [], ◌++◌, String, arith, leb, take, All,
}
use sen_sa.Prelude.Text.{str_eq}
use sen_sa.Prelude.Float.{FloatOps}
use sen_sa.Alerts.Types.{Status, WorkerState, Reason}
use sen_sa.Alerts.World.{Alarm, World}
use sen_sa.Alerts.Fences.{Db, find_containing_geofences}
use sen_sa.Alerts.Store.{get_worker_snapshot}
use sen_sa.Alerts.Worker.Refinement.{seen}
use sen_sa.Geofence.Zone.{GeoFence}
use sen_sa.Alerts.Worker.State.{transition_to_type_and_level}
use sen_sa.Alerts.Worker.Evaluate.{raise_alarm, confirm, verdict, conclude, evaluate_worker}
use sen_sa.Backoffice.Dispatch.Tables.{Policy}
use sen_sa.Backoffice.Dispatch.{risk_code_of, resolve_risk_category, level_priority, applies}

-- A policy applies to the alarm exactly if it is active, for the common risk, and not above the
-- priority of the alarm's level.
abbrev pub IsCommon : {F : Type 0} → Policy → Alarm F → Type 0
IsCommon policy alarm = applies alarm policy ≡ (
    policy.is_active
    && str_eq policy.risk_code "RISK_COMMON"
    && leb policy.priority (level_priority alarm.alarm_level))

-- The alarms that stand after a call are those from before it and others, all of which are common.
abbrev pub AddsCommon : {F : Type 0} → Policy → (before after : List (Alarm F)) → Type 0
AddsCommon {F} policy before after =
    (new : List (Alarm F)) × (after ≡ new ++ before) × All (IsCommon policy) new

transition_is_common :
    (prev curr : WorkerState)
    → risk_code_of (transition_to_type_and_level prev curr).0 ≡ "RISK_COMMON"
unfolding risk_code_of transition_to_type_and_level
transition_is_common prev curr = ground arith

module _ (fl : FloatOps) where
  open fl use {Float}

  module _ (configured : Bool) (w : World Float) (now : ℕ) (id name : String) (x y : Float)
      (worst : Status) (sensors : List (String × Status)) (geofences : List (GeoFence Float))
      (official : WorkerState) (policy : Policy) where
    raise_alarm-AddsCommon :
        (reason : Reason) (target : WorkerState)
        → AddsCommon policy w.alarms
            (raise_alarm fl configured w now id name x y worst sensors geofences official
              (reason, target)).0.alarms
    unfolding raise_alarm applies resolve_risk_category
    raise_alarm-AddsCommon reason target =
        let common = transition_is_common official target in
        let after =
          (raise_alarm fl configured w now id name x y worst sensors geofences official
            (reason, target)).0.alarms in
        (take 1 after, ground arith, ground (arith, common))

    conclude-AddsCommon :
        (v : Option (Reason × WorkerState))
        → AddsCommon policy w.alarms
            (conclude fl configured w now id name x y worst sensors geofences official v).0.alarms
    unfolding conclude
    conclude-AddsCommon none = ([], refl, tt)
    conclude-AddsCommon (some (reason, target)) = raise_alarm-AddsCommon reason target

  -- To every alarm that the evaluation of a worker adds, a policy applies exactly if it is active,
  -- for the common risk, and not above the priority of the alarm's level: no policy for the location
  -- or the gas is ever reached, whatever the zones and the states are.
  pub evaluate_worker_routes :
      (policy : Policy) (configured : Bool) (db : Db Float) (w : World Float) (now : ℕ)
      (id name : String) (x y : Float) (worst : Status) (sensors : List (String × Status))
      → AddsCommon policy w.alarms
          (evaluate_worker fl configured db w now id name x y worst sensors).0.alarms
  unfolding evaluate_worker
  evaluate_worker_routes policy configured db w now id name x y worst sensors =
      let snap = get_worker_snapshot w.redis now id in
      let c = confirm w.redis now id snap (seen fl db x y worst) in
      conclude-AddsCommon configured (record w { redis = c.0 }) now id name x y worst sensors
        (find_containing_geofences fl db x y) snap.state policy (verdict now snap c.1)
