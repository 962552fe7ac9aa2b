-- ===== src/Alerts/Worker/Effects.antt =====
-- What an evaluation leaves behind beside the worker's state: rows, broadcasts, notifications.
use sen_sa.Prelude.{
  ℕ, ◌+◌, ◌≤◌, ◌≡◌, map, Bool, false, ◌&&◌, Option, none, some, List, [], ◌∷◌, ◌++◌, String, arith,
  if◌then◌else◌, length, take,
}
use sen_sa.Prelude.Float.{FloatOps}
use sen_sa.Geofence.Zone.{GeoFence}
use sen_sa.Alerts.Types.{Status, WorkerState, Reason, transition, ongoing, is_escalation}
use sen_sa.Alerts.Store.{get_worker_snapshot}
use sen_sa.Alerts.World.{World, Alarm, WorkerPayload, of_worker, Notice}
use sen_sa.Alerts.Fences.{Db, find_containing_geofences}
use sen_sa.Alerts.Worker.Message.{state_text}
use sen_sa.Alerts.Worker.Refinement.{seen}
use sen_sa.Alerts.Worker.Evaluate.{
  confirm, verdict, is_transition, conclude, raise_alarm, evaluate_worker, is_danger_or_critical,
}

-- The row that belongs to a payload: it says what the payload says, at the instant and the place of
-- the evaluation, of no device, unread, and not by a detector.
abbrev pub row_of : {F : Type 0} → (now : ℕ) (x y : F) → WorkerPayload → Alarm F
row_of now x y p = record {
  id = p.alarm_id;
  alarm_type = p.alarm_type;
  alarm_level = p.alarm_level;
  worker_id = p.worker_id;
  worker_name = p.worker_name;
  position = some (x, y);
  geofence = p.geofence_id;
  device_id = "";
  sensor_type = "";
  message = p.message;
  is_read = false;
  is_ai = false;
  created_at = now;
}

-- A transition to danger or critical from a better state.
abbrev pub notifies : WorkerPayload → Bool
notifies p = is_danger_or_critical p.state_to && is_escalation p.state_from p.state_to

-- The severities that go out: one for each such payload where a webhook is configured.
abbrev pub severities : (configured : Bool) → List WorkerPayload → List String
severities configured [] = []
severities configured (p ∷ ps) =
    let rest = severities configured ps in
    if configured && is_transition p.reason && notifies p
    then state_text p.state_to ∷ rest
    else rest

-- An evaluation's outcome accounts for what it leaves in the world: each payload has its row, which
-- agrees with it in all that both hold, and its broadcast, the row has the next free number, at most one alarm is raised, and the external
-- notifications are those of the transitions to danger or critical from a better state.
pub record IsAccounted {F : Type 0} (configured : Bool) (w : World F) (now : ℕ) (x y : F)
    (out : World F × List WorkerPayload) : Type 0 where
  pub rows : out.0.alarms ≡ map (row_of now x y) out.1 ++ w.alarms
  pub numbers : map (λ (p : WorkerPayload). p.alarm_id) out.1 ≡ take (length out.1) (w.next_id ∷ [])
  pub broadcasts : out.0.published ≡ map of_worker out.1 ++ w.published
  pub ids : out.0.next_id ≡ length out.1 + w.next_id
  pub at_most_one : length out.1 ≤ 1
  pub notices :
      map (λ (n : Notice). n.severity) out.0.queued
      ≡ severities configured out.1 ++ map (λ (n : Notice). n.severity) w.queued

module _ (fl : FloatOps) where
  open fl use {Float}

  module _ (configured : Bool) (w : World Float) (now : ℕ) (id name : String) (x y : Float)
      (worst : Status) (sensors : List (String × Status)) where
    conclude-IsAccounted :
        (geofences : List (GeoFence Float)) (official : WorkerState)
        (v : Option (Reason × WorkerState))
        → IsAccounted configured w now x y
            (conclude fl configured w now id name x y worst sensors geofences official v)
    unfolding conclude raise_alarm
    conclude-IsAccounted geofences official none = ground arith
    conclude-IsAccounted geofences official (some (transition, target)) = ground arith
    conclude-IsAccounted geofences official (some (ongoing, target)) = ground arith

  -- An evaluation adds at most one alarm, with its row, its broadcast and a row number of its own
  -- for the payload it returns, and puts an external notification on the queue exactly if a webhook
  -- is configured and the alarm is a transition to danger or critical from a better state.
  pub evaluate_worker-IsAccounted :
      (configured : Bool) (db : Db Float) (w : World Float) (now : ℕ) (id name : String)
      (x y : Float) (worst : Status) (sensors : List (String × Status))
      → IsAccounted configured w now x y
          (evaluate_worker fl configured db w now id name x y worst sensors)
  unfolding evaluate_worker
  evaluate_worker-IsAccounted configured db w now id name x y worst sensors =
      let snap = get_worker_snapshot w.redis now id in
      let c = confirm w.redis now id snap (seen fl db x y worst) in
      let h =
        conclude-IsAccounted configured (record w { redis = c.0 }) now id name x y worst sensors
          (find_containing_geofences fl db x y) snap.state (verdict now snap c.1) in
      record {
        rows = h.rows;
        numbers = h.numbers;
        broadcasts = h.broadcasts;
        ids = h.ids;
        at_most_one = h.at_most_one;
        notices = h.notices;
      }
