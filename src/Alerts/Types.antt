-- ===== src/Alerts/Types.antt =====
-- The enumerations of SenSa/alerts: the states of a worker and of a sensor, what an alarm says.
use sen_sa.Prelude.{ℕ, Bool, true, false, ltb, Option, none, some, String, if◌then◌else◌}
use sen_sa.Prelude.Text.{str_eq}

-- The status of a sensor, of one reading and of the sensors near a worker.
pub data Status : Type 0 where
  normal caution danger : Status

-- The state of a worker.
pub data WorkerState : Type 0 where
  safe caution danger critical : WorkerState

-- `ALARM_LEVEL_CHOICES`
pub data Level : Type 0 where
  info caution danger critical : Level

-- `ALARM_TYPE_CHOICES` (the first five) and the texts that the evaluators write beside them.
pub data AlarmType : Type 0 where
  geofence_enter sensor_caution sensor_danger combined ai_prediction : AlarmType
  sensor_recover_partial sensor_recover_normal : AlarmType
  state_caution_enter state_danger_enter state_escalate state_ongoing : AlarmType
  state_recover_partial state_recover_safe : AlarmType

pub data Reason : Type 0 where
  transition ongoing : Reason

-- The text `observed_status` of a request as a status: `none` if it is no status's name.
unfoldable pub parse_status : String → Option Status
parse_status s =
    if str_eq s "normal"
    then some Status.normal
    else if str_eq s "caution"
    then some Status.caution
    else if str_eq s "danger"
    then some Status.danger
    else none

-- `_STATE_RANK` and the `ladder` of `_is_sensor_escalation`
abbrev pub rank : Status → ℕ
rank Status.normal = 0
rank Status.caution = 1
rank Status.danger = 2

-- the `ladder` of `_is_escalation`
abbrev pub ladder : WorkerState → ℕ
ladder safe = 0
ladder WorkerState.caution = 1
ladder WorkerState.danger = 2
ladder WorkerState.critical = 3

abbrev pub same_status : Status → Status → Bool
same_status Status.normal Status.normal = true
same_status Status.caution Status.caution = true
same_status Status.danger Status.danger = true
same_status _ _ = false

abbrev pub same_state : WorkerState → WorkerState → Bool
same_state safe safe = true
same_state WorkerState.caution WorkerState.caution = true
same_state WorkerState.danger WorkerState.danger = true
same_state WorkerState.critical WorkerState.critical = true
same_state _ _ = false

unfoldable pub is_sensor_escalation : Status → Status → Bool
is_sensor_escalation prev curr = ltb (rank prev) (rank curr)

unfoldable pub is_escalation : WorkerState → WorkerState → Bool
is_escalation prev curr = ltb (ladder prev) (ladder curr)
