-- ===== src/Alerts/Sensor/Message.antt =====
-- sensor_evaluator.py: what a sensor's alarm is called and what it says.
use sen_sa.Prelude.{Bool, not, ◌&&◌, String, if◌then◌else◌}
use sen_sa.Prelude.Text.{◌++◌, str_eq}
use sen_sa.Alerts.Types.{
  Status, AlarmType, Level, sensor_caution, sensor_danger, sensor_recover_partial,
  sensor_recover_normal,
}

-- The order of the clauses is the order of the tests.
unfoldable pub sensor_transition_to_type_and_level : Status → Status → AlarmType × Level
sensor_transition_to_type_and_level Status.normal Status.caution = (sensor_caution, Level.caution)
sensor_transition_to_type_and_level Status.normal Status.danger = (sensor_danger, Level.danger)
sensor_transition_to_type_and_level Status.caution Status.danger = (sensor_danger, Level.danger)
sensor_transition_to_type_and_level Status.danger Status.caution =
    (sensor_recover_partial, Level.info)
sensor_transition_to_type_and_level Status.danger Status.normal =
    (sensor_recover_normal, Level.info)
sensor_transition_to_type_and_level Status.caution Status.normal =
    (sensor_recover_normal, Level.info)
sensor_transition_to_type_and_level Status.danger Status.danger = (sensor_danger, Level.danger)
sensor_transition_to_type_and_level Status.caution Status.caution = (sensor_caution, Level.caution)
sensor_transition_to_type_and_level Status.normal Status.normal =
    (sensor_recover_normal, Level.info)

abbrev label : String → String
label sensor_type =
    if str_eq sensor_type "gas" then "가스센서" else if str_eq sensor_type "power" then "전력센서" else "센서"

abbrev detail_text : String → String
detail_text detail = if str_eq detail "" then "" else " [" ++ detail ++ "]"

ai_text : String → Status → String → String
ai_text id Status.caution ai_detail = "AI예측 - " ++ id ++ " " ++ ai_detail ++ " 이상!"
ai_text id Status.danger ai_detail = "AI예측 - " ++ id ++ " " ++ ai_detail ++ " 위험 수준 이상!"
ai_text id Status.normal ai_detail = "AI예측 - " ++ id ++ " " ++ ai_detail ++ " 정상 복귀"

-- `who` is the label and the device, `more` the detail in brackets.
fixed_text : String → Status → Status → String → String
fixed_text who Status.normal Status.caution more = who ++ " 주의 수준 감지" ++ more
fixed_text who Status.normal Status.danger more = who ++ " 위험 수준 감지" ++ more
fixed_text who Status.caution Status.danger more = who ++ " 상태 악화 — 주의→위험" ++ more
fixed_text who Status.danger Status.caution more = who ++ " 위험 벗어남 — 주의 수준으로 회복"
fixed_text who Status.danger Status.normal more = who ++ " 정상 복귀 — danger 상황 종료"
fixed_text who Status.caution Status.normal more = who ++ " 정상 복귀 — caution 상황 종료"
fixed_text who Status.danger Status.danger more = who ++ " 위험 상황 지속 중" ++ more
fixed_text who Status.caution Status.caution more = who ++ " 주의 상황 지속 중" ++ more
fixed_text who Status.normal Status.normal more = who ++ " 상태 변화"

unfoldable pub build_sensor_message :
    (id sensor_type : String)
    → Status
    → Status
    → (detail : String) (is_ai : Bool) (ai_detail : String) → String
unfolding ai_text fixed_text
build_sensor_message id sensor_type prev curr detail is_ai ai_detail =
    if is_ai && not (str_eq ai_detail "")
    then ai_text id curr ai_detail
    else fixed_text (label sensor_type ++ " " ++ id) prev curr (detail_text detail)
