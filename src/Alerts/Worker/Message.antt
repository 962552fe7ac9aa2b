-- ===== src/Alerts/Worker/Message.antt =====
-- worker_evaluator.py: the texts of a worker's alarms.
use sen_sa.Prelude.{Bool, Option, none, some, List, [], ◌∷◌, String, all, if◌then◌else◌}
use sen_sa.Prelude.Text.{◌++◌, str_eq}
use sen_sa.Alerts.Types.{Status, WorkerState, safe, same_status}
use sen_sa.Geofence.Zone.{GeoFence, Tier, TriggerSource}

abbrev pub status_text : Status → String
status_text Status.normal = "normal"
status_text Status.caution = "caution"
status_text Status.danger = "danger"

abbrev pub state_text : WorkerState → String
state_text safe = "safe"
state_text WorkerState.caution = "caution"
state_text WorkerState.danger = "danger"
state_text WorkerState.critical = "critical"

abbrev tier_label : Tier → String
tier_label Tier.static = ""
tier_label Tier.tentative = "[잠정]"
tier_label Tier.confirmed = "[확인]"
tier_label Tier.critical = "[긴급]"

abbrev trigger_label : TriggerSource → String
trigger_label TriggerSource.ttm_anomaly = "실측"
trigger_label TriggerSource.ttm_forecast = "사전경고"
trigger_label TriggerSource.threshold = "임계초과"
trigger_label _ = ""

abbrev is_empty : String → Bool
is_empty s = str_eq s ""

join_labels : (tier trigger : String) → String
join_labels tier trigger =
    if is_empty tier
    then ""
    else if is_empty trigger
    then tier ++ " "
    else tier ++ "[" ++ trigger ++ "] "

unfoldable pub dynamic_zone_prefix : {F : Type 0} → Option (GeoFence F) → String
unfolding join_labels
dynamic_zone_prefix none = ""
dynamic_zone_prefix (some g) =
    if g.is_dynamic then join_labels (tier_label g.tier) (trigger_label g.trigger_source) else ""

-- `', '.join(parts)`
join : List String → String
join [] = ""
join (s ∷ []) = s
join (s ∷ t ∷ rest) = s ++ ", " ++ join (t ∷ rest)

abbrev ids : List (String × Status) → List String
ids [] = []
ids ((id, _) ∷ rest) = id ∷ ids rest

abbrev parts : List (String × Status) → List String
parts [] = []
parts ((id, status) ∷ rest) = (id ++ " " ++ status_text status) ∷ parts rest

-- `_sensor_suffix`: the zone's name, else the sensors, grouped where they have one status.
sensor_suffix : String → List (String × Status) → String → String
unfolding join
sensor_suffix zone_name [] default =
    if is_empty zone_name then default else " (" ++ zone_name ++ ")"
sensor_suffix zone_name ((id, status) ∷ rest) default =
    if is_empty zone_name
    then (if all (λ (p : String × Status). same_status p.1 status) rest
        then " (" ++ join (ids ((id, status) ∷ rest)) ++ " " ++ status_text status ++ ")"
        else " (" ++ join (parts ((id, status) ∷ rest)) ++ ")")
    else " (" ++ zone_name ++ ")"

abbrev zone_suffix : String → String
zone_suffix zone_name = if is_empty zone_name then "" else " (" ++ zone_name ++ ")"

-- The order of the clauses is the order of the tests.
core : String → WorkerState → WorkerState → String → List (String × Status) → String
unfolding sensor_suffix
core name WorkerState.critical WorkerState.critical zone sensors =
    name ++ " 출입금지구역 체류 중" ++ zone_suffix zone
core name WorkerState.critical WorkerState.danger zone sensors = name ++ " 출입금지구역 이탈 — 위험 수준으로 낮아짐"
core name WorkerState.critical WorkerState.caution zone sensors = name ++ " 출입금지구역 이탈 완료"
core name WorkerState.critical safe zone sensors = name ++ " 출입금지구역 이탈 완료"
core name prev WorkerState.critical zone sensors = name ++ " 출입금지구역 진입" ++ zone_suffix zone
core name safe WorkerState.caution zone sensors =
    name ++ " 주의구역 진입" ++ sensor_suffix zone sensors " (센서 주의)"
core name safe WorkerState.danger zone sensors =
    name ++ " 위험구역 진입" ++ sensor_suffix zone sensors " (센서 위험)"
core name WorkerState.caution WorkerState.danger zone sensors =
    name ++ " 상태 악화 — 주의→위험" ++ sensor_suffix zone sensors ""
core name WorkerState.danger WorkerState.caution zone sensors = name ++ " 위험 벗어남 — 주의 수준으로 회복"
core name WorkerState.danger safe zone sensors = name ++ " 안전지역 복귀 — 위험 상황 종료"
core name WorkerState.caution safe zone sensors = name ++ " 안전지역 복귀 — 주의 상황 종료"
core name WorkerState.danger WorkerState.danger zone sensors =
    name ++ " 위험 상황 지속 중" ++ sensor_suffix zone sensors ""
core name WorkerState.caution WorkerState.caution zone sensors =
    name ++ " 주의 상황 지속 중" ++ sensor_suffix zone sensors ""
core name safe safe zone sensors = name ++ " 상태 변화"

abbrev pub name_of : {F : Type 0} → Option (GeoFence F) → String
name_of none = ""
name_of (some g) = g.name

-- `influencing_sensors or []`
unfoldable pub build_message_core :
    {F : Type 0}
    → String
    → WorkerState
    → WorkerState
    → Option (GeoFence F)
    → List (String × Status)
    → String
unfolding core
build_message_core name prev curr geofence sensors = core name prev curr (name_of geofence) sensors

unfoldable pub build_message :
    {F : Type 0}
    → String
    → WorkerState
    → WorkerState
    → Option (GeoFence F)
    → List (String × Status)
    → String
unfolding build_message_core dynamic_zone_prefix
build_message name prev curr geofence sensors =
    dynamic_zone_prefix geofence ++ build_message_core name prev curr geofence sensors
