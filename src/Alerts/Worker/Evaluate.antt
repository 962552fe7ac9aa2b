-- ===== src/Alerts/Worker/Evaluate.antt =====
-- worker_evaluator.py: `evaluate_worker`. The readings of the clock within one call are taken as
-- one instant, `now`; `configured` is `alerts.notifiers.is_configured()`. An exception of the
-- broadcast or of the task queue is absorbed by the code and changes nothing here.
use sen_sa.Prelude.{
  ℕ, ◌+◌, ◌-◌, Bool, true, false, not, ◌&&◌, Option, none, some, List, [], ◌∷◌, String, leb,
  if◌then◌else◌,
}
use sen_sa.Prelude.Float.{FloatOps}
use sen_sa.Prelude.Text.{◌++◌}
use sen_sa.Alerts.Types.{
  Status, WorkerState, safe, Reason, transition, ongoing, same_state, is_escalation,
}
use sen_sa.Alerts.Common.{re_alarm_interval, recovery_confirm_ticks}
use sen_sa.Alerts.Store.{
  Redis, WorkerSnapshot, get_worker_snapshot, commit_state, set_pending, clear_pending,
}
use sen_sa.Alerts.World.{Alarm, WorkerPayload, of_worker, World}
use sen_sa.Alerts.Fences.{Db, find_containing_geofences}
use sen_sa.Geofence.Zone.{GeoFence, ZoneType}
use sen_sa.Alerts.Worker.State.{classify_state, pick_primary_geofence, transition_to_type_and_level}
use sen_sa.Alerts.Worker.Message.{build_message, status_text, state_text}

abbrev pub is_some : {A : Type 0} → Option A → Bool
is_some none = false
is_some (some _) = true

abbrev pub is_pending : Option WorkerState → WorkerState → Bool
is_pending none state = false
is_pending (some pending) state = same_state pending state

-- Is the transition to the observed state confirmed, and what is written on the way?
unfoldable pub confirm :
    Redis → (now : ℕ) (id : String) → WorkerSnapshot → WorkerState → Redis × Option WorkerState
confirm r now id snap observed =
    if same_state observed snap.state
    then ((if is_some snap.pending_state then clear_pending r now id else r), none)
    else if is_escalation snap.state observed
    then (r, some observed)
    else if is_pending snap.pending_state observed
    then (if leb recovery_confirm_ticks (snap.pending_count + 1)
        then (r, some observed)
        else (set_pending r now id observed (snap.pending_count + 1), none))
    else (set_pending r now id observed 1, none)

-- `should_alarm` with its reason and target state.
unfoldable pub verdict :
    (now : ℕ) → WorkerSnapshot → Option WorkerState → Option (Reason × WorkerState)
verdict now snap (some confirmed) = some (transition, confirmed)
verdict now snap none =
    if not (same_state snap.state safe) && leb re_alarm_interval (now - snap.last_alarm_at)
    then some (ongoing, snap.state)
    else none

abbrev pub is_transition : Reason → Bool
is_transition transition = true
is_transition ongoing = false

abbrev pub is_danger_or_critical : WorkerState → Bool
is_danger_or_critical WorkerState.danger = true
is_danger_or_critical WorkerState.critical = true
is_danger_or_critical _ = false

-- `geofence if target_state != 'safe' else None`
abbrev pub shown_fence : {F : Type 0} → WorkerState → Option (GeoFence F) → Option (GeoFence F)
shown_fence safe fence = none
shown_fence _ fence = fence

abbrev pub fence_id : {F : Type 0} → Option (GeoFence F) → Option ℕ
fence_id none = none
fence_id (some g) = some g.id

abbrev pub fence_name : {F : Type 0} → Option (GeoFence F) → String
fence_name none = ""
fence_name (some g) = g.name

abbrev entry_label : WorkerState → String
entry_label WorkerState.caution = "주의"
entry_label WorkerState.danger = "위험"
entry_label WorkerState.critical = "긴급"
entry_label safe = "safe"

abbrev zone_type_text : ZoneType → String
zone_type_text ZoneType.normal = "normal"
zone_type_text ZoneType.caution = "caution"
zone_type_text ZoneType.danger = "danger"
zone_type_text ZoneType.restricted = "restricted"

abbrev zone_text : {F : Type 0} → Option (GeoFence F) → String
zone_text none = "?"
zone_text (some g) = g.name ++ " (" ++ zone_type_text g.zone_type ++ ")"

module _ (fl : FloatOps) where
  open fl use {Float, format_0f}

  unfoldable pub notify_worker_zone_entry :
      (configured : Bool)
      → World Float
      → String
      → (from_state to_state : WorkerState) → Option (GeoFence Float)
      → (x y : Float) → Status
      → World Float
  notify_worker_zone_entry false w name from_state to_state fence x y worst = w
  notify_worker_zone_entry true w name from_state to_state fence x y worst = record w {
    queued =
        record {
          title = "작업자 위험구역 진입 — " ++ name;
          message =
              "상태: "
              ++ state_text from_state
              ++ " → "
              ++ entry_label to_state
              ++ "\n"
              ++ "구역: "
              ++ zone_text fence
              ++ "\n"
              ++ "위치: ("
              ++ format_0f x
              ++ ", "
              ++ format_0f y
              ++ ")\n"
              ++ "주변 센서: "
              ++ status_text worst;
          severity = state_text to_state;
        }
        ∷ w.queued;
  }

  -- The alarm's row and payload, the broadcast, the notification, the commit.
  unfoldable pub raise_alarm :
      (configured : Bool)
      → World Float
      → (now : ℕ) (id name : String) (x y : Float) → Status
      → List (String × Status)
      → List (GeoFence Float)
      → (official : WorkerState) → Reason × WorkerState
      → World Float × WorkerPayload
  unfolding notify_worker_zone_entry
  raise_alarm configured w now id name x y worst sensors geofences official (reason, target) =
      let (alarm_type, alarm_level) = transition_to_type_and_level official target in
      let primary : Option (GeoFence Float) = pick_primary_geofence geofences target in
      let message : String = build_message name official target primary sensors in
      let shown : Option (GeoFence Float) = shown_fence target primary in
      let payload : WorkerPayload = record {
        alarm_id = w.next_id;
        alarm_type = alarm_type;
        alarm_level = alarm_level;
        worker_id = id;
        worker_name = name;
        geofence_id = fence_id shown;
        geofence_name = fence_name shown;
        message = message;
        reason = reason;
        state_from = official;
        state_to = target;
      } in
      let row : Alarm Float = record {
        id = w.next_id;
        alarm_type = alarm_type;
        alarm_level = alarm_level;
        worker_id = id;
        worker_name = name;
        position = some (x, y);
        geofence = fence_id shown;
        device_id = "";
        sensor_type = "";
        message = message;
        is_read = false;
        is_ai = false;
        created_at = now;
      } in
      let stored : World Float = record w {
        alarms = row ∷ w.alarms;
        next_id = w.next_id + 1;
        published = of_worker payload ∷ w.published;
      } in
      let told : World Float =
        (if is_transition reason && is_danger_or_critical target && is_escalation official target
          then notify_worker_zone_entry configured stored name official target primary x y worst
          else stored) in
      (record told { redis = commit_state told.redis now id target true }, payload)

  unfoldable pub conclude :
      (configured : Bool)
      → World Float
      → (now : ℕ) (id name : String) (x y : Float) → Status
      → List (String × Status)
      → List (GeoFence Float)
      → (official : WorkerState) → Option (Reason × WorkerState)
      → World Float × List WorkerPayload
  unfolding raise_alarm
  conclude configured w now id name x y worst sensors geofences official none = (w, [])
  conclude configured w now id name x y worst sensors geofences official (some v) =
      let (w', payload) =
        raise_alarm configured w now id name x y worst sensors geofences official v in
      (w', payload ∷ [])

  unfoldable pub evaluate_worker :
      (configured : Bool)
      → Db Float
      → World Float
      → (now : ℕ) (id name : String) (x y : Float) → Status
      → List (String × Status)
      → World Float × List WorkerPayload
  unfolding conclude confirm verdict
  evaluate_worker configured db w now id name x y worst sensors =
      let geofences : List (GeoFence Float) = find_containing_geofences fl db x y in
      let observed : WorkerState = classify_state geofences worst in
      let snap : WorkerSnapshot = get_worker_snapshot w.redis now id in
      let (redis, confirmed) = confirm w.redis now id snap observed in
      conclude configured (record w { redis = redis }) now id name x y worst sensors geofences
        snap.state (verdict now snap confirmed)
