-- ===== src/Alerts/Worker/State.antt =====
-- worker_evaluator.py: the state of a worker from its geofences and the sensors near it, the
-- geofence that a message names, and what an alarm is called.
use sen_sa.Prelude.{Bool, ◌&&◌, ◌||◌, Option, none, some, List, [], ◌∷◌, any, if◌then◌else◌}
use sen_sa.Alerts.Types.{Status, WorkerState, safe, Level, AlarmType, same_status, same_state}
use sen_sa.Alerts.Types.{
  state_caution_enter, state_danger_enter, state_escalate, state_ongoing, state_recover_partial,
  state_recover_safe,
}
use sen_sa.Geofence.Zone.{GeoFence, ZoneType, Tier, same_tier, same_zone_type}

abbrev pub has_type : {F : Type 0} → ZoneType → List (GeoFence F) → Bool
has_type t = any (λ g. same_zone_type g.zone_type t)

abbrev pub has_critical_tier : {F : Type 0} → List (GeoFence F) → Bool
has_critical_tier = any (λ g. g.is_dynamic && same_tier g.tier Tier.critical)

unfoldable pub classify_state : {F : Type 0} → List (GeoFence F) → Status → WorkerState
classify_state geofences worst =
    if has_type ZoneType.restricted geofences
    then WorkerState.critical
    else if has_critical_tier geofences
    then WorkerState.critical
    else if has_type ZoneType.danger geofences || same_status worst Status.danger
    then WorkerState.danger
    else if has_type ZoneType.caution geofences || same_status worst Status.caution
    then WorkerState.caution
    else safe

-- The tests of the loop's body, in their order.
pub is_primary : {F : Type 0} → WorkerState → GeoFence F → Bool
is_primary target g =
    same_state target WorkerState.critical && same_zone_type g.zone_type ZoneType.restricted
    || same_state target WorkerState.danger
      && (same_zone_type g.zone_type ZoneType.danger
          || same_zone_type g.zone_type ZoneType.restricted)
    || same_state target WorkerState.caution && same_zone_type g.zone_type ZoneType.caution

pub head? : {A : Type 0} → List A → Option A
head? [] = none
head? (a ∷ rest) = some a

pub pick_from :
    {F : Type 0} → Option (GeoFence F) → List (GeoFence F) → WorkerState → Option (GeoFence F)
unfolding is_primary
pick_from fallback [] target = fallback
pick_from fallback (g ∷ rest) target =
    if is_primary target g then some g else pick_from fallback rest target

unfoldable pub pick_primary_geofence :
    {F : Type 0} → List (GeoFence F) → WorkerState → Option (GeoFence F)
unfolding pick_from head?
pick_primary_geofence geofences target = pick_from (head? geofences) geofences target

-- The order of the clauses is the order of the tests.
unfoldable pub transition_to_type_and_level : WorkerState → WorkerState → AlarmType × Level
transition_to_type_and_level WorkerState.critical WorkerState.danger =
    (state_recover_partial, Level.info)
transition_to_type_and_level WorkerState.critical WorkerState.caution =
    (state_recover_safe, Level.info)
transition_to_type_and_level WorkerState.critical safe = (state_recover_safe, Level.info)
transition_to_type_and_level WorkerState.critical WorkerState.critical =
    (state_ongoing, Level.critical)
transition_to_type_and_level prev WorkerState.critical = (state_danger_enter, Level.critical)
transition_to_type_and_level safe WorkerState.caution = (state_caution_enter, Level.caution)
transition_to_type_and_level safe WorkerState.danger = (state_danger_enter, Level.danger)
transition_to_type_and_level WorkerState.caution WorkerState.danger = (state_escalate, Level.danger)
transition_to_type_and_level WorkerState.danger WorkerState.caution =
    (state_recover_partial, Level.info)
transition_to_type_and_level WorkerState.danger safe = (state_recover_safe, Level.info)
transition_to_type_and_level WorkerState.caution safe = (state_recover_safe, Level.info)
transition_to_type_and_level WorkerState.danger WorkerState.danger = (state_ongoing, Level.danger)
transition_to_type_and_level WorkerState.caution WorkerState.caution =
    (state_ongoing, Level.caution)
transition_to_type_and_level safe safe = (state_ongoing, Level.info)
