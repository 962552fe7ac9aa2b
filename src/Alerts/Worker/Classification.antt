-- ===== src/Alerts/Worker/Classification.antt =====
-- `classify_state` and the alarm's level against orders of severity.
use Prim.Native.Nat.{max}
use sen_sa.Prelude.{ℕ, ◌≡◌, ◌∙◌, ap, ◌&&◌, List, [], ◌∷◌, arith, if◌then◌else◌, leb}
use sen_sa.Alerts.Types.{Status, WorkerState, safe, Level, rank, ladder}
use sen_sa.Geofence.Zone.{GeoFence, ZoneType, Tier, same_tier}
use sen_sa.Alerts.Worker.State.{classify_state, transition_to_type_and_level}

abbrev pub zone_severity : ZoneType → ℕ
zone_severity ZoneType.normal = 0
zone_severity ZoneType.caution = 1
zone_severity ZoneType.danger = 2
zone_severity ZoneType.restricted = 3

-- What one geofence asks for by itself: its type, and the top for a dynamic critical one.
abbrev pub fence_severity : {F : Type 0} → GeoFence F → ℕ
fence_severity g =
    if g.is_dynamic && same_tier g.tier Tier.critical then 3 else zone_severity g.zone_type

abbrev pub worst_of : {F : Type 0} → ℕ → List (GeoFence F) → ℕ
worst_of n [] = n
worst_of n (g ∷ rest) = max (fence_severity g) (worst_of n rest)

classify_state-cons :
    {F : Type 0} (g : GeoFence F) (rest : List (GeoFence F)) (worst : Status)
    → ladder (classify_state (g ∷ rest) worst)
      ≡ max (fence_severity g) (ladder (classify_state rest worst))
unfolding classify_state
classify_state-cons g rest worst = ground arith

-- The state is the most severe of what the sensors near the worker and each geofence ask for.
pub classify_state_worst :
    {F : Type 0} (geofences : List (GeoFence F)) (worst : Status)
    → ladder (classify_state geofences worst) ≡ worst_of (rank worst) geofences
unfolding classify_state
classify_state_worst [] worst = ground arith
classify_state_worst (g ∷ rest) worst =
    classify_state-cons g rest worst ∙ ap (max (fence_severity g)) (classify_state_worst rest worst)

abbrev pub level_of : WorkerState → Level
level_of safe = Level.info
level_of WorkerState.caution = Level.caution
level_of WorkerState.danger = Level.danger
level_of WorkerState.critical = Level.critical

-- The level of an alarm is that of the new state when the state gets worse or stays, and info when
-- it gets better.
pub transition_to_type_and_level_sound :
    (prev curr : WorkerState)
    → (transition_to_type_and_level prev curr).1
      ≡ (if leb (ladder prev) (ladder curr) then level_of curr else Level.info)
unfolding transition_to_type_and_level
transition_to_type_and_level_sound prev curr = ground arith
