-- ===== src/Geofence/Examples.antt =====
-- A reading that makes a zone.
use sen_sa.Prelude.{ℕ, true, false, Option, some, List, [], ◌∷◌, String}
use sen_sa.Prelude.Sample.{naturals}
use sen_sa.Prelude.Text.{Casing}
use sen_sa.Alerts.Types.{Status}
use sen_sa.Alerts.Samples.{gas_sensor, square}
use sen_sa.Geofence.Lifecycle.Rows.{Zones}
use sen_sa.Geofence.AutoTrigger.{maybe_trigger_zone}
use sen_sa.Geofence.AutoTrigger.Triggering.{IsMade, maybe_trigger_zone-IsMade}
use sen_sa.Devices.Gate.{Cache}

abbrev same_case : Casing
same_case = record { lower = λ s. s; upper = λ s. s }

abbrev gate : Cache
gate = record {
  asked = [];
  answer_add = λ calls. some true;
  answer_get = λ calls now key. some false;
}

abbrev zones : Zones ℕ
zones = record { fences = square ∷ []; events = [] }

abbrev reading : List (String × Option ℕ)
reading = ("co", some 300) ∷ ("o2", some 20) ∷ []

maybe_trigger_zone-IsMade_example :
    IsMade naturals same_case gate zones 8 1000000 gas_sensor reading Status.danger Status.normal (
      maybe_trigger_zone naturals same_case gate zones 8 1000000 gas_sensor reading Status.danger
        Status.normal)
maybe_trigger_zone-IsMade_example =
    maybe_trigger_zone-IsMade naturals same_case gate zones 8 1000000 gas_sensor reading
      Status.danger Status.normal
