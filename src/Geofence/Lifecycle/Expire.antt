-- ===== src/Geofence/Lifecycle/Expire.antt =====
-- SenSa/geofence/zone_lifecycle.py: `expire_zones` and `expire_recovered_zones`.
use sen_sa.Prelude.{
  ℕ, suc, Bool, false, not, ◌&&◌, Option, none, some, List, [], ◌∷◌, ◌++◌, ltb, leb, ◌==◌, all,
  select, length, take, if◌then◌else◌,
}
use sen_sa.Alerts.Types.{Status, same_status}
use sen_sa.Geofence.Zone.{GeoFence, Tier}
use sen_sa.Geofence.Lifecycle.Rows.{
  StatusRow, ZoneEvent, Zones, expired, is_live, recovery_check_count,
}

abbrev pub is_past : ℕ → Option ℕ → Bool
is_past now none = false
is_past now (some t) = leb t now

abbrev pub is_due : {F : Type 0} → (now : ℕ) → GeoFence F → Bool
is_due now zone = is_live zone && is_past now zone.expires_at

abbrev pub retire : {F : Type 0} → (now : ℕ) → GeoFence F → GeoFence F
retire now zone = record zone { is_active = false; last_updated_at = now }

abbrev pub on_zone_expired : {F : Type 0} → GeoFence F → ZoneEvent
on_zone_expired zone = record {
  zone = zone.id;
  event_type = expired;
  from_tier = zone.tier;
  to_tier = Tier.static;
}

-- The rows that pass the filter are switched off, one event each, and counted.
unfoldable pub retire_where :
    {F : Type 0}
    → (GeoFence F → Bool)
    → (now : ℕ) → List (GeoFence F)
    → List (GeoFence F) × List ZoneEvent × ℕ
retire_where chosen now [] = ([], [], 0)
retire_where chosen now (zone ∷ rest) =
    let (fences, events, count) = retire_where chosen now rest in
    if chosen zone
    then (retire now zone ∷ fences, on_zone_expired zone ∷ events, suc count)
    else (zone ∷ fences, events, count)

unfoldable pub expire_zones : {F : Type 0} → Zones F → (now : ℕ) → Zones F × ℕ
unfolding retire_where
expire_zones st now =
    let (fences, events, count) = retire_where (is_due now) now st.fences in
    (record { fences = fences; events = st.events ++ events }, count)

abbrev pub recent : List StatusRow → (device : ℕ) → List StatusRow
recent table device = take recovery_check_count (select (λ row. row.device == device) table)

-- A zone whose source has five rows or more, the newest five all normal.
unfoldable pub is_recovered : {F : Type 0} → List StatusRow → GeoFence F → Bool
is_recovered table zone = is_live zone && elim zone.source_device [
  | none ↦ false
  | some device ↦
      not (ltb (length (recent table device)) recovery_check_count)
      && all (λ row. same_status row.status Status.normal) (recent table device)
]

unfoldable pub expire_recovered_zones :
    {F : Type 0} → Zones F → List StatusRow → (now : ℕ) → Zones F × ℕ
unfolding retire_where
expire_recovered_zones st table now =
    let (fences, events, count) = retire_where (is_recovered table) now st.fences in
    (record { fences = fences; events = st.events ++ events }, count)
