-- ===== src/Geofence/Lifecycle/Expiry.antt =====
-- What is left of the zones after the passes that end them.
use sen_sa.Prelude.{
  ℕ, ◌≡◌, refl, Bool, false, List, [], ◌∷◌, map, arith, length, select, if◌then◌else◌,
}
use sen_sa.Geofence.Zone.{GeoFence}
use sen_sa.Geofence.Lifecycle.Rows.{StatusRow, ZoneEvent, Zones}
use sen_sa.Geofence.Lifecycle.Expire.{
  expire_recovered_zones, expire_zones, is_due, is_recovered, on_zone_expired, retire, retire_where,
}

-- What a pass with a filter promises: of each row, that it is switched off if the filter chose it
-- and left as it was if not; of the events and the count, that they are those of the chosen rows.
pub record IsRetired {F : Type 0} (chosen : GeoFence F → Bool) (now : ℕ) (old : List (GeoFence F))
    (out : List (GeoFence F) × List ZoneEvent × ℕ) : Type 0 where
  pub rows : out.0 ≡ map (λ z. if chosen z then retire now z else z) old
  pub events : out.1 ≡ map on_zone_expired (select chosen old)
  pub count : out.2 ≡ length (select chosen old)

retire_where-IsRetired :
    {F : Type 0} (chosen : GeoFence F → Bool) (now : ℕ) (old : List (GeoFence F))
    → IsRetired chosen now old (retire_where chosen now old)
unfolding retire_where
retire_where-IsRetired chosen now [] = record { rows = refl; events = refl; count = refl }
retire_where-IsRetired chosen now (z ∷ rest) =
    let h = retire_where-IsRetired chosen now rest in
    record {
      rows = ground (arith, h.rows);
      events = ground (arith, h.events);
      count = ground (arith, h.count);
    }

-- No row passes the filter any more.
module _ {F : Type 0} (chosen : GeoFence F → Bool) (now : ℕ)
    (dead : (z : GeoFence F) → chosen (retire now z) ≡ false) where
  none_left : (old : List (GeoFence F)) → select chosen (retire_where chosen now old).0 ≡ []
  unfolding retire_where
  none_left [] = refl
  none_left (z ∷ rest) = ground (arith, none_left rest, dead z)

-- After the pass no live dynamic zone is past its time, every other zone is as it was, and the
-- returned count is that of the zones that were due.
pub expire_zones_complete :
    {F : Type 0} (st : Zones F) (now : ℕ)
    → let (st', count) = expire_zones st now in
      (select (is_due now) st'.fences ≡ [])
      × (st'.fences ≡ map (λ z. if is_due now z then retire now z else z) st.fences)
      × (count ≡ length (select (is_due now) st.fences))
unfolding expire_zones
expire_zones_complete st now =
    let h = retire_where-IsRetired (is_due now) now st.fences in
    (none_left (is_due now) now (λ z. ground arith) st.fences, h.rows, h.count)

-- After the pass no live dynamic zone has a source whose newest five rows are normal, and every
-- zone that had none is as it was.
pub expire_recovered_zones_complete :
    {F : Type 0} (st : Zones F) (table : List StatusRow) (now : ℕ)
    → let (st', count) = expire_recovered_zones st table now in
      (select (is_recovered table) st'.fences ≡ [])
      × (st'.fences ≡ map (λ z. if is_recovered table z then retire now z else z) st.fences)
      × (count ≡ length (select (is_recovered table) st.fences))
unfolding expire_recovered_zones is_recovered
expire_recovered_zones_complete st table now =
    let h = retire_where-IsRetired (is_recovered table) now st.fences in
    (none_left (is_recovered table) now (λ z. ground arith) st.fences, h.rows, h.count)
