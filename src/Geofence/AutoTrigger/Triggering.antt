-- ===== src/Geofence/AutoTrigger/Triggering.antt =====
-- When a reading makes a zone.
use sen_sa.Prelude.{
  ℕ, ◌≡◌, refl, ap, ◌⊎◌, inl, inr, Bool, true, false, not, ◌||◌, ◌&&◌, Option, none, some, List, [],
  ◌∷◌, String, arith, any, Option-cases, Bool-cases, if◌then◌else◌,
}
use sen_sa.Prelude.Float.{FloatOps}
use sen_sa.Prelude.Text.{Casing, str_eq, eq_refl}
use sen_sa.Alerts.Types.{Status, same_status}
use sen_sa.Alerts.Classify.{gas_thresholds}
use sen_sa.Geofence.Zone.{GeoFence, Device}
use sen_sa.Geofence.Lifecycle.Rows.{Zones}
use sen_sa.Geofence.Lifecycle.Create.{create_dynamic_zone, new_zone}
use sen_sa.Devices.Gate.{Cache, add}
use sen_sa.Geofence.AutoTrigger.{
  auto_zone_gate, gate_key, is_excluded, is_zone_of, make_unless_present, maybe_trigger_zone,
  request_for, trigger_for, worse_gas, worst_danger_gas, worst_danger_gas_from,
}

module _ (fl : FloatOps) (text : Casing) where
  open fl use {Float, fle, fdiv, lit}

  -- A value of a gas other than oxygen that is at its danger threshold or above.
  abbrev pub is_dangerous : (key : String) → Option Float → Bool
  is_dangerous key none = false
  is_dangerous key (some v) = if is_excluded key then false else elim (gas_thresholds fl key) [
    | none ↦ false
    | some (caution, danger) ↦ fle (lit 1 1) (fdiv v danger)
  ]

  abbrev pub shows : String → String × Option Float → Bool
  shows gas (key, value) = str_eq key gas && is_dangerous key value

  -- A zone made by this call: the reading turned to danger, this gas is dangerous in it, no live
  -- zone of the device and gas stood before, and the cache, asked for the key of the device and gas
  -- for a minute, lets it through.
  abbrev pub IsMade :
      Cache
      → Zones Float
      → (id now : ℕ) → Device Float
      → List (String × Option Float)
      → (observed prev : Status) → Cache × Zones Float × Option (GeoFence Float)
      → Type 0
  IsMade c st id now device values observed prev (c', st', none) = st' ≡ st
  IsMade c st id now device values observed prev (c', st', some zone) =
      (observed ≡ Status.danger)
      × (same_status prev Status.danger ≡ false)
      × ((gas : String) × (any (shows gas) values ≡ true)
          × (any (is_zone_of fl text device.id gas) st.fences ≡ false)
          × (add c now (gate_key fl text device gas) 60000000 true ≡ (c', true))
          × (zone ≡ new_zone fl text id now device (request_for fl text device gas))
          × (st'.fences ≡ zone ∷ st.fences))

  worse_gas_sound :
      (gas key : String) (worst : Option String × Float) (value : Option Float)
      → (worse_gas fl text worst key value).0 ≡ some gas
      → (worst.0 ≡ some gas) ⊎ (shows gas (key, value) ≡ true)
  unfolding worse_gas
  worse_gas_sound gas key worst none h = inl h
  worse_gas_sound gas key worst (some v) h = ground (arith, h, eq_refl gas)

  worst_danger_gas_from_sound :
      (gas : String) (worst : Option String × Float) (values : List (String × Option Float))
      → worst_danger_gas_from fl text worst values ≡ some gas
      → (worst.0 ≡ some gas) ⊎ (any (shows gas) values ≡ true)
  unfolding worst_danger_gas_from
  worst_danger_gas_from_sound gas worst [] h = inl h
  worst_danger_gas_from_sound gas worst ((key, value) ∷ rest) h = ground (
    arith,
    worst_danger_gas_from_sound gas (worse_gas fl text worst key value) rest h,
    worse_gas_sound gas key worst value,
  )

  worst_danger_gas_sound :
      (gas : String) (values : List (String × Option Float))
      → worst_danger_gas fl text values ≡ some gas
      → any (shows gas) values ≡ true
  unfolding worst_danger_gas
  worst_danger_gas_sound gas values h =
      ground (arith, worst_danger_gas_from_sound gas (none, lit 0 1) values h)

  trigger_for-IsMade :
      (c : Cache) (st : Zones Float) (id now : ℕ) (device : Device Float)
      (values : List (String × Option Float)) (observed prev : Status) (gas : String)
      → observed ≡ Status.danger
      → same_status prev Status.danger ≡ false
      → any (shows gas) values ≡ true
      → IsMade c st id now device values observed prev (trigger_for fl text c st id now device gas)
  unfolding trigger_for make_unless_present create_dynamic_zone
  trigger_for-IsMade c st id now device values observed prev gas danger turned shown =
      elim (Bool-cases (add c now (gate_key fl text device gas) auto_zone_gate true).1) [
        | inl passed ↦ elim (Bool-cases (any (is_zone_of fl text device.id gas) st.fences)) [
          | inl present ↦ rw (passed, present) refl
          | inr absent ↦
              rw (passed, absent)
                (
                  danger,
                  turned,
                  (
                    gas,
                    shown,
                    absent,
                    ap (λ b. ((add c now (gate_key fl text device gas) auto_zone_gate true).0, b))
                        passed,
                    refl,
                    refl,
                  ),
                )
        ]
        | inr blocked ↦ rw blocked refl
      ]

  -- A call either leaves the zones alone, or it makes one zone: then the reading turned to danger,
  -- it holds a gas, not oxygen, at its danger threshold or above, and there was no live dynamic zone
  -- of the device and that gas; and the cache let the key of the device and gas through, or raised.
  pub maybe_trigger_zone-IsMade :
      (c : Cache) (st : Zones Float) (id now : ℕ) (device : Device Float)
      (values : List (String × Option Float)) (observed prev : Status)
      → IsMade c st id now device values observed prev
          (maybe_trigger_zone fl text c st id now device values observed prev)
  unfolding maybe_trigger_zone
  maybe_trigger_zone-IsMade c st id now device values observed prev =
      elim (Bool-cases
        (not (same_status observed Status.danger) || same_status prev Status.danger)) [
          | inl stays ↦ rw stays refl
          | inr turns ↦ elim (Option-cases (worst_danger_gas fl text values)) [
            | inl free ↦ rw (turns, free) refl
            | inr (gas, worst) ↦
                rw (turns, worst)
                  (trigger_for-IsMade c st id now device values observed prev gas
                    (ground (arith, turns)) (ground (arith, turns))
                    (worst_danger_gas_sound gas values worst))
          ]
        ]
