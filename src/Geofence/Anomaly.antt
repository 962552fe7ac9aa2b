-- ===== src/Geofence/Anomaly.antt =====
-- SenSa/geofence/zone_anomaly.py: how far a sensor's last five minutes are from the 25 before them.
-- The database's average of a column is a parameter; a gas type is a column of `SensorData`.
use sen_sa.Prelude.{
  ℕ, ◌-◌, ◌≡◌, Bool, false, ◌&&◌, Option, none, some, List, [], ◌∷◌, String, ltb, leb, ◌==◌, select,
  arith, if◌then◌else◌,
}
use sen_sa.Prelude.Float.{FloatOps}
use sen_sa.Prelude.Text.{Casing, str_eq}
use sen_sa.Alerts.Types.{Status}

-- A row of `SensorData`; `value` is the column of a gas, `none` for null.
pub record SensorRow (F : Type 0) : Type 0 where
  pub device : ℕ
  pub timestamp : ℕ
  pub status : Status
  pub value : String → Option F

-- `LOOKBACK_RECENT_SEC` and `LOOKBACK_BASELINE_SEC`
abbrev pub lookback_recent : ℕ
lookback_recent = 300000000

abbrev pub lookback_baseline : ℕ
lookback_baseline = 1800000000

module _ (fl : FloatOps) (text : Casing) (avg : List fl.Float → fl.Float) where
  open fl use {Float, flt, fsub, fabs, lit}

  -- `CONFIRM_RESIDUAL_THRESH` and, for any other key, `DEFAULT_RESIDUAL_THRESH`
  unfoldable pub confirm_residual_thresh : String → Float
  confirm_residual_thresh key =
      if str_eq key "co"
      then lit 20 1
      else if str_eq key "h2s"
      then lit 5 1
      else if str_eq key "co2"
      then lit 100 1
      else if str_eq key "nh3"
      then lit 15 1
      else if str_eq key "no2"
      then lit 1 1
      else if str_eq key "so2"
      then lit 3 1
      else if str_eq key "o3"
      then lit 2 10
      else if str_eq key "voc"
      then lit 50 1
      else if str_eq key "o2"
      then lit 1 1
      else lit 20 1

  -- The column's values in the rows, null left out.
  unfoldable pub values : (field : String) → List (SensorRow Float) → List Float
  values field [] = []
  values field (row ∷ rest) = elim (row.value field) [
    | none ↦ values field rest
    | some v ↦ v ∷ values field rest
  ]

  -- `aggregate(avg=Avg(field))['avg']`
  abbrev pub average : List Float → Option Float
  average [] = none
  average (v ∷ vs) = some (avg (v ∷ vs))

  abbrev pub is_recent : (now device : ℕ) → SensorRow Float → Bool
  is_recent now device row = row.device == device && leb (now - lookback_recent) row.timestamp

  abbrev pub is_baseline : (now device : ℕ) → SensorRow Float → Bool
  is_baseline now device row =
      row.device == device
      && leb (now - lookback_baseline) row.timestamp
      && ltb row.timestamp (now - lookback_recent)

  unfoldable pub get_recent_residual :
      List (SensorRow Float) → (now device : ℕ) (gas_type : String) → Float
  get_recent_residual table now device gas_type =
      let field : String = text.lower gas_type in
      elim (average (values field (select (is_recent now device) table))) [
        | none ↦ lit 0 1
        | some recent ↦ elim (average (values field (select (is_baseline now device) table))) [
          | none ↦ lit 0 1
          | some baseline ↦ fsub recent baseline
        ]
      ]

  unfoldable pub has_anomaly :
      List (SensorRow Float)
      → (now device : ℕ) (gas_type : String) → (threshold : Option Float) → Bool
  has_anomaly table now device gas_type threshold =
      let limit : Float = elim threshold [
        | some t ↦ t
        | none ↦ confirm_residual_thresh (text.lower gas_type)
      ] in
      flt limit (fabs (get_recent_residual table now device gas_type))

  -- A sensor that sent no value of the gas in the last five minutes shows no anomaly, where 0 is not
  -- above the gas's threshold.
  pub has_anomaly_silent :
      (table : List (SensorRow Float)) (now device : ℕ) (gas_type : String)
      → flt (confirm_residual_thresh (text.lower gas_type)) (fabs (lit 0 1)) ≡ false
      → values (text.lower gas_type) (select (is_recent now device) table) ≡ []
      → has_anomaly table now device gas_type none ≡ false
  unfolding has_anomaly get_recent_residual
  has_anomaly_silent table now device gas_type small silent = ground (arith, silent, small)
