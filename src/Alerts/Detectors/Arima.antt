-- ===== src/Alerts/Detectors/Arima.antt =====
-- SenSa/alerts/services/anomaly_detector.py: the residual of a value against the forecast of an
-- ARIMA model. The model is fitted by a thread of its own, so the end of a fit is a step between
-- two readings. A buffer stands newest first; time is in microseconds.
pub mod Reach
use mathlib.Core.List.{reverse}
use sen_sa.Prelude.{
  ℕ, ◌-◌, Bool, true, false, ◌&&◌, Option, none, some, List, [], ◌∷◌, ltb, length, take,
  if◌then◌else◌,
}
use sen_sa.Prelude.Float.{FloatOps}

abbrev pub min_train_samples : ℕ
min_train_samples = 60

abbrev pub window_size : ℕ
window_size = 500

-- `REFIT_INTERVAL_SEC`
abbrev pub refit_interval : ℕ
refit_interval = 600000000

-- The libraries: `fit` gives a model with the standard deviation of its residuals, `forecast` the
-- next value; `none` is an exception.
pub record Forecaster (F : Type 0) : Type 1 where
  pub Model : Type 0
  pub fit : List F → Option (Model × F)
  pub forecast : Model → Option F

module _ (fl : FloatOps) (lib : Forecaster fl.Float) where
  open fl use {Float, flt, fsub, fmul, fabs, lit}
  open lib use {Model, fit, forecast}

  pub record DeviceStore : Type 0 where
    pub buffer : List Float
    pub model : Option Model
    pub residual_std : Option Float
    pub last_fit_at : ℕ
    pub fitting : Bool

  abbrev pub empty_store : DeviceStore
  empty_store = record {
    buffer = [];
    model = none;
    residual_std = none;
    last_fit_at = 0;
    fitting = false;
  }

  -- 1e-9, against a division by 0
  abbrev pub least_std : Float
  least_std = lit 1 1000000000

  abbrev pub at_least : Float → Float
  at_least std = if flt std least_std then least_std else std

  -- The end of the thread, which clears `fitting` on every path.
  unfoldable pub fit_model : DeviceStore → (now : ℕ) → DeviceStore
  fit_model ds now = elim (fit (reverse ds.buffer)) [
    | none ↦ record ds { fitting = false }
    | some (fitted, std) ↦ record ds {
      model = some fitted;
      residual_std = some (at_least std);
      last_fit_at = now;
      fitting = false;
    }
  ]

  abbrev pub has_model : DeviceStore → Bool
  has_model ds = elim ds.model [ none ↦ false | some _ ↦ true ]

  -- `fitting` says that a thread is under way.
  unfoldable pub maybe_refit_async : DeviceStore → (now : ℕ) → DeviceStore
  maybe_refit_async ds now =
      if ds.fitting
      then ds
      else if ltb (now - ds.last_fit_at) refit_interval && has_model ds
      then ds
      else if ltb (length ds.buffer) min_train_samples
      then ds
      else record ds { fitting = true }

  -- `SIGMA_THRESHOLD`
  abbrev pub sigma_threshold : Float
  sigma_threshold = lit 3 1

  unfoldable pub infer : DeviceStore → (value : Float) → Bool
  infer ds value = elim ds.model [
    | none ↦ false
    | some fitted ↦ elim ds.residual_std [
      | none ↦ false
      | some std ↦ elim (forecast fitted) [
        | none ↦ false
        | some pred ↦ flt (fmul sigma_threshold std) (fabs (fsub value pred))
      ]
    ]
  ]

  abbrev pub append : DeviceStore → Float → DeviceStore
  append ds value = record ds { buffer = take window_size (value ∷ ds.buffer) }

  unfoldable pub detect_anomaly : DeviceStore → (now : ℕ) → (value : Float) → DeviceStore × Bool
  unfolding maybe_refit_async
  detect_anomaly ds now value =
      let ds' : DeviceStore = maybe_refit_async (append ds value) now in
      if ltb (length ds'.buffer) min_train_samples then (ds', false) else (ds', infer ds' value)
