-- ===== src/Devices/Ingest/Refusals.antt =====
-- What a POST refuses.
use sen_sa.Prelude.{ℕ, ◌≡◌, refl, ◌∙◌, false, none, some, List, String, arith}
use sen_sa.Prelude.Float.{FloatOps}
use sen_sa.Prelude.Text.{Casing}
use sen_sa.Alerts.Detectors.Arima.{Forecaster}
use sen_sa.Alerts.Detectors.Trend.{Forest}
use sen_sa.Geofence.Zone.{Device}
use sen_sa.Devices.Gate.{holds_key}
use sen_sa.Devices.Ingest.{Intake, RawValue, Request, get_float, server_error}
use sen_sa.Devices.Ingest.Save.{Labels, labels_of, power_of, save_power}
use sen_sa.Devices.Ingest.Post.{post, requested_device, save_and_finish, spike_key, type_of}

module _ (fl : FloatOps) (text : Casing) (arima : Forecaster fl.Float) (forest : Forest fl.Float)
    (show_nat : ℕ → String) (median : List fl.Float → fl.Float) (interval now : ℕ) where
  open fl use {Float, flt, lit}

  -- A value that is kept is neither below 0 nor above a million; the comparisons are the floats'.
  pub get_float_bounded :
      (raw : RawValue Float) (f : Float)
      → get_float fl arima forest raw ≡ some f
      → (flt f (lit 0 1) ≡ false) × (flt (lit 1000000 1) f ≡ false)
  unfolding get_float
  get_float_bounded raw f h = ground (arith, h)

  -- Without the cache a POST of a known device fails, and nothing of it is kept.
  pub post_without_cache :
      (st : Intake fl arima forest) (request : Request Float) (device : Device Float)
      → requested_device fl text arima forest show_nat median interval now st.devices request
        ≡ some device
      → holds_key st.gate now (spike_key fl text arima forest show_nat median interval now request)
        ≡ none
      → post fl text arima forest show_nat median interval now st request ≡ (st, server_error)
  unfolding post
  post_without_cache st request device known down = rw (post, known, down) refl

  -- A POST that gets past the first tests.
  abbrev pub IsTaken : Intake fl arima forest → Request Float → Device Float → Labels → Type 0
  IsTaken st request device labels =
      (requested_device fl text arima forest show_nat median interval now st.devices request
        ≡ some device)
      × (holds_key st.gate now (spike_key fl text arima forest show_nat median interval now request)
          ≡ some false)
      × (labels_of fl arima forest show_nat median interval now request ≡ some labels)

  pub post_taken :
      (st : Intake fl arima forest) (request : Request Float) (device : Device Float)
      (labels : Labels)
      → IsTaken st request device labels
      → post fl text arima forest show_nat median interval now st request
        ≡ save_and_finish fl text arima forest show_nat median interval now st device request labels
  unfolding post
  post_taken st request device labels (known, free, labelled) = simp (post, known, free, labelled)

  -- A power reading of a known device that no scenario feeds, with a value missing, unreadable,
  -- below 0 or above a million: the POST fails, and nothing of it is kept.
  pub post_power_incomplete :
      (st : Intake fl arima forest) (request : Request Float) (device : Device Float)
      (labels : Labels)
      → IsTaken st request device labels
      → type_of fl text arima forest show_nat median interval now request device ≡ "power"
      → power_of fl arima forest show_nat median interval now request ≡ none
      → post fl text arima forest show_nat median interval now st request ≡ (st, server_error)
  unfolding save_and_finish save_power
  post_power_incomplete st request device labels taken power incomplete =
      post_taken st request device labels taken
      ∙ rw (save_and_finish, power, save_power, incomplete) refl
