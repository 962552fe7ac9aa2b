-- ===== src/Alerts/Detectors/Arima/Reach.antt =====
-- The states that a device's detector can be in.
use mathlib.Core.List.{reverse}
use sen_sa.Prelude.{
  ℕ, zero, suc, not, ltb, ◌&&◌, if_ind, if_cases, ◌-◌, ◌≤◌, ◌≡◌, refl, Bool, true, false, Option,
  none, some, List, [], ◌∷◌, arith, length, take, length-take, Option-cases, inl, inr, ◌⊎◌,
}
use sen_sa.Prelude.Float.{FloatOps}
use sen_sa.Alerts.Detectors.Arima.{
  DeviceStore, Forecaster, append, detect_anomaly, empty_store, fit_model, has_model, least_std,
  maybe_refit_async, min_train_samples, refit_interval, window_size,
}

length-take_suc :
    {A : Type 0} (n : ℕ) (x : A) (xs : List A)
    → (length xs ≤ length (take n (x ∷ xs))) ⊎ (length (take n (x ∷ xs)) ≡ n)
length-take_suc zero x xs = inr refl
length-take_suc (suc n) x [] = ground arith
length-take_suc (suc n) x (y ∷ ys) = ground (arith, length-take_suc n y ys)

module _ (fl : FloatOps) (lib : Forecaster fl.Float) where
  open fl use {Float, flt, fsub, fmul, fabs}

  -- From the empty store, by readings and by the ends of fits that are under way.
  pub data IsReachable : DeviceStore fl lib → Type 0 where
    start : IsReachable (empty_store fl lib)
    reading :
        {ds : DeviceStore fl lib} (now : ℕ) (value : Float)
        → IsReachable ds
        → IsReachable (detect_anomaly fl lib ds now value).0
    fitted :
        {ds : DeviceStore fl lib} (now : ℕ)
        → ds.fitting ≡ true
        → IsReachable ds
        → IsReachable (fit_model fl lib ds now)

  abbrev pub fits_together : Option lib.Model → Option Float → Bool
  fits_together none none = true
  fits_together (some _) (some std) = not (flt std (least_std fl lib))
  fits_together _ _ = false

  -- The buffer has at most 500 values; a store with a model, or whose fit is under way, has 60 or
  -- more; a model has a deviation with it that is not below the least, and no model has none.
  abbrev pub IsWellFormed : DeviceStore fl lib → Type 0
  IsWellFormed ds =
      (length ds.buffer ≤ window_size)
      × ((has_model fl lib ds ≡ false) ⊎ (min_train_samples ≤ length ds.buffer))
      × ((ds.fitting ≡ false) ⊎ (min_train_samples ≤ length ds.buffer))
      × (fits_together ds.model ds.residual_std ≡ true)

  -- A full buffer stays full, any other grows.
  length-append :
      (ds : DeviceStore fl lib) (value : Float)
      → (length ds.buffer ≤ length (append fl lib ds value).buffer)
        ⊎ (length (append fl lib ds value).buffer ≡ window_size)
  length-append ds value = length-take_suc window_size value ds.buffer

  append-IsWellFormed :
      (ds : DeviceStore fl lib) (value : Float)
      → IsWellFormed ds
      → IsWellFormed (append fl lib ds value)
  append-IsWellFormed ds value h =
      ground (arith, h, length-take window_size (value ∷ ds.buffer), length-append ds value)

  maybe_refit_async-IsWellFormed :
      (ds : DeviceStore fl lib) (now : ℕ)
      → IsWellFormed ds
      → IsWellFormed (maybe_refit_async fl lib ds now)
  unfolding maybe_refit_async
  maybe_refit_async-IsWellFormed ds now h = if_ind IsWellFormed ds.fitting h (
      if_ind IsWellFormed (ltb (now - ds.last_fit_at) refit_interval && has_model fl lib ds) h (
        if_cases IsWellFormed (ltb (length ds.buffer) min_train_samples) (λ few. h)
          (λ many. (h.0, h.1, inr (ground (arith, many)), h.3))))

  reading-IsWellFormed :
      (ds : DeviceStore fl lib) (now : ℕ) (value : Float)
      → IsWellFormed ds
      → IsWellFormed (detect_anomaly fl lib ds now value).0
  unfolding detect_anomaly
  reading-IsWellFormed ds now value h =
      let next = maybe_refit_async-IsWellFormed _ now (append-IsWellFormed ds value h) in
      if_ind (λ (r : DeviceStore fl lib × Bool). IsWellFormed r.0) _ next next

  fit_model-IsWellFormed :
      (irreflexive : (a : Float) → flt a a ≡ false)
      → (ds : DeviceStore fl lib) (now : ℕ) → ds.fitting ≡ true
      → IsWellFormed ds
      → IsWellFormed (fit_model fl lib ds now)
  unfolding fit_model
  fit_model-IsWellFormed irreflexive ds now under_way h =
      elim (Option-cases (lib.fit (reverse ds.buffer))) [
        | inl failed ↦ ground (arith, failed, h, under_way)
        | inr (done, ends) ↦ ground (arith, ends, h, under_way, irreflexive (least_std fl lib))
      ]

  -- Whatever the readings, and whenever the fits that are under way come to their ends: the buffer
  -- has at most 500 values; a model, or a fit under way, comes with 60 values or more; and a model
  -- has a deviation that is not below 1e-9. No number is taken to be below itself.
  pub IsReachable-IsWellFormed :
      (irreflexive : (a : Float) → flt a a ≡ false)
      → (ds : DeviceStore fl lib) → IsReachable ds
      → IsWellFormed ds
  IsReachable-IsWellFormed irreflexive _ start = ground arith
  IsReachable-IsWellFormed irreflexive _ (reading now value r) =
      reading-IsWellFormed _ now value (IsReachable-IsWellFormed irreflexive _ r)
  IsReachable-IsWellFormed irreflexive _ (fitted now under_way r) =
      fit_model-IsWellFormed irreflexive _ now under_way (IsReachable-IsWellFormed irreflexive _ r)
