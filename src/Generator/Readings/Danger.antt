-- ===== src/Generator/Readings/Danger.antt =====
-- A reading of the danger mode against the thresholds of SenSa/alerts/services/classifiers.py.
use sen_sa.Prelude.{ℕ, ◌≡◌, refl, true, none, some, [], ◌∷◌, String}
use sen_sa.Prelude.Float.{FloatOps}
use sen_sa.Alerts.Types.{Status}
use sen_sa.Alerts.Classify.{gas_thresholds, gas_step, classify_gas_from, classify_gas}
use sen_sa.Generator.Readings.{
  Gas, co, h2s, co2, o2, no2, so2, o3, nh3, voc, key_of, digits, place, SimState, danger_base,
  danger_span, generate_gas,
}

module _ (fl : FloatOps) where
  open fl use {Float, flt, fle, fadd, fmul, lit, fround}

  -- What is relied on of the numbers: a draw that is not negative only adds; rounding keeps the
  -- order and leaves the bases, and 15.5, as they are; a draw that is at most 1 adds at most 3.5 to
  -- 12; what is at most 15.5 is below 16. 5.0 and 5 are one number, and so are 2.0 and 2.
  pub record Decimals : Type 0 where
    pub grows :
        (g : Gas) (r : Float)
        → fle (lit 0 1) r ≡ true
        → fle (danger_base fl g) (fadd (danger_base fl g) (fmul r (danger_span fl g))) ≡ true
    pub round_mono : (x y : Float) (n : ℕ) → fle x y ≡ true → fle (fround x n) (fround y n) ≡ true
    pub fixed : (g : Gas) → fround (danger_base fl g) (digits g) ≡ danger_base fl g
    pub fixed_top : fround (lit 155 10) 1 ≡ lit 155 10
    pub at_most :
        (r : Float)
        → fle r (lit 1 1) ≡ true
        → fle (fadd (lit 12 1) (fmul r (lit 35 10))) (lit 155 10) ≡ true
    pub below : (x : Float) → fle x (lit 155 10) ≡ true → flt x (lit 16 1) ≡ true
    pub five : lit 50 10 ≡ lit 5 1
    pub two : lit 20 10 ≡ lit 2 1

  -- `random.random()` lies between 0 and 1.
  abbrev pub IsDraw : Float → Type 0
  IsDraw r = (fle (lit 0 1) r ≡ true) × (fle r (lit 1 1) ≡ true)

  rounded_above :
      (decimals : Decimals) (g : Gas) (r : Float)
      → IsDraw r
      → fle
          (danger_base fl g)
          (fround (fadd (danger_base fl g) (fmul r (danger_span fl g))) (digits g))
        ≡ true
  rounded_above decimals g r draw =
      let kept = decimals.round_mono _ _ (digits g) (decimals.grows g r draw.0) in
      rw (decimals.fixed g) at kept

  oxygen_below :
      (decimals : Decimals) (r : Float)
      → IsDraw r
      → flt (fround (fadd (lit 12 1) (fmul r (lit 35 10))) 1) (lit 16 1) ≡ true
  oxygen_below decimals r draw =
      let kept = decimals.round_mono _ _ 1 (decimals.at_most r draw.1) in
      decimals.below _ (rw (decimals.fixed_top) at kept)

  classify_single :
      (key : String) (v : Float)
      → gas_step fl Status.normal key (some v) ≡ none
      → classify_gas fl ((key, some v) ∷ []) ≡ Status.danger
  unfolding classify_gas classify_gas_from
  classify_single key v h = rw (h, classify_gas_from) refl

  gas_step_danger :
      (decimals : Decimals) (draw : ℕ → Float) (st : SimState fl)
      → ((n : ℕ) → IsDraw (draw n))
      → (g : Gas)
      → gas_step fl Status.normal (key_of g) (some ((generate_gas fl draw "danger" st).1 g)) ≡ none
  unfolding generate_gas gas_step gas_thresholds
  gas_step_danger decimals draw st drawn co =
      rw (rounded_above decimals co _ (drawn (place co))) refl
  gas_step_danger decimals draw st drawn h2s =
      rw (rounded_above decimals h2s _ (drawn (place h2s))) refl
  gas_step_danger decimals draw st drawn co2 =
      rw (rounded_above decimals co2 _ (drawn (place co2))) refl
  gas_step_danger decimals draw st drawn no2 =
      rw (← decimals.five, rounded_above decimals no2 _ (drawn (place no2))) refl
  gas_step_danger decimals draw st drawn so2 =
      rw (← decimals.five, rounded_above decimals so2 _ (drawn (place so2))) refl
  gas_step_danger decimals draw st drawn o3 =
      rw (rounded_above decimals o3 _ (drawn (place o3))) refl
  gas_step_danger decimals draw st drawn nh3 =
      rw (rounded_above decimals nh3 _ (drawn (place nh3))) refl
  gas_step_danger decimals draw st drawn voc =
      rw (← decimals.two, rounded_above decimals voc _ (drawn (place voc))) refl
  gas_step_danger decimals draw st drawn o2 = rw (oxygen_below decimals _ (drawn (place o2))) refl

  -- In the danger mode each of the nine gases, alone, makes the status of a reading danger, if the
  -- draws lie between 0 and 1 and the arithmetic is that of the decimals named here.
  pub generate_gas_danger-classify_gas :
      (decimals : Decimals) (draw : ℕ → Float) (st : SimState fl)
      → ((n : ℕ) → IsDraw (draw n))
      → (g : Gas)
      → classify_gas fl ((key_of g, some ((generate_gas fl draw "danger" st).1 g)) ∷ [])
        ≡ Status.danger
  generate_gas_danger-classify_gas decimals draw st drawn g =
      classify_single (key_of g) _ (gas_step_danger decimals draw st drawn g)
