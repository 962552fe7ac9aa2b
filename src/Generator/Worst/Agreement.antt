-- ===== src/Generator/Worst/Agreement.antt =====
-- The gas that the generator names and the status that the POST gives.
use sen_sa.Prelude.{
  ◌≡◌, ◌≢◌, refl, ◌⊎◌, Bool, true, false, Option, none, some, List, [], ◌∷◌, String, arith, All,
  Bool-cases, Option-cases, inl, inr,
}
use sen_sa.Prelude.Float.{FloatOps}
use sen_sa.Prelude.Text.{str_eq, eq_iff}
use sen_sa.Alerts.Types.{Status}
use sen_sa.Alerts.Classify.{gas_thresholds, gas_step, classify_gas_from, classify_gas}
use sen_sa.Generator.Readings.{fmax}
use sen_sa.Generator.Worst.{
  Operator, over, under, Limit, Limits, gas_limits, listed, candidates, score_by, Worst, weigh,
  worst_from, identify_worst_gas,
}

module _ (fl : FloatOps) where
  open fl use {Float, flt, fle, fsub, fdiv, lit}

  abbrev minus_one : Float
  minus_one = fsub (lit 0 1) (lit 1 1)

  -- Of a limit its two numbers and their differences are finite.
  abbrev pub HasFinite : (Float → Bool) → Limit Float → Type 0
  HasFinite is_finite l =
      (is_finite l.caution ≡ true)
      × (is_finite (fsub l.danger l.caution) ≡ true)
      × (is_finite (fsub l.caution l.danger) ≡ true)

  -- What is relied on of the numbers, with `math.isfinite`: the limits are finite; the quotient of a
  -- difference of finite numbers that is not negative and of a finite number, raised to 0.001 at
  -- least, is above -1; what is below a gas's
  -- threshold for caution is at neither threshold; oxygen between its thresholds for caution is
  -- beyond none of its four.
  pub record Numbers : Type 0 where
    pub is_finite : Float → Bool
    pub limits_finite :
        (key : String) → All (HasFinite is_finite) (candidates fl (gas_limits fl) key)
    pub scored :
        (a b w : Float)
        → is_finite a ≡ true
        → is_finite b ≡ true
        → is_finite w ≡ true
        → flt a b ≡ false
        → flt minus_one (fdiv (fsub a b) (fmax fl w (lit 1 1000))) ≡ true
    pub below_both :
        (key : String) (c d v : Float)
        → gas_thresholds fl key ≡ some (c, d)
        → flt v c ≡ true
        → (fle c v ≡ false) × (fle d v ≡ false)
    pub between :
        (v : Float)
        → flt (lit 18 1) v ≡ true
        → flt v (lit 215 10) ≡ true
        → (flt v (lit 16 1) ≡ false)
          × (fle (lit 235 10) v ≡ false)
          × (flt v (lit 18 1) ≡ false)
          × (flt (lit 215 10) v ≡ false)

  -- A gas that was named stays named.
  weigh-named :
      (key : String) (v : Float) (ls : List (Limit Float)) (worst : Worst fl)
      → worst.named ≢ none
      → (weigh fl key v ls worst).named ≢ none
  unfolding weigh
  weigh-named key v [] worst h = h
  weigh-named key v (l ∷ rest) worst h = weigh-named key v rest _ (ground arith)

  abbrev IsPassed : Float → Limit Float → Type 0
  IsPassed v l = score_by fl l.operator l.caution l.danger v ≡ none

  score_by-above :
      (numbers : Numbers) (op : Operator) (c d v : Float) {score : Float}
      → (numbers.is_finite c ≡ true)
        × (numbers.is_finite (fsub d c) ≡ true)
        × (numbers.is_finite (fsub c d) ≡ true)
      → numbers.is_finite v ≡ true
      → score_by fl op c d v ≡ some score
      → flt minus_one score ≡ true
  unfolding score_by
  score_by-above numbers over c d v (fc, up, down) fv h = elim (Bool-cases (flt v c)) [
    | inl e ↦ ground arith
    | inr e ↦ ground (arith, numbers.scored v c (fsub d c) fv fc up e)
  ]
  score_by-above numbers under c d v (fc, up, down) fv h = elim (Bool-cases (flt c v)) [
    | inl e ↦ ground arith
    | inr e ↦ ground (arith, numbers.scored c v (fsub c d) fc fv down e)
  ]

  abbrev nothing : Worst fl
  nothing = record { score = minus_one; named = none }

  -- Where no gas is named, every candidate was passed over.
  weigh-IsPassed :
      (numbers : Numbers) (key : String) (v : Float) (ls : List (Limit Float))
      → numbers.is_finite v ≡ true
      → All (HasFinite numbers.is_finite) ls
      → (weigh fl key v ls nothing).named ≡ none
      → All (IsPassed v) ls × (weigh fl key v ls nothing ≡ nothing)
  unfolding weigh
  weigh-IsPassed numbers key v [] fv finite h = (tt, refl)
  weigh-IsPassed numbers key v (l ∷ rest) fv finite h =
      elim (Option-cases (score_by fl l.operator l.caution l.danger v)) [
        | inl e ↦
            let (passed, same) =
              weigh-IsPassed numbers key v rest fv finite.1 (rw (e, weigh) at h) in
            ((e, passed), rw (e, weigh) same)
        | inr (score, e) ↦
            let above = score_by-above numbers l.operator l.caution l.danger v finite.0 fv e in
            absurd (
              weigh-named key v rest (record { score = score; named = some (key, v) }) (λ n. cc)
                (rw (e, weigh, above) at h))
      ]

  -- Away from oxygen the generator's limits are the classifier's thresholds.
  limits_agree :
      (key : String)
      → str_eq key "o2" ≡ false
      → (gas_thresholds fl key ≡ none)
        ⊎ ((c : Float) × (d : Float) × (gas_thresholds fl key ≡ some (c, d))
            × (gas_limits fl key ≡ some (record { operator = over; caution = c; danger = d })))
  unfolding gas_thresholds gas_limits
  limits_agree key n0 = elim (Bool-cases (str_eq key "o2_high")) [
    | inl e ↦ inl (rw ((eq_iff key "o2_high").0 e) refl)
    | inr n1 ↦ elim (Option-cases (gas_thresholds fl key)) [
      | inl e ↦ inl e
      | inr ((c, d), e) ↦ inr (c, d, e, ground arith)
    ]
  ]

  -- A gas other than oxygen whose candidates are passed over is normal.
  other_passed :
      (numbers : Numbers) (key : String) (v : Float)
      → str_eq key "o2" ≡ false
      → All (IsPassed v) (listed fl (gas_limits fl key))
      → gas_step fl Status.normal key (some v) ≡ some Status.normal
  unfolding gas_step score_by
  other_passed numbers key v n0 passed = elim (limits_agree key n0) [
    | inl e ↦ rw (n0, e, gas_step) refl
    | inr (c, d, e, l) ↦
        let p : All (IsPassed v)
            (listed fl (some (record { operator = over; caution = c; danger = d }))) =
          rw l at passed in
        let below : flt v c ≡ true = ground arith in
        let (low, high) = numbers.below_both key c d v e below in
        rw (n0, e, gas_step, low, high) refl
  ]

  oxygen_passed :
      (numbers : Numbers) (v : Float)
      → All (IsPassed v) (candidates fl (gas_limits fl) "o2")
      → gas_step fl Status.normal "o2" (some v) ≡ some Status.normal
  unfolding gas_step score_by gas_limits
  oxygen_passed numbers v passed =
      let above : flt (lit 18 1) v ≡ true = ground arith in
      let below : flt v (lit 215 10) ≡ true = ground arith in
      let (a, b, c, d) = numbers.between v above below in rw (a, b, c, d) refl

  gas_step_passed :
      (numbers : Numbers) (key : String) (v : Float)
      → All (IsPassed v) (candidates fl (gas_limits fl) key)
      → gas_step fl Status.normal key (some v) ≡ some Status.normal
  gas_step_passed numbers key v passed = elim (Bool-cases (str_eq key "o2")) [
    | inl e ↦
        let same : key ≡ "o2" = (eq_iff key "o2").0 e in
        rw same (oxygen_passed numbers v (rw same at passed))
    | inr n0 ↦ other_passed numbers key v n0 (rw n0 at passed)
  ]

  worst_from-named :
      (limits : Limits Float) (gas : List (String × Float)) (worst : Worst fl)
      → worst.named ≢ none
      → (worst_from fl limits gas worst).named ≢ none
  unfolding worst_from
  worst_from-named limits [] worst h = h
  worst_from-named limits ((key, v) ∷ rest) worst h =
      worst_from-named limits rest _ (weigh-named key v (candidates fl limits key) worst h)

  -- The reading as it is posted: each gas has a value.
  abbrev pub posted : List (String × Float) → List (String × Option Float)
  posted [] = []
  posted ((key, v) ∷ rest) = (key, some v) ∷ posted rest

  -- Every value of a reading is finite.
  abbrev pub AreFinite : Numbers → List (String × Float) → Type 0
  AreFinite numbers [] = Unit
  AreFinite numbers ((key, v) ∷ rest) = (numbers.is_finite v ≡ true) × AreFinite numbers rest

  classify_gas_from_unnamed :
      (numbers : Numbers) (gas : List (String × Float))
      → AreFinite numbers gas
      → (worst_from fl (gas_limits fl) gas nothing).named ≡ none
      → classify_gas_from fl Status.normal (posted gas) ≡ Status.normal
  unfolding worst_from classify_gas_from
  classify_gas_from_unnamed numbers [] finite h = refl
  classify_gas_from_unnamed numbers ((key, v) ∷ rest) (fv, finite) h =
      let ls = candidates fl (gas_limits fl) key in
      elim (Option-cases (weigh fl key v ls nothing).named) [
        | inl e ↦
            let (passed, same) = weigh-IsPassed numbers key v ls fv (numbers.limits_finite key) e in
            let later : (worst_from fl (gas_limits fl) rest (weigh fl key v ls nothing)).named
                ≡ none =
              h in
            rw (gas_step_passed numbers key v passed, classify_gas_from)
              (classify_gas_from_unnamed numbers rest finite (rw same at later))
        | inr (named, e) ↦
            absurd (worst_from-named (gas_limits fl) rest (weigh fl key v ls nothing) (λ n. cc) h)
      ]

  -- A reading of finite numbers of which the generator names no gas is normal for the POST: with the
  -- generator's own thresholds, and the order and the quotients that `Numbers` names.
  pub identify_worst_gas-classify_gas :
      (numbers : Numbers) (gas : List (String × Float))
      → AreFinite numbers gas
      → identify_worst_gas fl (gas_limits fl) gas ≡ none
      → classify_gas fl (posted gas) ≡ Status.normal
  unfolding identify_worst_gas classify_gas
  identify_worst_gas-classify_gas numbers gas finite h =
      classify_gas_from_unnamed numbers gas finite h
