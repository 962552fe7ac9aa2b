-- ===== src/Generator/Readings/Ranges.antt =====
-- The ranges of the values and of the counters.
use sen_sa.Prelude.{
  ℕ, ◌+◌, ◌≤◌, ◌≡◌, refl, true, false, some, List, [], ◌∷◌, String, arith, ltb, Bool-cases, inl,
  inr, if_cases, if_ind,
}
use sen_sa.Prelude.Float.{FloatOps}
use sen_sa.Prelude.Text.{str_eq}
use sen_sa.Generator.Readings.{
  Gas, co, h2s, co2, o2, no2, so2, o3, nh3, voc, eventful_gases, event_duration, digits, Events,
  with_event, lowest, highest, event_prob, fmax, fmin, ou_step, SimState, is_active, drift,
  count_down, trigger, generate_gas, same_gas,
}

-- No counter is above the duration of its event, and a gas without an event counts nothing.
abbrev pub IsCounted : Events → Type 0
IsCounted events = (g : Gas) → events g ≤ event_duration g

same_duration : (g h : Gas) → same_gas g h ≡ true → event_duration g ≤ event_duration h
same_duration co co e = omega arith
same_duration h2s h2s e = omega arith
same_duration co2 co2 e = omega arith
same_duration o2 o2 e = omega arith
same_duration no2 no2 e = omega arith
same_duration so2 so2 e = omega arith
same_duration o3 o3 e = omega arith
same_duration nh3 nh3 e = omega arith
same_duration voc voc e = omega arith
same_duration _ _ e = cc

with_event-IsCounted :
    (events : Events) (g : Gas)
    → IsCounted events
    → IsCounted (with_event events g (event_duration g))
with_event-IsCounted events g h k =
    if_cases (λ n. n ≤ event_duration k) (same_gas g k) (same_duration g k) (λ e. h k)

module _ (fl : FloatOps) where
  open fl use {Float, flt, fle, lit, fround}

  -- What is relied on of the order: a number below another is at most it, the bounds of a gas are
  -- numbers in order, and what is rounded to the digits of a gas stays between them.
  pub record Order : Type 0 where
    pub below : (a b : Float) → flt a b ≡ true → fle a b ≡ true
    pub same_low : (g : Gas) → fle (lowest fl g) (lowest fl g) ≡ true
    pub same_high : (g : Gas) → fle (highest fl g) (highest fl g) ≡ true
    pub bounds : (g : Gas) → fle (lowest fl g) (highest fl g) ≡ true
    pub round_above :
        (g : Gas) (x : Float)
        → fle (lowest fl g) x ≡ true
        → fle (lowest fl g) (fround x (digits g)) ≡ true
    pub round_below :
        (g : Gas) (x : Float)
        → fle x (highest fl g) ≡ true
        → fle (fround x (digits g)) (highest fl g) ≡ true

  count_down-IsCounted :
      (mode : String) (events : Events) → IsCounted events → IsCounted (count_down fl mode events)
  count_down-IsCounted mode events h k =
      if_ind (λ n. n ≤ event_duration k) (is_active fl mode events k) (omega (arith, h k)) (h k)

  trigger-IsCounted :
      (draw : ℕ → Float) (used : ℕ) (gases : List Gas) (events : Events)
      → IsCounted events
      → IsCounted (trigger fl draw used gases events)
  unfolding trigger
  trigger-IsCounted draw used [] events h = h
  trigger-IsCounted draw used (g ∷ rest) events h = elim (Bool-cases (ltb 0 (events g))) [
    | inl e ↦ rw (e, trigger) (trigger-IsCounted draw used rest events h)
    | inr e ↦
        rw (e, trigger)
          (trigger-IsCounted draw (used + 1) rest _ (
            if_ind IsCounted (flt (draw used) (event_prob fl g)) (with_event-IsCounted events g h)
              h))
  ]

  -- The value of a gas lies between the gas's bounds.
  abbrev pub IsInRange : (Gas → Float) → Type 0
  IsInRange values =
      (g : Gas) → (fle (lowest fl g) (values g) ≡ true) × (fle (values g) (highest fl g) ≡ true)

  clamp-IsBetween :
      (order : Order) (g : Gas) (x : Float)
      → let y = fmin fl (highest fl g) (fmax fl (lowest fl g) x) in
        (fle (lowest fl g) y ≡ true) × (fle y (highest fl g) ≡ true)
  clamp-IsBetween order g x =
      let low : fle (lowest fl g) (fmax fl (lowest fl g) x) ≡ true =
        if_cases (λ y. fle (lowest fl g) y ≡ true) (flt (lowest fl g) x)
          (order.below (lowest fl g) x) (λ e. order.same_low g) in
      if_cases (λ y. (fle (lowest fl g) y ≡ true) × (fle y (highest fl g) ≡ true))
        (flt (fmax fl (lowest fl g) x) (highest fl g))
        (λ e. (low, order.below (fmax fl (lowest fl g) x) (highest fl g) e))
        (λ e. (order.bounds g, order.same_high g))

  -- Outside the danger mode, whatever is drawn and whatever the last values were, a tick gives each
  -- gas a value between the bounds of its sensor, which is what the next tick starts from; and no
  -- counter of an event goes above the event's duration, if none was. A number below another is
  -- taken to be at most it, and rounding to keep to the bounds.
  pub generate_gas-IsInRange :
      (order : Order) (draw : ℕ → Float) (mode : String) (st : SimState fl)
      → IsCounted st.events
      → str_eq mode "danger" ≡ false
      → let r = generate_gas fl draw mode st in
        IsInRange r.1 × (r.0.last_gas ≡ some r.1) × IsCounted r.0.events
  unfolding generate_gas drift ou_step
  generate_gas-IsInRange order draw mode st counted calm = rw calm (
    λ g.
        let (low, high) = clamp-IsBetween order g _ in
        (order.round_above g _ low, order.round_below g _ high),
    refl,
    if_ind IsCounted (str_eq mode "mixed")
        (trigger-IsCounted draw 18 eventful_gases _ (count_down-IsCounted mode st.events counted))
        (count_down-IsCounted mode st.events counted),
  )
