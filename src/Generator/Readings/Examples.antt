-- ===== src/Generator/Readings/Examples.antt =====
-- A sensor's ticks over the naturals, and the theorems on them.
use sen_sa.Prelude.{ℕ, ◌+◌, ◌*◌, ◌≡◌, refl, true, none, some, [], ◌∷◌, arith, leb, ltb}
use sen_sa.Prelude.Sample.{naturals, root}
use sen_sa.Alerts.Types.{Status}
use sen_sa.Alerts.Classify.{classify_gas}
use sen_sa.Generator.Readings.{
  Gas, co, o2, voc, key_of, lowest, highest, SimState, trigger, drift, generate_gas,
}
use sen_sa.Generator.Readings.Ranges.{Order, IsCounted, IsInRange, generate_gas-IsInRange}
use sen_sa.Generator.Readings.Danger.{Decimals, generate_gas_danger-classify_gas}

abbrev first_tick : SimState naturals
first_tick = record { last_gas = none; events = λ g. 0 }

same_number : (n : ℕ) → leb n n ≡ true
same_number n = ground arith

number_below : (a b : ℕ) → ltb a b ≡ true → leb a b ≡ true
number_below a b h = ground arith

in_order : (g : Gas) → leb (lowest naturals g) (highest naturals g) ≡ true
in_order co = refl
in_order _ = refl

order : Order naturals
order = record {
  below = number_below;
  same_low = λ g. same_number (lowest naturals g);
  same_high = λ g. same_number (highest naturals g);
  bounds = in_order;
  round_above = λ g x h. h;
  round_below = λ g x h. h;
}

only_adds : (a b : ℕ) → leb a (a + b) ≡ true
only_adds a b = ground arith

span_of_oxygen : (r : ℕ) → leb r 1 ≡ true → leb (12 + r * 3) 15 ≡ true
span_of_oxygen r h = ground arith

below_sixteen : (x : ℕ) → leb x 15 ≡ true → ltb x 16 ≡ true
below_sixteen x h = ground arith

decimals : Decimals naturals
decimals = record {
  grows = λ g r h. only_adds _ _;
  round_mono = λ x y n h. h;
  fixed = λ g. refl;
  fixed_top = refl;
  at_most = span_of_oxygen;
  below = below_sixteen;
  five = refl;
  two = refl;
}

-- A probability of 1 / 45 is 0 over the naturals, and no draw is below it.
no_event_starts : (generate_gas naturals (λ n. 0) "mixed" first_tick).0.events voc ≡ 0
unfolding generate_gas trigger drift root
no_event_starts = refl

generate_gas-IsInRange_example :
    let r = generate_gas naturals (λ n. 0) "mixed" first_tick in
    IsInRange naturals r.1 × (r.0.last_gas ≡ some r.1) × IsCounted r.0.events
generate_gas-IsInRange_example =
    generate_gas-IsInRange naturals order (λ n. 0) "mixed" first_tick (λ g. omega arith) refl

generate_gas_danger-classify_gas_example :
    classify_gas naturals
      ((key_of o2, some ((generate_gas naturals (λ n. 1) "danger" first_tick).1 o2)) ∷ [])
    ≡ Status.danger
generate_gas_danger-classify_gas_example =
    generate_gas_danger-classify_gas naturals decimals (λ n. 1) first_tick (λ n. (refl, refl)) o2
