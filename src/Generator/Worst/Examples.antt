-- ===== src/Generator/Worst/Examples.antt =====
-- The worst gas of a reading, and what the back office changes.
use sen_sa.Prelude.{
  ℕ, ◌≡◌, refl, true, false, none, some, List, [], ◌∷◌, All, String, ltb, leb, arith,
}
use sen_sa.Prelude.Text.{strip_prefix}
use sen_sa.Prelude.Float.{FloatOps}
use sen_sa.Prelude.Sample.{naturals}
use sen_sa.Alerts.Types.{Status}
use sen_sa.Alerts.Classify.{classify_gas, gas_thresholds}
use sen_sa.Generator.Worst.{
  Entry, Limit, apply_thresholds, gas_limits, candidates, weigh, identify_worst_gas,
}
use sen_sa.Generator.Worst.Agreement.{HasFinite, Numbers, posted, identify_worst_gas-classify_gas}

-- Over the naturals -1 is 0; each score is 1.
abbrev scores_one : FloatOps
scores_one = record naturals { fdiv = λ a b. 1 }

abbrev entry : Entry ℕ
entry = record { item_code = ""; operator = "over"; caution = some 5; danger = some 9 }

-- Of three entries the one of another category and the one with an unknown operator are left out.
one_is_applied :
    (apply_thresholds
      (some (
        ("TH_GAS.co", entry)
        ∷ ("TH_POWER.watt", entry)
        ∷ ("TH_GAS.h2s", record entry { operator = "near" })
        ∷ []))
      (gas_limits scores_one)).1
    ≡ 1
unfolding apply_thresholds strip_prefix
one_is_applied = refl

worst_is_co :
    identify_worst_gas scores_one
      (gas_limits scores_one)
      (("o2", 20) ∷ ("co", 30) ∷ ("h2s", 60) ∷ [])
    ≡ some ("co", 30)
unfolding identify_worst_gas weigh gas_limits
worst_is_co = refl

below_both :
    (key : String) (c d v : ℕ)
    → gas_thresholds scores_one key ≡ some (c, d)
    → ltb v c ≡ true
    → (leb c v ≡ false) × (leb d v ≡ false)
unfolding gas_thresholds
below_both key c d v e h = ground arith

between :
    (v : ℕ)
    → ltb 18 v ≡ true
    → ltb v 21 ≡ true
    → (ltb v 16 ≡ false) × (leb 23 v ≡ false) × (ltb v 18 ≡ false) × (ltb 21 v ≡ false)
between v h k = ground arith

have_finite : (ls : List (Limit ℕ)) → All (HasFinite scores_one (λ a. true)) ls
have_finite [] = tt
have_finite (l ∷ rest) = ((refl, refl, refl), have_finite rest)

limits_finite :
    (key : String)
    → All (HasFinite scores_one (λ a. true)) (candidates scores_one (gas_limits scores_one) key)
limits_finite key = have_finite (candidates scores_one (gas_limits scores_one) key)

numbers : Numbers scores_one
numbers = record {
  is_finite = λ a. true;
  limits_finite = limits_finite;
  scored = λ a b w fa fb fw e. refl;
  below_both = below_both;
  between = between;
}

nothing_named :
    identify_worst_gas scores_one (gas_limits scores_one) (("o2", 20) ∷ ("co", 24) ∷ []) ≡ none
unfolding identify_worst_gas weigh gas_limits
nothing_named = refl

identify_worst_gas-classify_gas_example :
    classify_gas scores_one (posted scores_one (("o2", 20) ∷ ("co", 24) ∷ [])) ≡ Status.normal
unfolding numbers
identify_worst_gas-classify_gas_example =
    identify_worst_gas-classify_gas scores_one numbers (("o2", 20) ∷ ("co", 24) ∷ [])
      (refl, (refl, tt)) nothing_named
