-- ===== src/Backoffice/Backup/Deletion.antt =====
-- When the deletion of a table ends.
use sen_sa.Prelude.{
  ℕ, zero, suc, ◌+◌, ◌≤◌, ◌<◌, ◌≡◌, refl, ap, Bool, not, none, some, List, [], ◌∷◌, ◌++◌, map,
  arith, ◌==◌, any, select, take, length, length-append,
}
use sen_sa.Backoffice.Backup.{Row, without, delete_loop}

length-select : {A : Type 0} (p : A → Bool) (xs : List A) → length (select p xs) ≤ length xs
length-select p [] = omega arith
length-select p (x ∷ xs) = ground (arith, length-select p xs)

-- The row whose id is deleted first is gone.
length-without :
    (row : Row) (ids : List ℕ) (rows : List Row)
    → length (without (row.id ∷ ids) (row ∷ rows)) ≤ length rows
length-without row ids rows =
    ground (arith, length-select (λ r. not (any (λ n. n == r.id) (row.id ∷ ids))) rows)

-- What is still to come in the `k` rounds from `round` on: the rounds and their rows.
abbrev pub to_come : (arrivals : ℕ → List Row) → (k round : ℕ) → ℕ
to_come arrivals zero round = 0
to_come arrivals (suc k) round = suc (length (arrivals round) + to_come arrivals k (suc round))

module _ (c : ℕ) (arrivals : ℕ → List Row) where
  -- With fuel for the rows and for all that is to come, the loop leaves nothing.
  pub delete_loop-ends :
      (fuel k round : ℕ) (rows : List Row) (total : ℕ)
      → ((r : ℕ) → round + k ≤ r → arrivals r ≡ [])
      → length rows + to_come arrivals k round < fuel
      → (t : ℕ) × (delete_loop (suc c) arrivals fuel round rows total ≡ some ([], t))
  unfolding delete_loop
  delete_loop-ends zero k round rows total quiet enough = absurd (omega arith)
  delete_loop-ends (suc fuel) k round [] total quiet enough = (total, refl)
  delete_loop-ends (suc fuel) zero round (row ∷ rows) total quiet enough =
      let ids = map (λ (r : Row). r.id) (take c rows) in
      let left = without (row.id ∷ ids) (row ∷ rows) in
      delete_loop-ends fuel 0 (suc round) (left ++ arrivals round) _ (λ r h. quiet r (omega arith))
        (omega (
          arith,
          length-append left (arrivals round),
          ap length (quiet round (omega arith)),
          length-without row ids rows,
        ))
  delete_loop-ends (suc fuel) (suc k) round (row ∷ rows) total quiet enough =
      let ids = map (λ (r : Row). r.id) (take c rows) in
      let left = without (row.id ∷ ids) (row ∷ rows) in
      delete_loop-ends fuel k (suc round) (left ++ arrivals round) _ (λ r h. quiet r (omega arith))
        (omega (arith, length-append left (arrivals round), length-without row ids rows))

  -- While every round brings a row, it never ends.
  pub delete_loop-runs :
      (fuel round : ℕ) (rows : List Row) (total : ℕ)
      → ((r : ℕ) → 0 < length (arrivals r))
      → 0 < length rows
      → delete_loop (suc c) arrivals fuel round rows total ≡ none
  unfolding delete_loop
  delete_loop-runs zero round rows total busy some_left = refl
  delete_loop-runs (suc fuel) round [] total busy some_left = absurd (omega arith)
  delete_loop-runs (suc fuel) round (row ∷ rows) total busy some_left =
      let ids = map (λ (r : Row). r.id) (take c rows) in
      let left = without (row.id ∷ ids) (row ∷ rows) in
      delete_loop-runs fuel (suc round) (left ++ arrivals round) _ busy
        (omega (arith, length-append left (arrivals round), busy round))
