-- ===== src/Backoffice/Cleanup/Sweep.antt =====
-- What a run of cleanup_data deletes.
use sen_sa.Prelude.{
  ℕ, ◌≡◌, refl, ap, ◌∙◌, inl, inr, arith, Bool-cases, Bool, true, false, not, ◌&&◌, ◌||◌, List, [],
  ◌∷◌, String, any, select,
}
use sen_sa.Prelude.Text.{str_eq}
use sen_sa.Backoffice.Cleanup.{
  Stamped, RetentionPolicy, Archive, has_model, is_outdated, resolve_qs, is_chosen, apply_policy,
  cleanup_data,
}

-- A policy that is chosen and has a model deletes the rows of its target that it outlives.
abbrev is_deleted_by : (now : ℕ) → (only_target target : String) → Stamped → RetentionPolicy → Bool
is_deleted_by now only_target target row policy =
    is_chosen only_target policy
    && (has_model policy.target && (str_eq policy.target target && is_outdated now policy row))

select-select :
    {A : Type 0} (f g : A → Bool) (xs : List A)
    → select (λ x. not (g x)) (select (λ x. not (f x)) xs) ≡ select (λ x. not (f x || g x)) xs
select-select f g [] = refl
select-select f g (x ∷ xs) = ground (arith, select-select f g xs)

select-all : {A : Type 0} (xs : List A) → xs ≡ select (λ x. not false) xs
select-all [] = refl
select-all (x ∷ xs) = ap (◌∷◌ x) (select-all xs)

-- The rows that one policy leaves of a table.
apply_policy-kept :
    (now : ℕ) (policy : RetentionPolicy) (tables : Archive) (target : String)
    → (apply_policy now false policy tables).tables target
      ≡ select
          (λ row. not (
            has_model policy.target && (str_eq policy.target target && is_outdated now policy row)))
          (tables target)
unfolding apply_policy resolve_qs
apply_policy-kept now policy tables target = elim (Bool-cases (has_model policy.target)) [
  | inr e ↦ rw (e, apply_policy, resolve_qs) (select-all (tables target))
  | inl e ↦ elim (Bool-cases (str_eq policy.target target)) [
    | inr other ↦ rw (e, other, apply_policy, resolve_qs) (select-all (tables target))
    | inl same ↦ rw (e, same, apply_policy, resolve_qs) refl
  ]
]

-- A run leaves of each table exactly the rows that no chosen policy deletes.
pub cleanup_data-kept :
    (now : ℕ) (only_target : String) (policies : List RetentionPolicy) (tables : Archive)
    (target : String)
    → (cleanup_data now false only_target policies tables).tables target
      ≡ select
          (λ row. not (any (is_deleted_by now only_target target row) policies))
          (tables target)
unfolding cleanup_data
cleanup_data-kept now only_target [] tables target = select-all (tables target)
cleanup_data-kept now only_target (policy ∷ rest) tables target =
    elim (Bool-cases (is_chosen only_target policy)) [
      | inr e ↦ rw (e, cleanup_data) (cleanup_data-kept now only_target rest tables target)
      | inl e ↦
          let turn = apply_policy now false policy tables in
          rw (e, cleanup_data)
            (cleanup_data-kept now only_target rest turn.tables target
              ∙ ap (select (λ row. not (any (is_deleted_by now only_target target row) rest)))
                  (apply_policy-kept now policy tables target)
              ∙ select-select _ _ (tables target))
    ]

-- A dry run of one policy changes nothing.
apply_policy-dry :
    (now : ℕ) (policy : RetentionPolicy) (tables : Archive)
    → ((apply_policy now true policy tables).tables ≡ tables)
      × ((apply_policy now true policy tables).policy ≡ policy)
      × ((apply_policy now true policy tables).deleted ≡ 0)
unfolding apply_policy resolve_qs
apply_policy-dry now policy tables = elim (Bool-cases (has_model policy.target)) [
  | inr e ↦ rw (e, apply_policy, resolve_qs) (refl, refl, refl)
  | inl e ↦ rw (e, apply_policy, resolve_qs) (refl, refl, refl)
]

-- A dry run changes no table and no policy, and it counts no deletion.
cleanup_data-dry :
    (now : ℕ) (only_target : String) (policies : List RetentionPolicy) (tables : Archive)
    → ((cleanup_data now true only_target policies tables).tables ≡ tables)
      × ((cleanup_data now true only_target policies tables).policies ≡ policies)
      × ((cleanup_data now true only_target policies tables).total_deleted ≡ 0)
unfolding cleanup_data
cleanup_data-dry now only_target [] tables = (refl, refl, refl)
cleanup_data-dry now only_target (policy ∷ rest) tables =
    elim (Bool-cases (is_chosen only_target policy)) [
      | inr e ↦
          let (same, kept, none_gone) = cleanup_data-dry now only_target rest tables in
          rw (e, cleanup_data) (same, ap (◌∷◌ policy) kept, none_gone)
      | inl e ↦
          let turn = apply_policy now true policy tables in
          let (t_same, t_kept, t_none) = apply_policy-dry now policy tables in
          let (same, kept, none_gone) = cleanup_data-dry now only_target rest turn.tables in
          rw (e, cleanup_data) (same ∙ t_same, cc, omega arith)
    ]
