-- ===== src/Backoffice/Users.antt =====
-- SenSa/backoffice/views/users.py: the three calls that change several users at once, behind their
-- gates. The ids of the request are the values of a JSON list: numbers, which Python compares with
-- the requester's id, or texts, which it does not, but which Django's query turns into numbers.
pub mod Own
pub mod Examples
use sen_sa.Prelude.{
  ℕ, suc, Bool, true, false, not, ◌&&◌, Option, none, some, List, [], ◌∷◌, String, ◌==◌, any,
  select, length, if◌then◌else◌,
}
use sen_sa.Backoffice.Dispatch.Tables.{Account}

pub data JsonId : Type 0 where
  number : ℕ → JsonId
  text : String → JsonId

-- What a call answers: how many rows it changed, 400, or the 500 of an id that is no number.
pub data Answer : Type 0 where
  changed : ℕ → Answer
  no_ids own_account : Answer
  server_error : Answer

-- `request.user.id in ids`
abbrev pub lists_own : (own : ℕ) → List JsonId → Bool
lists_own own [] = false
lists_own own (number n ∷ rest) = if n == own then true else lists_own own rest
lists_own own (text s ∷ rest) = lists_own own rest

-- The numbers of `filter(id__in=ids)`; `int_of` is the query's `int`.
unfoldable pub id_numbers : (int_of : String → Option ℕ) → List JsonId → Option (List ℕ)
id_numbers int_of [] = some []
id_numbers int_of (number n ∷ rest) = elim (id_numbers int_of rest) [
  | none ↦ none
  | some more ↦ some (n ∷ more)
]
id_numbers int_of (text s ∷ rest) = elim (id_numbers int_of rest) [
  | none ↦ none
  | some more ↦ elim (int_of s) [ none ↦ none | some n ↦ some (n ∷ more) ]
]

abbrev pub is_among : List ℕ → Account → Bool
is_among ids user = any (λ n. n == user.id) ids

abbrev pub is_empty : List JsonId → Bool
is_empty [] = true
is_empty (x ∷ xs) = false

-- `update` of the users that a test selects, with their number
unfoldable pub update_where :
    (test : Account → Bool) → (change : Account → Account) → List Account → List Account × ℕ
update_where test change [] = ([], 0)
update_where test change (user ∷ rest) =
    let (after, n) = update_where test change rest in
    if test user then (change user ∷ after, suc n) else (user ∷ after, n)

abbrev pub locked : Account → Account
locked user = record user { is_locked = true }

abbrev pub unlocked : Account → Account
unlocked user = record user { is_locked = false }

module _ (int_of : String → Option ℕ) (own : ℕ) where
  -- The rows that the deletion of a user takes with it are not counted here.
  unfoldable pub user_bulk_delete : List JsonId → List Account → List Account × Answer
  unfolding id_numbers
  user_bulk_delete ids users =
      if is_empty ids
      then (users, no_ids)
      else if lists_own own ids
      then (users, own_account)
      else elim (id_numbers int_of ids) [
        | none ↦ (users, server_error)
        | some numbers ↦ (
          select (λ user. not (is_among numbers user)) users,
          changed (length (select (is_among numbers) users)),
        )
      ]

  unfoldable pub user_bulk_lock : List JsonId → List Account → List Account × Answer
  unfolding id_numbers update_where
  user_bulk_lock ids users =
      if is_empty ids
      then (users, no_ids)
      else if lists_own own ids
      then (users, own_account)
      else elim (id_numbers int_of ids) [
        | none ↦ (users, server_error)
        | some numbers ↦
            let (after, n) =
              update_where (λ user. is_among numbers user && user.is_active) locked users in
            (after, changed n)
      ]

  unfoldable pub user_bulk_unlock : List JsonId → List Account → List Account × Answer
  unfolding id_numbers update_where
  user_bulk_unlock ids users =
      if is_empty ids then (users, no_ids) else elim (id_numbers int_of ids) [
        | none ↦ (users, server_error)
        | some numbers ↦
            let (after, n) = update_where (is_among numbers) unlocked users in (after, changed n)
      ]
