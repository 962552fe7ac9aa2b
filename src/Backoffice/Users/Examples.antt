-- ===== src/Backoffice/Users/Examples.antt =====
-- Two users, the first of whom asks.
use sen_sa.Prelude.{ℕ, ◌≡◌, refl, Option, none, some, List, [], ◌∷◌, String, select, if◌then◌else◌}
use sen_sa.Prelude.Text.{str_eq}
use sen_sa.Backoffice.Dispatch.Tables.{Account}
use sen_sa.Backoffice.Dispatch.Examples.{account}
use sen_sa.Backoffice.Users.{number, text, changed, own_account, user_bulk_delete, user_bulk_lock}
use sen_sa.Backoffice.Users.Own.{is_own, user_bulk_delete-own}

abbrev users : List Account
users = account 1 "super_admin" ∷ account 2 "operator" ∷ []

abbrev int_of : String → Option ℕ
int_of s = if str_eq s "1" then some 1 else none

own_by_number : (user_bulk_lock int_of 1 (number 1 ∷ []) users).1 ≡ own_account
unfolding user_bulk_lock
own_by_number = refl

one_is_locked : (user_bulk_lock int_of 1 (number 2 ∷ []) users).1 ≡ changed 1
unfolding user_bulk_lock
one_is_locked = refl

user_bulk_delete-own_example :
    (select (is_own 1) (user_bulk_delete int_of 1 (number 2 ∷ []) users).0
      ≡ select (is_own 1) users)
    × (select (is_own 1) (user_bulk_delete int_of 1 (text "1" ∷ []) users).0 ≡ [])
user_bulk_delete-own_example = user_bulk_delete-own int_of 1 (number 2 ∷ []) "1" users (tt, tt) refl
