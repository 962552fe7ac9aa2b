-- ===== src/Accounts/Login.antt =====
-- SenSa/accounts/views.py: `login_page` and `LoginAPIView.post`, with `LoginSerializer.validate` of
-- serializers.py. Django's `authenticate` and `str.strip` are parameters; a form without a field
-- stands for one with an empty text. The framework strips both fields of the serializer.
pub mod Locked
use sen_sa.Prelude.{Bool, true, false, not, ◌||◌, Option, none, some, String, ltb, if◌then◌else◌}
use sen_sa.Prelude.Text.{str_eq, strip_prefix}
use sen_sa.Accounts.Users.{User, len, is_blank}

pub record Backend : Type 0 where
  pub authenticate : (username password : String) → Option User
  pub strip : String → String

-- The errors of the serializer and of the page.
pub data LoginError : Type 0 where
  missing bad_length wrong inactive is_locked_account : LoginError

pub data Validated : Type 0 where
  valid : User → Validated
  invalid : LoginError → Validated

unfoldable pub validate : Backend → (username password : String) → Validated
validate backend raw raw_password =
    let username = backend.strip raw in
    let password = backend.strip raw_password in
    if is_blank username || is_blank password
    then invalid missing
    else if ltb (len username) 4 || ltb 20 (len username)
    then invalid bad_length
    else elim (backend.authenticate username password) [
      | none ↦ invalid wrong
      | some user ↦ if not user.is_active then invalid inactive else valid user
    ]

pub record LoginForm : Type 0 where
  pub username : String
  pub password : String
  -- `next` of the address and of the form, '' where there is none
  pub next_of_address : String
  pub next_of_form : String

-- What the page answers: it goes home, shows an error, or logs a user in and goes to an address.
pub data PageAnswer : Type 0 where
  to_home : PageAnswer
  shows : LoginError → PageAnswer
  logs_in : User → (url : String) → PageAnswer

abbrev pub first_given : String → String → String
first_given a b = if is_blank a then b else a

abbrev pub starts_with_slash : String → Bool
starts_with_slash url = elim (strip_prefix "/" url) [ some _ ↦ true | none ↦ false ]

-- What `next` says, or the start page of the role.
unfoldable pub chosen_url : User → LoginForm → String
chosen_url user form =
    let given = first_given form.next_of_address form.next_of_form in
    if not (is_blank given)
    then given
    else if str_eq user.role "super_admin" || str_eq user.role "admin"
    then "/backoffice/"
    else "/dashboard/"

-- Where a user goes who has logged in.
unfoldable pub next_url : User → LoginForm → String
unfolding chosen_url
next_url user form =
    if not (starts_with_slash (chosen_url user form)) then "/home/" else chosen_url user form

-- The page of a POST; `is_authenticated` is that of the session.
unfoldable pub login_page : Backend → (is_authenticated : Bool) → LoginForm → PageAnswer
login_page backend is_authenticated form =
    if is_authenticated
    then to_home
    else elim (validate backend (backend.strip form.username) form.password) [
      | invalid e ↦ shows e
      | valid user ↦
          if not user.is_active
          then shows inactive
          else if user.is_locked
          then shows is_locked_account
          else logs_in user (next_url user form)
    ]

-- The API answers with the tokens of a user, or with 400.
pub data ApiAnswer : Type 0 where
  tokens : User → ApiAnswer
  bad_request : LoginError → ApiAnswer

unfoldable pub login_api : Backend → (username password : String) → ApiAnswer
login_api backend username password = elim (validate backend username password) [
  | invalid e ↦ bad_request e
  | valid user ↦ tokens user
]
