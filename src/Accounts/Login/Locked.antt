-- ===== src/Accounts/Login/Locked.antt =====
-- What a locked account can do, and where a login leads.
use sen_sa.Prelude.{◌≡◌, refl, ◌⊎◌, Bool, true, String, arith, Bool-cases, inl, inr, if◌then◌else◌}
use sen_sa.Prelude.Text.{strip_prefix}
use sen_sa.Accounts.Users.{User}
use sen_sa.Accounts.Login.{
  Backend, LoginError, is_locked_account, Validated, valid, invalid, validate, LoginForm, shows,
  PageAnswer, logs_in, starts_with_slash, chosen_url, next_url, login_page, ApiAnswer, tokens,
  bad_request,
}

Validated-cases :
    (r : Validated) → ((u : User) × (r ≡ valid u)) ⊎ ((e : LoginError) × (r ≡ invalid e))
Validated-cases (valid u) = inl (u, refl)
Validated-cases (invalid e) = inr (e, refl)

-- What the page makes of the API's answer: it shows the same error, and of the users who get tokens
-- it refuses those who are locked.
abbrev pub page_of : LoginForm → ApiAnswer → PageAnswer
page_of form (bad_request e) = shows e
page_of form (tokens user) =
    if user.is_locked then shows is_locked_account else logs_in user (next_url user form)

next_url-slash : (user : User) (form : LoginForm) → starts_with_slash (next_url user form) ≡ true
unfolding next_url strip_prefix
next_url-slash user form = elim (Bool-cases (starts_with_slash (chosen_url user form))) [
  | inl e ↦ rw e e
  | inr e ↦ rw e refl
]

-- A login from the page leads to an address that starts with a slash, whatever `next` says.
pub login_page-slash :
    (backend : Backend) (is_authenticated : Bool) (form : LoginForm) (user : User) (url : String)
    → login_page backend is_authenticated form ≡ logs_in user url
    → starts_with_slash url ≡ true
unfolding login_page
login_page-slash backend is_authenticated form user url h =
    elim (Validated-cases (validate backend (backend.strip form.username) form.password)) [
      | inr (e, refused) ↦ absurd (ground arith)
      | inl (found, accepted) ↦
          let same : next_url found form ≡ url = ground arith in
          rw (← same) (next_url-slash found form)
    ]
