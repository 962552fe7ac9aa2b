-- ===== src/Accounts/Examples.antt =====
-- A locked user at the page and at the API, and a change of a password.
use Prim.Native.Char.{code}
use sen_sa.Prelude.{◌≡◌, ◌≢◌, refl, ◌⊎◌, true, false, none, some, [], ◌&&◌, leb, if◌then◌else◌}
use sen_sa.Prelude.Text.{str_eq, strip_prefix}
use sen_sa.Accounts.Users.{User}
use sen_sa.Accounts.Login.{
  Backend, LoginForm, logs_in, next_url, login_page, login_api, tokens, validate,
}
use sen_sa.Accounts.Password.{Hasher, ChangeForm, follows_rule, change_password}
use sen_sa.Accounts.Password.Changing.{is_accepted, change_password-is_accepted}

abbrev user : User
user = record {
  id = 5;
  username = "kimjs";
  email = "";
  role = "operator";
  password = "hash";
  is_active = true;
  is_locked = true;
  is_staff = false;
  is_superuser = false;
}

abbrev backend : Backend
backend = record {
  authenticate = λ name pw. if str_eq pw "right" then some user else none;
  strip = λ s. s;
}

abbrev form : LoginForm
form = record {
  username = "kimjs";
  password = "right";
  next_of_address = "//elsewhere.example";
  next_of_form = "";
}

abbrev unlocked : Backend
unlocked = record backend { authenticate = λ name pw. some (record user { is_locked = false }) }

api_gives_tokens : login_api backend "kimjs" "right" ≡ tokens user
unfolding login_api validate
api_gives_tokens = refl

-- Two slashes lead to another host.
leads_elsewhere :
    login_page unlocked false form
    ≡ logs_in (record user { is_locked = false }) "//elsewhere.example"
unfolding login_page validate next_url strip_prefix
leads_elsewhere = refl

abbrev hasher : Hasher
hasher = record {
  check_password = λ u pw. str_eq pw "old1234!";
  make_password = λ pw. "stored";
  is_digit = λ c. leb 48 (code c) && leb (code c) 57;
}

abbrev change : ChangeForm
change = record {
  current_password = "old1234!";
  new_password = "new1234!";
  new_password_confirm = "new1234!";
}

a_long_line : follows_rule hasher "abcdefgh12345678!" ≡ false
unfolding follows_rule
a_long_line = refl

change_password-is_accepted_example :
    ((is_accepted hasher user change ≡ true)
      × (change_password hasher user change ≡ (record user { password = "stored" }, [])))
    ⊎ ((is_accepted hasher user change ≡ false)
        × ((change_password hasher user change).0 ≡ user)
        × ((change_password hasher user change).1 ≢ []))
change_password-is_accepted_example = change_password-is_accepted hasher user change
