-- ===== src/Accounts/Password.antt =====
-- SenSa/accounts/views.py: `PasswordChangeAPIView.post`. `check_password` and `set_password` are
-- Django's, parameters; of the rule `_PASSWORD_RE` the digits, which are those of Unicode, are one
-- too. `$` of the rule also matches before a line break at the end.
pub mod Changing
use Prim.Native.Char.{Char, code}
use sen_sa.Prelude.{
  Bool, true, false, not, ◌&&◌, ◌||◌, Option, none, some, List, [], ◌∷◌, ◌++◌, String, leb, ◌==◌,
  if◌then◌else◌,
}
use sen_sa.Prelude.Text.{str_eq}
use sen_sa.Accounts.Users.{User, len, is_blank}

pub record Hasher : Type 0 where
  pub check_password : User → String → Bool
  pub make_password : String → String
  pub is_digit : Char → Bool

-- `[A-Za-z]`
abbrev pub is_letter : Char → Bool
is_letter c = (leb 65 (code c) && leb (code c) 90) || (leb 97 (code c) && leb (code c) 122)

-- The special characters of the rule: all that ASCII prints but letters, digits, the space and `` ` ``.
abbrev pub is_special : Char → Bool
is_special c =
    (leb 33 (code c) && leb (code c) 47)
    || (leb 58 (code c) && leb (code c) 64)
    || (leb 91 (code c) && leb (code c) 95)
    || (leb 123 (code c) && leb (code c) 126)

abbrev pub any_char : (Char → Bool) → String → Bool
any_char p String.[] = false
any_char p (String.◌∷◌ c s) = p c || any_char p s

abbrev pub all_chars : (Char → Bool) → String → Bool
all_chars p String.[] = true
all_chars p (String.◌∷◌ c s) = p c && all_chars p s

-- The text without a line break at its end.
unfoldable pub first_line : String → String
first_line String.[] = ""
first_line (String.◌∷◌ c String.[]) = if code c == 10 then "" else String.◌∷◌ c ""
first_line (String.◌∷◌ c (String.◌∷◌ d s)) = String.◌∷◌ c (first_line (String.◌∷◌ d s))

unfoldable pub follows_rule : Hasher → String → Bool
unfolding first_line
follows_rule hasher pw =
    let line = first_line pw in
    any_char is_letter line
    && any_char hasher.is_digit line
    && any_char is_special line
    && all_chars (λ c. is_letter c || hasher.is_digit c || is_special c) line
    && leb 8 (len line)
    && leb (len line) 16

pub data PasswordError : Type 0 where
  no_current wrong_current no_new breaks_rule same_as_current no_confirm differs : PasswordError

pub record ChangeForm : Type 0 where
  pub current_password : String
  pub new_password : String
  pub new_password_confirm : String

abbrev pub current_errors : Hasher → User → ChangeForm → List PasswordError
current_errors hasher user form =
    if is_blank form.current_password
    then no_current ∷ []
    else if not (hasher.check_password user form.current_password)
    then wrong_current ∷ []
    else []

-- `_validate_new_password`
abbrev pub validate_new_password : Hasher → String → Option PasswordError
validate_new_password hasher pw =
    if is_blank pw
    then some no_new
    else if not (follows_rule hasher pw)
    then some breaks_rule
    else none

abbrev pub new_errors : Hasher → ChangeForm → List PasswordError
new_errors hasher form = elim (validate_new_password hasher form.new_password) [
  | some e ↦ e ∷ []
  | none ↦
      if not (is_blank form.current_password) && str_eq form.new_password form.current_password
      then same_as_current ∷ []
      else []
]

abbrev pub confirm_errors : ChangeForm → List PasswordError
confirm_errors form =
    if is_blank form.new_password_confirm
    then no_confirm ∷ []
    else if not (is_blank form.new_password)
        && not (str_eq form.new_password form.new_password_confirm)
    then differs ∷ []
    else []

-- The user as stored after the call, and the errors of the answer; with none the answer is 200.
unfoldable pub change_password : Hasher → User → ChangeForm → User × List PasswordError
change_password hasher user form =
    let errors = current_errors hasher user form ++ new_errors hasher form ++ confirm_errors form in
    elim errors [
      | [] ↦ (record user { password = hasher.make_password form.new_password }, [])
      | e ∷ rest ↦ (user, e ∷ rest)
    ]
