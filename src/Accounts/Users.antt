-- ===== src/Accounts/Users.antt =====
-- SenSa/accounts/models.py: the columns of a user that the code here reads or writes. A password is
-- what `set_password` stores.
use sen_sa.Prelude.{ℕ, suc, Bool, not, String, if◌then◌else◌}
use sen_sa.Prelude.Text.{str_eq}

pub record User : Type 0 where
  pub id : ℕ
  pub username : String
  pub email : String
  pub role : String
  pub password : String
  pub is_active : Bool
  pub is_locked : Bool
  pub is_staff : Bool
  pub is_superuser : Bool

-- `account_status`
pub data AccountStatus : Type 0 where
  active locked disabled : AccountStatus

unfoldable pub account_status : User → AccountStatus
account_status user =
    if not user.is_active then disabled else if user.is_locked then locked else active

-- `len(text)`, the number of characters
abbrev pub len : String → ℕ
len String.[] = 0
len (String.◌∷◌ c s) = suc (len s)

abbrev pub is_blank : String → Bool
is_blank s = str_eq s ""
