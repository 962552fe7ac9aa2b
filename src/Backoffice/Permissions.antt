-- ===== src/Backoffice/Permissions.antt =====
-- SenSa/backoffice/permissions.py: who may open a page (`super_admin_required`) or call an API
-- (`super_admin_required_api`) of the back office.
pub mod Gates
pub mod Examples
use sen_sa.Prelude.{
  Bool, true, false, not, ◌&&◌, ◌||◌, Option, none, some, List, [], ◌∷◌, String, any, if◌then◌else◌,
}
use sen_sa.Prelude.Text.{str_eq}

pub data Role : Type 0 where
  super_admin admin operator : Role

pub data Action : Type 0 where
  read write other : Action

-- `request.user`; an anonymous user is not authenticated.
pub record User : Type 0 where
  pub is_authenticated : Bool
  pub role : Role

pub record MenuPermission : Type 0 where
  pub role : Role
  pub menu_code : String
  pub is_visible : Bool
  pub is_writable : Bool

-- The view runs, the browser is sent to the login page, or the answer is 401 or 403.
pub data Outcome : Type 0 where
  passes to_login unauthorized forbidden : Outcome

abbrev pub is_super_admin_role : User → Bool
is_super_admin_role user = elim user.role [ super_admin ↦ true | _ ↦ false ]

abbrev pub is_admin : Role → Bool
is_admin admin = true
is_admin _ = false

-- A row for the role admin and the menu.
abbrev pub is_row_for : String → MenuPermission → Bool
is_row_for menu_code p = is_admin p.role && str_eq p.menu_code menu_code

unfoldable pub admin_can_access : List MenuPermission → String → Bool
admin_can_access table menu_code =
    if str_eq menu_code "" then false else any (λ p. is_row_for menu_code p && p.is_visible) table

-- `login_required` stands outside the wrapper's body.
unfoldable pub wrap_view : List MenuPermission → User → (menu_code : String) → Outcome
unfolding admin_can_access
wrap_view table user menu_code =
    if not user.is_authenticated
    then to_login
    else if is_super_admin_role user
    then passes
    else if is_admin user.role && (str_eq menu_code "" || admin_can_access table menu_code)
    then passes
    else forbidden

unfoldable pub first_row : List MenuPermission → String → Option MenuPermission
first_row [] menu_code = none
first_row (p ∷ rest) menu_code = if is_row_for menu_code p then some p else first_row rest menu_code

abbrev allows : Action → MenuPermission → Bool
allows read p = true
allows write p = p.is_writable
allows other p = false

abbrev pub row_passes : Option MenuPermission → Action → Bool
row_passes none action = false
row_passes (some p) action = p.is_visible && allows action p

unfoldable pub wrap_api_view : List MenuPermission → User → (menu_code : String) → Action → Outcome
unfolding first_row
wrap_api_view table user menu_code action =
    if not user.is_authenticated
    then unauthorized
    else if is_super_admin_role user
    then passes
    else if is_admin user.role
        && not (str_eq menu_code "")
        && row_passes (first_row table menu_code) action
    then passes
    else forbidden
