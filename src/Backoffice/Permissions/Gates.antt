-- ===== src/Backoffice/Permissions/Gates.antt =====
-- How the gates of the back office relate.
use sen_sa.Prelude.{◌≡◌, ◌≢◌, true, ◌&&◌, Option, List, [], ◌∷◌, String, arith, any}
use sen_sa.Backoffice.Permissions.{
  admin, operator, Action, read, write, User, MenuPermission, passes, forbidden, admin_can_access,
  wrap_view, first_row, row_passes, wrap_api_view, is_row_for,
}

visible_of_first_row :
    (table : List MenuPermission) (menu_code : String) (action : Action)
    → row_passes (first_row table menu_code) action ≡ true
    → any (λ p. is_row_for menu_code p && p.is_visible) table ≡ true
unfolding first_row
visible_of_first_row [] menu_code action h = cc
visible_of_first_row (p ∷ rest) menu_code action h =
    ground (arith, visible_of_first_row rest menu_code action)

row_read_of_write :
    (row : Option MenuPermission) → row_passes row write ≡ true → row_passes row read ≡ true
row_read_of_write row h = ground arith

-- Who may write by an API of a menu may read by it.
pub write_gives_read :
    (table : List MenuPermission) (user : User) (menu_code : String)
    → wrap_api_view table user menu_code write ≡ passes
    → wrap_api_view table user menu_code read ≡ passes
unfolding wrap_api_view
write_gives_read table user menu_code h =
    ground (arith, row_read_of_write (first_row table menu_code))

-- Who may call an API of a menu by any action may open the menu's page.
pub api_gives_page :
    (table : List MenuPermission) (user : User) (menu_code : String) (action : Action)
    → wrap_api_view table user menu_code action ≡ passes
    → wrap_view table user menu_code ≡ passes
unfolding wrap_api_view wrap_view admin_can_access
api_gives_page table user menu_code action h =
    ground (arith, visible_of_first_row table menu_code action)

-- An operator passes no gate, whatever the table says.
pub operator_never_passes :
    (table : List MenuPermission) (user : User) (menu_code : String) (action : Action)
    → user.role ≡ operator
    → (wrap_view table user menu_code ≢ passes)
      × (wrap_api_view table user menu_code action ≢ passes)
unfolding wrap_api_view wrap_view
operator_never_passes table user menu_code action h = (λ e. ground arith, λ e. ground arith)

-- Without a menu code every administrator who is logged in passes the gate of a page, whatever the
-- table says, and passes that of an API never.
pub unnamed_menu_gates :
    (table : List MenuPermission) (user : User) (action : Action)
    → user.is_authenticated ≡ true
    → user.role ≡ admin
    → (wrap_view table user "" ≡ passes) × (wrap_api_view table user "" action ≡ forbidden)
unfolding wrap_api_view wrap_view
unnamed_menu_gates table user action auth role = (ground arith, ground arith)
