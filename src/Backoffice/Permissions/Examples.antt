-- ===== src/Backoffice/Permissions/Examples.antt =====
-- The gates of the back office on a small table.
use sen_sa.Prelude.{◌≡◌, refl, true, false, List, [], ◌∷◌}
use sen_sa.Backoffice.Permissions.{
  admin, operator, write, User, MenuPermission, passes, forbidden, first_row, wrap_api_view,
}

abbrev table : List MenuPermission
table =
    record { role = admin; menu_code = "alarms"; is_visible = true; is_writable = true }
    ∷ record { role = admin; menu_code = "users"; is_visible = true; is_writable = false }
    ∷ []

abbrev administrator : User
administrator = record { is_authenticated = true; role = admin }

abbrev staff : User
staff = record { is_authenticated = true; role = operator }

writes_alarms : wrap_api_view table administrator "alarms" write ≡ passes
unfolding wrap_api_view first_row
writes_alarms = refl

users_is_read_only : wrap_api_view table administrator "users" write ≡ forbidden
unfolding wrap_api_view first_row
users_is_read_only = refl
