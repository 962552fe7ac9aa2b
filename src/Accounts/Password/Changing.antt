-- ===== src/Accounts/Password/Changing.antt =====
-- When a password is changed.
use sen_sa.Prelude.{
  ◌≡◌, ◌≢◌, refl, ◌⊎◌, Bool, true, false, not, ◌&&◌, [], String, arith, Bool-cases, inl, inr,
}
use sen_sa.Prelude.Text.{str_eq, eq_iff}
use sen_sa.Accounts.Users.{User, is_blank}
use sen_sa.Accounts.Password.{Hasher, follows_rule, ChangeForm, change_password}

-- A change that is asked for with the right password, by a new one that follows the rule, is not
-- the current one and is typed twice.
abbrev pub is_accepted : Hasher → User → ChangeForm → Bool
is_accepted hasher user form =
    not (is_blank form.current_password)
    && hasher.check_password user form.current_password
    && follows_rule hasher form.new_password
    && not (str_eq form.new_password form.current_password)
    && str_eq form.new_password form.new_password_confirm

empty_breaks_rule : (hasher : Hasher) → follows_rule hasher "" ≡ false
unfolding follows_rule
empty_breaks_rule hasher = refl

-- The password that follows the rule is not empty.
rule_is_filled :
    (hasher : Hasher) (pw : String) → follows_rule hasher pw ≡ true → is_blank pw ≡ false
rule_is_filled hasher pw h = elim (Bool-cases (is_blank pw)) [
  | inr e ↦ e
  | inl e ↦
      let same : pw ≡ "" = (eq_iff pw "").0 e in
      let h' : follows_rule hasher "" ≡ true = rw same at h in cc (empty_breaks_rule hasher, h')
]

-- The password is changed, to the new one and with no error, exactly if the change is accepted; any
-- other leaves the user as it was and names an error.
pub change_password-is_accepted :
    (hasher : Hasher) (user : User) (form : ChangeForm)
    → ((is_accepted hasher user form ≡ true)
        × (change_password hasher user form
            ≡ (record user { password = hasher.make_password form.new_password }, [])))
      ⊎ ((is_accepted hasher user form ≡ false)
          × ((change_password hasher user form).0 ≡ user)
          × ((change_password hasher user form).1 ≢ []))
unfolding change_password
change_password-is_accepted hasher user form = elim (Bool-cases (is_accepted hasher user form)) [
  | inl yes_all ↦
      let ruled : follows_rule hasher form.new_password ≡ true = ground arith in
      let filled = rule_is_filled hasher form.new_password ruled in
      let confirmed : str_eq form.new_password form.new_password_confirm ≡ true = ground arith in
      let same = (eq_iff form.new_password form.new_password_confirm).0 confirmed in
      let typed : is_blank form.new_password_confirm ≡ false = rw same at filled in
      inl (yes_all, ground arith)
  | inr not_all ↦ inr (not_all, ground arith, λ h. ground arith)
]
