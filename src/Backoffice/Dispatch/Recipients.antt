-- ===== src/Backoffice/Dispatch/Recipients.antt =====
-- Whom the loops over a policy's tokens reach, and that no user is reached twice.
use sen_sa.Prelude.{
  ℕ, ◌≡◌, refl, ◌∙◌, ap, sym, inl, inr, Bool, true, false, not, ◌&&◌, ◌||◌, Option, none, some,
  List, [], ◌∷◌, ◌++◌, arith, ◌==◌, any, select, Option-cases,
}
use sen_sa.Prelude.Text.{str_eq}
use sen_sa.Backoffice.Dispatch.Tables.{
  Account, Token, all_users, leaders, group, role, unknown, Directory,
}
use sen_sa.Backoffice.Dispatch.{
  is_number, is_usable, is_meant, resolve_recipients, unseen, recipients_from,
}

abbrev pub has_id : ℕ → List Account → Bool
has_id k = any (λ (u : Account). u.id == k)

abbrev pub is_seen : ℕ → List ℕ → Bool
is_seen k = any (λ n. n == k)

any-append :
    {A : Type 0} (p : A → Bool) (xs ys : List A) → any p (xs ++ ys) ≡ (any p xs || any p ys)
any-append p [] ys = refl
any-append p (x ∷ xs) ys = ground (arith, any-append p xs ys)

unseen-has_id :
    (seen : List ℕ) (users : List Account) (k : ℕ)
    → has_id k (unseen seen users).0 ≡ (not (is_seen k seen) && has_id k users)
unfolding unseen
unseen-has_id seen [] k = ground arith
unseen-has_id seen (u ∷ rest) k =
    ground (arith, unseen-has_id seen rest k, unseen-has_id (u.id ∷ seen) rest k)

unseen-seen :
    (seen : List ℕ) (users : List Account) (k : ℕ)
    → is_seen k (unseen seen users).1 ≡ (is_seen k seen || has_id k users)
unfolding unseen
unseen-seen seen [] k = ground arith
unseen-seen seen (u ∷ rest) k =
    ground (arith, unseen-seen seen rest k, unseen-seen (u.id ∷ seen) rest k)

abbrev pub is_meant_by : Directory → List Token → ℕ → Bool
is_meant_by dir tokens k = any (λ token. has_id k (resolve_recipients dir token)) tokens

recipients_from-has_id :
    (dir : Directory) (seen : List ℕ) (tokens : List Token) (k : ℕ)
    → has_id k (recipients_from dir seen tokens)
      ≡ (not (is_seen k seen) && is_meant_by dir tokens k)
unfolding recipients_from
recipients_from-has_id dir seen [] k = ground arith
recipients_from-has_id dir seen (token ∷ rest) k =
    let users = resolve_recipients dir token in
    let after = (unseen seen users).1 in
    ground (
      arith,
      any-append (λ (u : Account). u.id == k) (unseen seen users).0
          (recipients_from dir after rest),
      unseen-has_id seen users k,
      unseen-seen seen users k,
      recipients_from-has_id dir after rest k,
    )

-- No id stands in the list twice.
abbrev pub AreDistinct : List Account → Type 0
AreDistinct [] = Unit
AreDistinct (u ∷ rest) = (has_id u.id rest ≡ false) × AreDistinct rest

unseen-AreDistinct : (seen : List ℕ) (users : List Account) → AreDistinct (unseen seen users).0
unfolding unseen
unseen-AreDistinct seen [] = tt
unseen-AreDistinct seen (u ∷ rest) = ground (
  arith,
  unseen-AreDistinct seen rest,
  unseen-AreDistinct (u.id ∷ seen) rest,
  unseen-has_id (u.id ∷ seen) rest u.id,
)

append-AreDistinct :
    (xs ys : List Account)
    → AreDistinct xs
    → AreDistinct ys
    → ((k : ℕ) → has_id k xs ≡ true → has_id k ys ≡ false)
    → AreDistinct (xs ++ ys)
append-AreDistinct [] ys dx dy apart = dy
append-AreDistinct (x ∷ xs) ys (fresh, dx) dy apart = (
  any-append (λ (u : Account). u.id == x.id) xs ys ∙ ground (arith, apart x.id, fresh),
  append-AreDistinct xs ys dx dy (λ k h. apart k (ground (arith, h))),
)

-- Whatever the tokens of a policy overlap in, no user is reached twice.
pub recipients_from_distinct :
    (dir : Directory) (seen : List ℕ) (tokens : List Token)
    → AreDistinct (recipients_from dir seen tokens)
unfolding recipients_from
recipients_from_distinct dir seen [] = tt
recipients_from_distinct dir seen (token ∷ rest) =
    let users = resolve_recipients dir token in
    let after = (unseen seen users).1 in
    append-AreDistinct (unseen seen users).0 (recipients_from dir after rest)
      (unseen-AreDistinct seen users) (recipients_from_distinct dir after rest)
      (λ k h. ground (
        arith,
        h,
        unseen-has_id seen users k,
        unseen-seen seen users k,
        recipients_from-has_id dir after rest k,
      ))

-- ─── whom a token stands for ───

abbrev pub stands_for : Directory → Token → Account → Bool
stands_for dir all_users user = true
stands_for dir leaders user =
    any (λ leader. elim leader [ none ↦ false | some n ↦ n == user.id ]) dir.leaders
stands_for dir (group none) user = false
stands_for dir (group (some org)) user = elim user.organization [ none ↦ false | some n ↦ n == org ]
stands_for dir (role code) user = str_eq user.role code
stands_for dir (unknown _) user = false

-- A user with this id who is active, not locked, and meant by one of the tokens.
abbrev pub should_reach : Directory → List Token → ℕ → Account → Bool
should_reach dir tokens k user =
    user.id == k
    && (user.is_active && (not user.is_locked && any (λ t. stands_for dir t user) tokens))

any-leads :
    (k : ℕ) (leading : List (Option ℕ))
    → any (is_number k) leading
      ≡ any (λ leader. elim leader [ none ↦ false | some n ↦ n == k ]) leading
any-leads k [] = refl
any-leads k (none ∷ rest) = any-leads k rest
any-leads k (some n ∷ rest) = ap (λ b. n == k || b) (any-leads k rest)

is_meant-stands_for :
    (dir : Directory) (token : Token) (user : Account)
    → is_meant dir.leaders token user ≡ stands_for dir token user
is_meant-stands_for dir all_users user = refl
is_meant-stands_for dir leaders user = any-leads user.id dir.leaders
is_meant-stands_for dir (group none) user = refl
is_meant-stands_for dir (group (some org)) user = elim (Option-cases user.organization) [
  | inl e ↦ rw e refl
  | inr (n, e) ↦ rw e refl
]
is_meant-stands_for dir (role code) user = refl
is_meant-stands_for dir (unknown _) user = refl

module _ (dir : Directory) (k : ℕ) where
  -- One token more.
  any-should_reach :
      (token : Token) (rest : List Token) (users : List Account)
      → any (should_reach dir (token ∷ rest) k) users ≡ (
          has_id k (select (λ user. is_usable user && is_meant dir.leaders token user) users)
          || any (should_reach dir rest k) users)
  any-should_reach token rest [] = refl
  any-should_reach token rest (user ∷ users) =
      ground (arith, any-should_reach token rest users, is_meant-stands_for dir token user)

  none_due : (users : List Account) → any (should_reach dir [] k) users ≡ false
  none_due [] = refl
  none_due (user ∷ users) = ground (arith, none_due users)

  is_meant_by_due :
      (tokens : List Token) → is_meant_by dir tokens k ≡ any (should_reach dir tokens k) dir.users
  unfolding resolve_recipients
  is_meant_by_due [] = sym (none_due dir.users)
  is_meant_by_due (token ∷ rest) =
      ap
        (λ b.
          has_id k (select (λ user. is_usable user && is_meant dir.leaders token user) dir.users)
          || b)
        (is_meant_by_due rest)
      ∙ sym (any-should_reach token rest dir.users)

-- An id is reached by a policy's tokens exactly if it is that of a user who is active, not locked,
-- and meant by one of the tokens; and no id is reached twice, whatever the tokens overlap in.
pub recipients_from_reached :
    (dir : Directory) (tokens : List Token) (k : ℕ)
    → (has_id k (recipients_from dir [] tokens) ≡ any (should_reach dir tokens k) dir.users)
      × AreDistinct (recipients_from dir [] tokens)
recipients_from_reached dir tokens k = (
  recipients_from-has_id dir [] tokens k ∙ is_meant_by_due dir k tokens,
  recipients_from_distinct dir [] tokens,
)
