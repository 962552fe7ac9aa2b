-- ===== src/Backoffice/Users/Own.antt =====
-- The requester's own account in a call for several users.
use sen_sa.Prelude.{
  ℕ, ◌≡◌, refl, Bool, false, not, Option, some, List, [], ◌∷◌, String, arith, ◌==◌, any, select,
  All, Bool-cases, Option-cases, inl, inr,
}
use sen_sa.Backoffice.Dispatch.Tables.{Account}
use sen_sa.Backoffice.Users.{
  JsonId, number, text, lists_own, id_numbers, is_among, is_empty, user_bulk_delete,
}

abbrev pub IsNumber : JsonId → Type 0
IsNumber (number n) = Unit {0}
IsNumber (text s) = ⊥

-- The accounts of the requester.
abbrev pub is_own : ℕ → Account → Bool
is_own own user = own == user.id

module _ (int_of : String → Option ℕ) (own : ℕ) where
  -- Numbers that do not name the requester do not reach the requester.
  id_numbers-own :
      (ids : List JsonId) (numbers : List ℕ)
      → All IsNumber ids
      → lists_own own ids ≡ false
      → id_numbers int_of ids ≡ some numbers
      → any (λ n. n == own) numbers ≡ false
  unfolding id_numbers
  id_numbers-own [] numbers plain clear h = ground arith
  id_numbers-own (text s ∷ rest) numbers plain clear h = absurd plain.0
  id_numbers-own (number n ∷ rest) numbers plain clear h =
      elim (Option-cases (id_numbers int_of rest)) [
        | inl e ↦ absurd (ground arith)
        | inr (more, e) ↦ ground (arith, id_numbers-own rest more plain.1 (ground arith) e)
      ]

  keeps_own :
      (numbers : List ℕ) (users : List Account)
      → any (λ n. n == own) numbers ≡ false
      → select (is_own own) (select (λ user. not (is_among numbers user)) users)
        ≡ select (is_own own) users
  keeps_own numbers [] clear = refl
  keeps_own numbers (user ∷ rest) clear = elim (Bool-cases (is_own own user)) [
    | inl e ↦
        let same : own ≡ user.id = ground arith in
        let spared : is_among numbers user ≡ false = rw same at clear in
        rw (spared, e, keeps_own numbers rest clear) refl
    | inr e ↦ elim (Bool-cases (is_among numbers user)) [
      | inl gone ↦ rw (gone, e) (keeps_own numbers rest clear)
      | inr stays ↦ rw (stays, e) (keeps_own numbers rest clear)
    ]
  ]

  delete-spares :
      (ids : List JsonId) (users : List Account)
      → All IsNumber ids
      → select (is_own own) (user_bulk_delete int_of own ids users).0 ≡ select (is_own own) users
  unfolding user_bulk_delete
  delete-spares ids users plain = elim (Bool-cases (is_empty ids)) [
    | inl e ↦ rw e refl
    | inr filled ↦ elim (Bool-cases (lists_own own ids)) [
      | inl e ↦ rw (filled, e) refl
      | inr clear ↦ elim (Option-cases (id_numbers int_of ids)) [
        | inl e ↦ rw (filled, clear, e, user_bulk_delete) refl
        | inr (numbers, e) ↦
            rw (filled, clear, e, user_bulk_delete)
              (keeps_own numbers users (id_numbers-own ids numbers plain clear e))
      ]
    ]
  ]

  none_own :
      (users : List Account)
      → select (is_own own) (select (λ user. not (is_among (own ∷ []) user)) users) ≡ []
  none_own [] = refl
  none_own (user ∷ rest) = elim (Bool-cases (is_own own user)) [
    | inl e ↦ rw e (none_own rest)
    | inr e ↦ rw (e, e) (none_own rest)
  ]

  delete_by_text :
      (s : String) (users : List Account)
      → int_of s ≡ some own
      → select (is_own own) (user_bulk_delete int_of own (text s ∷ []) users).0 ≡ []
  unfolding user_bulk_delete id_numbers
  delete_by_text s users read = rw (read, user_bulk_delete) (none_own users)

  -- A deletion of several users by numbers never deletes the requester's own account. A deletion by
  -- a text that reads as the requester's id does: the guard compares the id with a text.
  pub user_bulk_delete-own :
      (ids : List JsonId) (s : String) (users : List Account)
      → All IsNumber ids
      → int_of s ≡ some own
      → (select (is_own own) (user_bulk_delete int_of own ids users).0 ≡ select (is_own own) users)
        × (select (is_own own) (user_bulk_delete int_of own (text s ∷ []) users).0 ≡ [])
  user_bulk_delete-own ids s users plain read =
      (delete-spares ids users plain, delete_by_text s users read)
