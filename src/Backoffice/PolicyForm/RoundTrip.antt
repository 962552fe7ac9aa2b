-- ===== src/Backoffice/PolicyForm/RoundTrip.antt =====
-- The saved texts are read back as the tokens that were checked.
use Prim.Native.Char.{Char}
use Prim.Native.String.append
use sen_sa.Prelude.{
  ℕ, ◌≡◌, refl, ◌≢◌, ◌⊎◌, ◌∙◌, Bool, true, false, Option, none, some, List, [], ◌∷◌, String, arith,
  all, select, All, Bool-cases, Option-cases, inl, inr,
}
use sen_sa.Prelude.Text.{str_eq, ◌++◌, strip_prefix}
use sen_sa.Backoffice.Dispatch.Tables.{Token, all_users, leaders, group, role, unknown}
use sen_sa.Backoffice.PolicyForm.{
  Texts, comma, is_comma, push, split, join, is_nonblank, items_of, strip_or_blank, Cleaned, clean,
  invalid, raised, is_empty, is_channel, clean_channels_csv, is_role, check_group, check_token,
  check_tokens, clean_recipients_csv, is_nonempty, pieces_list, token_of,
}

abbrev HasNoComma : String → Type 0
HasNoComma String.[] = Unit {0}
HasNoComma (String.◌∷◌ c s) = (is_comma c ≡ false) × HasNoComma s

split-append :
    (t rest : String) → HasNoComma t → split (t ++ String.◌∷◌ comma rest) ≡ t ∷ split rest
unfolding split
split-append String.[] rest h = rw (append.nil (String.◌∷◌ comma rest)) refl
split-append (String.◌∷◌ c s) rest h =
    rw (append.cons c s (String.◌∷◌ comma rest), h.0, split-append s rest h.1) refl

split_whole : (t : String) → HasNoComma t → split t ≡ t ∷ []
unfolding split
split_whole String.[] h = refl
split_whole (String.◌∷◌ c s) h = rw (h.0, split_whole s h.1) refl

split-join :
    (pieces : List String)
    → is_empty pieces ≡ false
    → All HasNoComma pieces
    → split (join pieces) ≡ pieces
unfolding join
split-join [] filled h = cc
split-join (piece ∷ []) filled h = split_whole piece h.0
split-join (piece ∷ next ∷ rest) filled h =
    split-append piece (join (next ∷ rest)) h.0 ∙ rw (split-join (next ∷ rest) refl h.1) refl

push-HasNoComma :
    (c : Char) (pieces : List String)
    → is_comma c ≡ false
    → All HasNoComma pieces
    → All HasNoComma (push c pieces)
push-HasNoComma c [] h all = ((h, tt), tt)
push-HasNoComma c (piece ∷ rest) h all = ((h, all.0), all.1)

split-HasNoComma : (s : String) → All HasNoComma (split s)
unfolding split
split-HasNoComma String.[] = (tt, tt)
split-HasNoComma (String.◌∷◌ c s) = elim (Bool-cases (is_comma c)) [
  | inl e ↦ rw e (tt, split-HasNoComma s)
  | inr e ↦ rw e (push-HasNoComma c (split s) e (split-HasNoComma s))
]

All-select :
    (P : String → Type 0) (q : String → Bool) (xs : List String) → All P xs → All P (select q xs)
All-select P q [] all = tt
All-select P q (x ∷ xs) all = elim (Bool-cases (q x)) [
  | inl e ↦ rw e (all.0, All-select P q xs all.1)
  | inr e ↦ rw e (All-select P q xs all.1)
]

module _ (texts : Texts) where
  nonblank-nonempty : (s : String) → is_nonblank texts s ≡ true → is_nonempty s ≡ true
  unfolding is_nonblank
  nonblank-nonempty String.[] h = h
  nonblank-nonempty (String.◌∷◌ c s) h = refl

  select_nonempty :
      (xs : List String)
      → select is_nonempty (select (is_nonblank texts) xs) ≡ select (is_nonblank texts) xs
  select_nonempty [] = refl
  select_nonempty (x ∷ xs) = elim (Bool-cases (is_nonblank texts x)) [
    | inl e ↦ rw (e, nonblank-nonempty x e, select_nonempty xs) refl
    | inr e ↦ rw e (select_nonempty xs)
  ]

  pieces_list-join :
      (raw : Option String)
      → is_empty (items_of texts raw) ≡ false
      → pieces_list (join (items_of texts raw)) ≡ items_of texts raw
  unfolding pieces_list
  pieces_list-join raw filled =
      rw
        (split-join (items_of texts raw) filled (
          All-select HasNoComma (is_nonblank texts) _
            (split-HasNoComma (strip_or_blank texts raw))))
        (select_nonempty (split (strip_or_blank texts raw)))

  all-All : (p : String → Bool) (xs : List String) → all p xs ≡ true → All (λ x. p x ≡ true) xs
  all-All p [] h = tt
  all-All p (x ∷ xs) h = (ground arith, all-All p xs (ground arith))

  -- Channels that are saved are read back as the pieces of the field that are not blank: there is
  -- one at least, and each is a channel. A field with another piece, or with none, is not saved.
  pub clean_channels_csv-pieces_list :
      (raw : Option String)
      → let items = items_of texts raw in
        ((csv : String) × (clean_channels_csv texts raw ≡ clean csv)
          × (pieces_list csv ≡ items)
          × (is_empty items ≡ false)
          × All (λ s. is_channel s ≡ true) items)
        ⊎ ((clean_channels_csv texts raw ≡ invalid)
            × ((all is_channel items ≡ false) ⊎ (is_empty items ≡ true)))
  unfolding clean_channels_csv
  clean_channels_csv-pieces_list raw =
      let items = items_of texts raw in
      elim (Bool-cases (all is_channel items)) [
        | inr bad ↦ inr (rw bad refl, inl bad)
        | inl good ↦ elim (Bool-cases (is_empty items)) [
          | inl empty ↦ inr (rw (good, empty) refl, inr empty)
          | inr filled ↦ inl (
            join items,
            rw (good, filled) refl,
            pieces_list-join raw filled,
            filled,
            all-All is_channel items good,
          )
        ]
      ]

  module _ (is_organization : ℕ → Bool) where
    -- A token that the dispatcher resolves: a group is an organization's, a role one of the three.
    abbrev pub IsReadable : Token → Type 0
    IsReadable all_users = Unit {0}
    IsReadable leaders = Unit {0}
    IsReadable (group none) = ⊥
    IsReadable (group (some n)) = is_organization n ≡ true
    IsReadable (role held) = is_role held ≡ true
    IsReadable (unknown _) = ⊥

    check_group-IsReadable :
        (org_id token : String) {kept : String}
        → check_group texts is_organization org_id token ≡ clean kept
        → IsReadable (group (texts.int_of org_id))
    unfolding check_group
    check_group-IsReadable org_id token h = elim (Option-cases (texts.int_of org_id)) [
      | inl e ↦ absurd (ground arith)
      | inr (n, e) ↦ rw e (ground arith)
    ]

    check_token-IsReadable :
        (token : String) {kept : String}
        → check_token texts is_organization token ≡ clean kept
        → IsReadable (token_of texts token)
    unfolding check_token token_of
    check_token-IsReadable token h = elim (Bool-cases (str_eq token "all_users")) [
      | inl e ↦ rw e tt
      | inr n1 ↦ elim (Bool-cases (str_eq token "leaders")) [
        | inl e ↦ rw (n1, e) tt
        | inr n2 ↦ elim (Option-cases (strip_prefix "group:" token)) [
          | inr (org_id, e) ↦
              rw (n1, n2, e, token_of)
                (check_group-IsReadable org_id token (rw (n1, n2, e, check_token) at h))
          | inl n3 ↦ elim (Option-cases (strip_prefix "role:" token)) [
            | inl n4 ↦ absurd (ground arith)
            | inr (held, e) ↦ rw (n1, n2, n3, token_of, e, token_of) (ground arith)
          ]
        ]
      ]
    ]

    Cleaned-cases :
        (r : Cleaned) → ((kept : String) × (r ≡ clean kept)) ⊎ (r ≡ invalid) ⊎ (r ≡ raised)
    Cleaned-cases (clean kept) = inl (kept, refl)
    Cleaned-cases invalid = inr (inl refl)
    Cleaned-cases raised = inr (inr refl)

    check_tokens-IsReadable :
        (tokens : List String)
        → check_tokens texts is_organization tokens ≡ none
        → All (λ t. IsReadable (token_of texts t)) tokens
    unfolding check_tokens
    check_tokens-IsReadable [] h = tt
    check_tokens-IsReadable (token ∷ rest) h =
        elim (Cleaned-cases (check_token texts is_organization token)) [
          | inl (kept, e) ↦ (
            check_token-IsReadable token e,
            check_tokens-IsReadable rest (rw (e, check_tokens) at h),
          )
          | inr (inl e) ↦ absurd (ground arith)
          | inr (inr e) ↦ absurd (ground arith)
        ]

    -- The loop never ends at a clean token.
    check_tokens-stops :
        (tokens : List String) (kept : String)
        → check_tokens texts is_organization tokens ≢ some (clean kept)
    unfolding check_tokens
    check_tokens-stops [] kept = λ h. cc
    check_tokens-stops (token ∷ rest) kept = λ h.
        elim (Cleaned-cases (check_token texts is_organization token)) [
          | inl (k, e) ↦ check_tokens-stops rest kept (rw (e, check_tokens) at h)
          | inr (inl e) ↦ ground arith
          | inr (inr e) ↦ ground arith
        ]

    -- Recipients that are saved are read back as the pieces of the field that are not blank: there
    -- is one at least, and the dispatcher resolves each, to an organization of the table, one of the
    -- three roles, the leaders or all users.
    pub clean_recipients_csv-IsReadable :
        (raw : Option String) (csv : String)
        → clean_recipients_csv texts is_organization raw ≡ clean csv
        → (pieces_list csv ≡ items_of texts raw)
          × (is_empty (pieces_list csv) ≡ false)
          × All (λ t. IsReadable (token_of texts t)) (pieces_list csv)
    unfolding clean_recipients_csv
    clean_recipients_csv-IsReadable raw csv h =
        let items = items_of texts raw in
        elim (Bool-cases (is_empty items)) [
          | inl e ↦ absurd (ground arith)
          | inr filled ↦ elim (Option-cases (check_tokens texts is_organization items)) [
            | inr (stopped, e) ↦ absurd (check_tokens-stops items csv (ground arith))
            | inl e ↦
                let same : join items ≡ csv = ground arith in
                let back : pieces_list csv ≡ items = rw (← same) (pieces_list-join raw filled) in
                (back, rw back filled, rw back (check_tokens-IsReadable items e))
          ]
        ]
