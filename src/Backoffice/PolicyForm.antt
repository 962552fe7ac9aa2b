-- ===== src/Backoffice/PolicyForm.antt =====
-- SenSa/backoffice/forms/notifications.py: how the channels and the recipients of a policy are
-- checked before they are saved; `channels_list` and `recipients_list` of
-- SenSa/backoffice/models.py, which read them again; and the prefixes by which
-- notification_dispatcher.py tells the tokens apart. `str.isspace`, `str.isdigit`, `int` and the
-- table of organizations are parameters.
pub mod RoundTrip
pub mod Examples
use Prim.Native.Char.{Char, code}
use sen_sa.Prelude.{
  ℕ, Bool, true, false, not, ◌||◌, Option, none, some, List, [], ◌∷◌, String, ◌==◌, all, select,
  if◌then◌else◌,
}
use sen_sa.Prelude.Text.{str_eq, ◌++◌, strip_prefix}
use sen_sa.Backoffice.Dispatch.Tables.{Token, all_users, leaders, group, role, unknown}

pub record Texts : Type 0 where
  pub is_space : Char → Bool
  pub is_digit : String → Bool
  -- `int(text)`, `none` where it raises ValueError
  pub int_of : String → Option ℕ

abbrev pub comma : Char
comma = ","

abbrev pub is_comma : Char → Bool
is_comma c = code c == code comma

-- A character in front of the first piece.
abbrev pub push : Char → List String → List String
push c [] = String.◌∷◌ c "" ∷ []
push c (piece ∷ rest) = String.◌∷◌ c piece ∷ rest

-- `text.split(',')`
unfoldable pub split : String → List String
split String.[] = "" ∷ []
split (String.◌∷◌ c s) = let rest = split s in if is_comma c then "" ∷ rest else push c rest

-- `','.join(pieces)`
unfoldable pub join : List String → String
join [] = ""
join (piece ∷ []) = piece
join (piece ∷ next ∷ rest) = piece ++ String.◌∷◌ comma (join (next ∷ rest))

-- What becomes of a field: its clean text, an error of the form, or an exception that the form does
-- not catch.
pub data Cleaned : Type 0 where
  clean : String → Cleaned
  invalid raised : Cleaned

module _ (texts : Texts) where
  open texts use {is_space, is_digit, int_of}

  -- `bool(text.strip())`
  unfoldable pub is_nonblank : String → Bool
  is_nonblank String.[] = false
  is_nonblank (String.◌∷◌ c s) = not (is_space c) || is_nonblank s

  unfoldable pub lstrip : String → String
  lstrip String.[] = ""
  lstrip (String.◌∷◌ c s) = let rest = lstrip s in if is_space c then rest else String.◌∷◌ c s

  -- Without the blanks at its end.
  unfoldable pub rstrip : String → String
  unfolding is_nonblank
  rstrip String.[] = ""
  rstrip (String.◌∷◌ c s) =
      let rest = rstrip s in if is_nonblank (String.◌∷◌ c s) then String.◌∷◌ c rest else ""

  abbrev pub strip_or_blank : Option String → String
  strip_or_blank none = ""
  strip_or_blank (some s) = rstrip (lstrip s)

  -- The pieces of the stripped text that are not blank.
  abbrev pub items_of : Option String → List String
  items_of raw = select is_nonblank (split (strip_or_blank raw))

abbrev pub is_empty : List String → Bool
is_empty [] = true
is_empty (x ∷ xs) = false

-- NOTIFICATION_CHANNEL_CHOICES
abbrev pub is_channel : String → Bool
is_channel s = str_eq s "app" || str_eq s "realtime" || str_eq s "sms" || str_eq s "email"

unfoldable pub clean_channels_csv : Texts → (raw : Option String) → Cleaned
clean_channels_csv texts raw =
    let items = items_of texts raw in
    if not (all is_channel items)
    then invalid
    else if is_empty items
    then invalid
    else clean (join items)

abbrev pub is_role : String → Bool
is_role s = str_eq s "super_admin" || str_eq s "admin" || str_eq s "operator"

-- What the check makes of one token; `is_organization` is the table of organizations.
unfoldable pub check_group :
    Texts → (is_organization : ℕ → Bool) → (org_id token : String) → Cleaned
check_group texts is_organization org_id token =
    if not (texts.is_digit org_id) then invalid else elim (texts.int_of org_id) [
      | none ↦ raised
      | some n ↦ if is_organization n then clean token else invalid
    ]

unfoldable pub check_token : Texts → (is_organization : ℕ → Bool) → (token : String) → Cleaned
unfolding check_group
check_token texts is_organization token =
    if str_eq token "all_users" || str_eq token "leaders"
    then clean token
    else elim (strip_prefix "group:" token) [
      | some org_id ↦ check_group texts is_organization org_id token
      | none ↦ elim (strip_prefix "role:" token) [
        | some held ↦ if is_role held then clean token else invalid
        | none ↦ invalid
      ]
    ]

-- The loop over the tokens; the first that is not clean ends it.
unfoldable pub check_tokens : Texts → (is_organization : ℕ → Bool) → List String → Option Cleaned
check_tokens texts is_organization [] = none
check_tokens texts is_organization (token ∷ rest) =
    let later = check_tokens texts is_organization rest in
    elim (check_token texts is_organization token) [
      | clean _ ↦ later
      | invalid ↦ some invalid
      | raised ↦ some raised
    ]

unfoldable pub clean_recipients_csv :
    Texts → (is_organization : ℕ → Bool) → (raw : Option String) → Cleaned
clean_recipients_csv texts is_organization raw =
    let items = items_of texts raw in
    if is_empty items then invalid else elim (check_tokens texts is_organization items) [
      | some stopped ↦ stopped
      | none ↦ clean (join items)
    ]

abbrev pub is_nonempty : String → Bool
is_nonempty String.[] = false
is_nonempty (String.◌∷◌ c s) = true

-- `channels_list` and `recipients_list`
unfoldable pub pieces_list : (csv : String) → List String
pieces_list csv = select is_nonempty (split csv)

-- How the dispatcher reads a token.
unfoldable pub token_of : Texts → String → Token
token_of texts token =
    if str_eq token "all_users"
    then all_users
    else if str_eq token "leaders"
    then leaders
    else elim (strip_prefix "group:" token) [
      | some org_id ↦ group (texts.int_of org_id)
      | none ↦ elim (strip_prefix "role:" token) [ some held ↦ role held | none ↦ unknown token ]
    ]
