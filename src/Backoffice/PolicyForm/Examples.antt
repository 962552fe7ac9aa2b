-- ===== src/Backoffice/PolicyForm/Examples.antt =====
-- The form on a few texts.
use Prim.Native.Char.{code}
use sen_sa.Prelude.{
  ℕ, ◌≡◌, refl, ◌⊎◌, Bool, true, false, none, some, [], ◌∷◌, String, ◌==◌, all, All, if◌then◌else◌,
}
use sen_sa.Prelude.Text.{str_eq, strip_prefix}
use sen_sa.Backoffice.PolicyForm.{
  Texts, split, join, is_nonblank, lstrip, rstrip, items_of, clean, invalid, is_empty, is_channel,
  clean_channels_csv, check_group, check_token, check_tokens, clean_recipients_csv, pieces_list,
  token_of,
}
use sen_sa.Backoffice.PolicyForm.RoundTrip.{
  IsReadable, clean_channels_csv-pieces_list, clean_recipients_csv-IsReadable,
}

-- Every digit text is 7.
abbrev texts : Texts
texts = record {
  is_space = λ c. code c == 32;
  is_digit = λ s. str_eq s "7";
  int_of = λ s. if str_eq s "7" then some 7 else none;
}

abbrev exists : ℕ → Bool
exists n = n == 7

split_of_three : split "app,,sms" ≡ "app" ∷ "" ∷ "sms" ∷ []
unfolding split
split_of_three = refl

a_blank_piece : items_of texts (some " app, ,sms ") ≡ "app" ∷ "sms" ∷ []
unfolding split is_nonblank lstrip rstrip
a_blank_piece = refl

a_space_before : clean_channels_csv texts (some "app, sms") ≡ invalid
unfolding clean_channels_csv split is_nonblank lstrip rstrip
a_space_before = refl

saved : clean_recipients_csv texts exists (some "leaders,group:7") ≡ clean "leaders,group:7"
unfolding clean_recipients_csv check_tokens check_token check_group strip_prefix split join
    is_nonblank lstrip rstrip
saved = refl

clean_channels_csv-pieces_list_example :
    let items = items_of texts (some "app") in
    ((csv : String) × (clean_channels_csv texts (some "app") ≡ clean csv)
      × (pieces_list csv ≡ items)
      × (is_empty items ≡ false)
      × All (λ s. is_channel s ≡ true) items)
    ⊎ ((clean_channels_csv texts (some "app") ≡ invalid)
        × ((all is_channel items ≡ false) ⊎ (is_empty items ≡ true)))
clean_channels_csv-pieces_list_example = clean_channels_csv-pieces_list texts (some "app")

clean_recipients_csv-IsReadable_example :
    (pieces_list "leaders,group:7" ≡ items_of texts (some "leaders,group:7"))
    × (is_empty (pieces_list "leaders,group:7") ≡ false)
    × All (λ t. IsReadable texts exists (token_of texts t)) (pieces_list "leaders,group:7")
clean_recipients_csv-IsReadable_example =
    clean_recipients_csv-IsReadable texts exists (some "leaders,group:7") "leaders,group:7" saved
