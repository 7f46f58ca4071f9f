-- ===== src/Checkout.antt =====
-- internal/context/payment/checkout/domain/receipt.go: the checkout receipt and the link that
-- carries it. A Go map is an association list, and all errors are ErrMalformed, so `none`.
pub mod Fiscal
pub mod Parse
pub mod Account
pub mod Pairs
pub mod RoundTrip
use payme_mock.Base.{
  ℕ, Bool, true, false, not, ◌&&◌, ◌||◌, Option, none, some, List, [], ◌∷◌, ◌++◌, if◌then◌else◌,
}
use payme_mock.Base.Int.{ℤ, pos, leb_ℤ, ltb_ℤ}
use payme_mock.Base.Text.{Text, text, is_empty, eq_text}
use payme_mock.Base.Strings.{join, trim_suffix, replace_from, sort_texts}
use payme_mock.Base.Dict.{Dict, lookup, text_eq}
use payme_mock.Base.Decimal.{format_int}
use payme_mock.Kernel.Base64.{encode}
use payme_mock.Checkout.Fiscal.{Detail}

-- A string with three named constants.
abbrev pub Language : Type 0
Language = Text

-- `Language.Valid`
unfoldable pub valid_language : Language → Bool
unfolding eq_text
valid_language l = eq_text l (text "ru") || eq_text l (text "uz") || eq_text l (text "en")

pub record Receipt : Type 0 where
  pub merchant_id : Text
  pub account : Dict Text Text
  pub amount : ℤ
  pub lang : Language
  pub callback : Text
  pub callback_timeout : ℤ
  pub currency : ℤ
  pub description : Text
  pub detail : Option Detail

abbrev pub no_account : Dict Text Text → Bool
no_account [] = true
no_account (x ∷ m) = false

-- `Validate`: whether the receipt carries what a payment needs.
unfoldable pub validate : Receipt → Bool
validate r =
    not (is_empty r.merchant_id) && not (leb_ℤ r.amount (pos 0)) && not (no_account r.account)

-- `ResolveCallback`
unfoldable pub resolve_callback : Receipt → Text → Text
unfolding replace_from
resolve_callback r transaction =
    if is_empty r.callback then [] else replace_from (text ":transaction") transaction 0 r.callback

abbrev pub semicolon : ℕ
semicolon = 59

abbrev pub equals : ℕ
equals = 61

-- `key + "=" + value`
abbrev pub pair : Text → Text → Text
pair key value = key ++ (equals ∷ value)

unfoldable pub fields_of : Dict Text Text → List Text
fields_of [] = []
fields_of ((field, value) ∷ m) = field ∷ fields_of m

abbrev value_or_empty : Option Text → Text
value_or_empty none = []
value_or_empty (some v) = v

-- `r.Account[field]`
unfoldable pub value_at : Text → Dict Text Text → Text
value_at field account = value_or_empty (lookup field account)

abbrev pub account_prefix : Text
account_prefix = text "ac."

unfoldable pub account_pairs : List Text → Dict Text Text → List Text
account_pairs [] account = []
account_pairs (field ∷ fields) account =
    pair (account_prefix ++ field) (value_at field account) ∷ account_pairs fields account

abbrev pub optional_pair : Bool → Text → Text → List Text
optional_pair true key value = pair key value ∷ []
optional_pair false key value = []

abbrev pub lang_pair : Receipt → List Text
lang_pair r = optional_pair (not (is_empty r.lang)) (text "l") r.lang

abbrev pub callback_pair : Receipt → List Text
callback_pair r = optional_pair (not (is_empty r.callback)) (text "c") r.callback

abbrev pub timeout_pair : Receipt → List Text
timeout_pair r =
    optional_pair (ltb_ℤ (pos 0) r.callback_timeout) (text "ct") (format_int r.callback_timeout)

abbrev pub currency_pair : Receipt → List Text
currency_pair r = optional_pair (ltb_ℤ (pos 0) r.currency) (text "cr") (format_int r.currency)

-- The pairs that are written only where they are set.
abbrev pub extra_pairs : Receipt → List Text
extra_pairs r = lang_pair r ++ (callback_pair r ++ (timeout_pair r ++ currency_pair r))

abbrev pub get_pairs : Receipt → List Text
get_pairs r =
    pair (text "m") r.merchant_id
    ∷ (account_pairs (sort_texts (fields_of r.account)) r.account
        ++ (pair (text "a") (format_int r.amount) ∷ extra_pairs r))

-- `EncodeGET`
unfoldable pub encode_get : Receipt → Text
encode_get r = encode (join semicolon (get_pairs r))

-- `CheckoutURL`
unfoldable pub checkout_url : Receipt → Text → Text
unfolding encode_get trim_suffix
checkout_url r base = trim_suffix 47 base ++ (47 ∷ encode_get r)
