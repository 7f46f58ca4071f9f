-- ===== src/Checkout/Parse.antt =====
-- internal/context/payment/checkout/domain/parse.go: reading a checkout link and a submitted form.
use payme_mock.Base.{Option, none, some, List, [], ◌∷◌, if◌then◌else◌}
use payme_mock.Base.Int.{ℤ, pos}
use payme_mock.Base.Text.{Text, text, is_empty, eq_text}
use payme_mock.Base.Strings.{cut, cut_prefix, cut_suffix, split, trim_space}
use payme_mock.Base.Dict.{Dict, lookup, insert, text_eq}
use payme_mock.Base.Decimal.{parse_int}
use payme_mock.Kernel.Base64.{decode}
use payme_mock.Checkout.Fiscal.{Detail, decode_detail}
use payme_mock.Checkout.{Receipt, validate, semicolon, equals, account_prefix}

abbrev pub empty_receipt : Receipt
empty_receipt = record {
  merchant_id = [];
  account = [];
  amount = pos 0;
  lang = [];
  callback = [];
  callback_timeout = pos 0;
  currency = pos 0;
  description = [];
  detail = none;
}

abbrev set_amount : Receipt → Option ℤ → Option Receipt
set_amount r none = none
set_amount r (some n) = some (record r { amount = n })

abbrev set_timeout : Receipt → Option ℤ → Option Receipt
set_timeout r none = none
set_timeout r (some n) = some (record r { callback_timeout = n })

abbrev set_currency : Receipt → Option ℤ → Option Receipt
set_currency r none = none
set_currency r (some n) = some (record r { currency = n })

-- The keys that are not account fields; an unknown one is ignored.
unfoldable pub apply_plain_key : Text → Text → Receipt → Option Receipt
unfolding eq_text
apply_plain_key key value r =
    if eq_text key (text "m")
    then some (record r { merchant_id = value })
    else if eq_text key (text "a")
    then set_amount r (parse_int value)
    else if eq_text key (text "l")
    then some (record r { lang = value })
    else if eq_text key (text "c")
    then some (record r { callback = value })
    else if eq_text key (text "ct")
    then set_timeout r (parse_int value)
    else if eq_text key (text "cr")
    then set_currency r (parse_int value)
    else some r

abbrev apply_field : Option Text → Text → Text → Receipt → Option Receipt
apply_field none key value r = apply_plain_key key value r
apply_field (some field) key value r =
    if is_empty field then none else some (record r { account = insert field value r.account })

-- `applyGETKey`
unfoldable pub apply_get_key : Text → Text → Receipt → Option Receipt
unfolding cut_prefix insert
apply_get_key key value r = apply_field (cut_prefix account_prefix key) key value r

abbrev apply_cut : Option (Text × Text) → Receipt → Option Receipt
apply_cut none r = none
apply_cut (some (key, value)) r = apply_get_key key value r

unfoldable pub apply_pair : Text → Receipt → Option Receipt
unfolding cut apply_get_key
apply_pair pair r = if is_empty pair then some r else apply_cut (cut equals pair) r

abbrev pub then_apply : Option Receipt → (Receipt → Option Receipt) → Option Receipt
then_apply none next = none
then_apply (some r) next = next r

-- The loop of `ParseGET`.
unfoldable pub apply_pairs : List Text → Receipt → Option Receipt
unfolding apply_pair
apply_pairs [] r = some r
apply_pairs (p ∷ ps) r = then_apply (apply_pair p r) (apply_pairs ps)

abbrev pub validated : Option Receipt → Option Receipt
validated none = none
validated (some r) = if validate r then some r else none

abbrev pub parse_raw : Option Text → Option Receipt
parse_raw none = none
parse_raw (some raw) = validated (apply_pairs (split semicolon raw) empty_receipt)

-- `ParseGET`
unfoldable pub parse_get : Text → Option Receipt
parse_get encoded = parse_raw (decode (trim_space encoded))

-- url.Values: each key with its values.
abbrev pub Values : Type 0
Values = Dict Text (List Text)

abbrev first_value : Option (List Text) → Text
first_value none = []
first_value (some []) = []
first_value (some (v ∷ vs)) = v

-- `form.Get(key)`
unfoldable pub get : Text → Values → Text
unfolding lookup
get key form = first_value (lookup key form)

abbrev named : Option Text → Option Text
named none = none
named (some field) = if is_empty field then none else some field

abbrev cut_bracket : Option Text → Option Text
cut_bracket none = none
cut_bracket (some inner) = named (cut_suffix 93 inner)

-- `accountField`
unfoldable pub account_field : Text → Option Text
unfolding cut_prefix cut_suffix
account_field key = cut_bracket (cut_prefix (text "account[") key)

abbrev put_field : Option Text → List Text → Dict Text Text → Dict Text Text
put_field none values account = account
put_field (some field) [] account = account
put_field (some field) (v ∷ vs) account = insert field v account

-- The loop over the form's keys.
unfoldable pub account_of_form : Values → Dict Text Text → Dict Text Text
unfolding account_field insert
account_of_form [] account = account
account_of_form ((key, values) ∷ form) account =
    account_of_form form (put_field (account_field key) values account)

-- A number of the form: zero where it is not given, `none` where it does not parse.
abbrev number_or_zero : Text → Option ℤ
number_or_zero raw = if is_empty raw then some (pos 0) else parse_int raw

abbrev kept : Option Detail → Option (Option Detail)
kept none = none
kept (some d) = some (some d)

abbrev detail_or_none : (Text → Option Detail) → Text → Option (Option Detail)
detail_or_none unmarshal raw =
    if is_empty raw then some none else kept (decode_detail unmarshal raw)

abbrev with_detail : Option (Option Detail) → Receipt → Option Receipt
with_detail none r = none
with_detail (some d) r = some (record r { detail = d })

abbrev pub then_detail : Option Receipt → Option (Option Detail) → Option Receipt
then_detail none d = none
then_detail (some r) d = with_detail d r

-- `ParsePOST`, over encoding/json for the detail.
unfoldable pub parse_post : (Text → Option Detail) → Values → Option Receipt
unfolding get account_of_form parse_int decode_detail validate
parse_post unmarshal form =
    let blank = record empty_receipt {
      merchant_id = get (text "merchant") form;
      account = account_of_form form [];
      lang = get (text "lang") form;
      callback = get (text "callback") form;
      description = get (text "description") form;
    } in
    let priced = set_amount blank (number_or_zero (get (text "amount") form)) in
    let timed =
      then_apply priced
        (λ r. set_timeout r (number_or_zero (get (text "callback_timeout") form))) in
    validated (then_detail timed (detail_or_none unmarshal (get (text "detail") form)))
