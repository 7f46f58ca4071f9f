-- ===== src/Tests/Checkout.antt =====
-- A checkout link with two account fields.
use payme_mock.Base.{◌≡◌, refl, true, Option, none, some, [], ◌∷◌, arith}
use payme_mock.Base.Int.{pos}
use payme_mock.Base.Text.{Text, text, eq_text, has_prefix}
use payme_mock.Base.Strings.{join, split, trim_space, sort_texts}
use payme_mock.Base.Decimal.{format_int, parse_int}
use payme_mock.Base.Dict.{lookup, text_eq}
use payme_mock.Kernel.Base64.{encode, decode}
use payme_mock.Checkout.{
  Receipt, validate, fields_of, value_at, account_pairs, encode_get, resolve_callback,
}
use payme_mock.Checkout.Parse.{parse_get, apply_pairs, apply_plain_key}
use payme_mock.Checkout.RoundTrip.{IsClean, carried, parse_get-encode_get}

abbrev order : Receipt
order = record {
  merchant_id = text "587f72c7";
  account = (text "order_id", text "197") ∷ (text "branch", text "3") ∷ [];
  amount = pos 500;
  lang = text "uz";
  callback = text "https://shop.uz/paid?id=:transaction";
  callback_timeout = pos 15;
  currency = pos 0;
  description = text "shoes";
  detail = none;
}

abbrev link : Text
link =
    text
      "bT01ODdmNzJjNzthYy5icmFuY2g9MzthYy5vcmRlcl9pZD0xOTc7YT01MDA7bD11ejtjPWh0dHBzOi8vc2hvcC51ei9wYWlkP2lkPTp0cmFuc2FjdGlvbjtjdD0xNQ=="

encoded : encode_get order ≡ link
unfolding encode_get encode join account_pairs fields_of sort_texts value_at format_int lookup
    eq_text
encoded = refl

paid : resolve_callback order (text "tx9") ≡ text "https://shop.uz/paid?id=tx9"
unfolding resolve_callback has_prefix
paid = refl

order_IsClean : IsClean order
unfolding join account_pairs fields_of sort_texts value_at format_int lookup eq_text
order_IsClean = record {
  bytes = omega arith;
  merchant_id = omega arith;
  fields = (
    (refl, omega arith, omega arith, omega arith),
    ((refl, omega arith, omega arith, omega arith), tt),
  );
  lang = omega arith;
  callback = omega arith;
  amount = omega arith;
  timeout = omega arith;
  currency = omega arith;
}

order_valid : validate order ≡ true
unfolding validate
order_valid = refl

parse_get-encode_get_example :
    (parse_get (encode_get order) ≡ some (carried order))
    × ((field : Text) → lookup field (carried order).account ≡ lookup field order.account)
parse_get-encode_get_example = parse_get-encode_get order order_IsClean order_valid

-- A `;` in a field's value ends the pair: what follows is read as a pair of its own.
abbrev cut_short : Receipt
cut_short = record order { account = (text "order_id", text "197;m=other") ∷ [] }

abbrev paid_to : Option Receipt → Text
paid_to none = []
paid_to (some r) = r.merchant_id

another_merchant : paid_to (parse_get (encode_get cut_short)) ≡ text "other"
unfolding parse_get encode_get join account_pairs fields_of sort_texts value_at format_int lookup
    eq_text decode trim_space encode apply_pairs split apply_plain_key parse_int validate
another_merchant = refl
