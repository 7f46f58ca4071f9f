-- ===== src/Checkout/RoundTrip.antt =====
-- A checkout link read back: EncodeGET of internal/context/payment/checkout/domain/receipt.go and
-- ParseGET of parse.go.
use payme_mock.Base.{
  ◌≡◌, refl, ◌∙◌, Bool, true, false, not, Option, none, some, List, [], ◌∷◌, ◌++◌, arith,
  Bool-cases, inl, inr,
}
use payme_mock.Base.Int.{ℤ, pos, ltb_ℤ}
use payme_mock.Base.Int64.{IsInt64}
use payme_mock.Base.Text.{Text, text, is_empty}
use payme_mock.Base.Strings.{join, sort_texts}
use payme_mock.Base.Strings.Laws.{Lacks, AllLack, split-join}
use payme_mock.Base.Dict.{lookup, text_eq}
use payme_mock.Base.Decimal.{format_int}
use payme_mock.Kernel.Base64.{encode}
use payme_mock.Kernel.Base64.Laws.{IsBytes, decode-encode, encode-Plain, trim_space-Plain}
use payme_mock.Checkout.{
  Receipt, validate, semicolon, equals, pair, fields_of, account_pairs, optional_pair, extra_pairs,
  lang_pair, callback_pair, timeout_pair, currency_pair, get_pairs, encode_get,
}
use payme_mock.Checkout.Account.{
  inserted, AllOf, lookup-collected, collected-Nonempty, sort_texts-AllOf,
}
use payme_mock.Checkout.Pairs.{
  GoodField, apply_pairs-append, apply_pair-pair, apply_pairs-account, account_pairs-AllLack,
  AllLack-append, format_int-Lacks, parse-format_positive, positive,
}
use payme_mock.Checkout.Parse.{
  empty_receipt, apply_plain_key, apply_get_key, apply_pairs, then_apply, validated, parse_get,
}

-- No text of the link holds the separator, and the numbers are those of Go.
pub record IsClean (r : Receipt) : Type 0 where
  pub bytes : IsBytes (join semicolon (get_pairs r))
  pub merchant_id : Lacks semicolon r.merchant_id
  pub fields : AllOf (GoodField r.account) (fields_of r.account)
  pub lang : Lacks semicolon r.lang
  pub callback : Lacks semicolon r.callback
  pub amount : IsInt64 r.amount
  pub timeout : IsInt64 r.callback_timeout
  pub currency : IsInt64 r.currency

abbrev sorted_fields : Receipt → List Text
sorted_fields r = sort_texts (fields_of r.account)

-- What a link carries of a receipt: not the description and the fiscal detail, and of the timeout
-- and the currency only what is above zero.
abbrev pub carried : Receipt → Receipt
carried r = record r {
  account = inserted (sorted_fields r) r.account [];
  callback_timeout = positive r.callback_timeout;
  currency = positive r.currency;
  description = [];
  detail = none;
}

abbrev joined : Receipt → Text
joined r = join semicolon (get_pairs r)

-- The pairs behind the first.
abbrev later_pairs : Receipt → List Text
later_pairs r =
    account_pairs (sorted_fields r) r.account
    ++ (pair (text "a") (format_int r.amount) ∷ extra_pairs r)

apply_one :
    (key value : Text) (r : Receipt)
    → Lacks equals key
    → apply_pairs (pair key value ∷ []) r ≡ apply_get_key key value r
unfolding apply_pairs
apply_one key value r h = rw (apply_pair-pair key value r h) (settled (apply_get_key key value r))
  where
    settled : (o : Option Receipt) → then_apply o some ≡ o
    settled none = refl
    settled (some r') = refl

lang_read :
    (l : Text) (r : Receipt)
    → apply_pairs (optional_pair (not (is_empty l)) (text "l") l) (record r { lang = [] })
      ≡ some (record r { lang = l })
unfolding apply_get_key apply_plain_key
lang_read [] r = unfold apply_pairs in refl
lang_read (x ∷ l) r = apply_one (text "l") (x ∷ l) (record r { lang = [] }) (omega arith)

callback_read :
    (c : Text) (r : Receipt)
    → apply_pairs (optional_pair (not (is_empty c)) (text "c") c) (record r { callback = [] })
      ≡ some (record r { callback = c })
unfolding apply_get_key apply_plain_key
callback_read [] r = unfold apply_pairs in refl
callback_read (x ∷ c) r = apply_one (text "c") (x ∷ c) (record r { callback = [] }) (omega arith)

timeout_read :
    (z : ℤ) (r : Receipt)
    → IsInt64 z
    → apply_pairs
        (optional_pair (ltb_ℤ (pos 0) z) (text "ct") (format_int z))
        (record r { callback_timeout = pos 0 })
      ≡ some (record r { callback_timeout = positive z })
unfolding apply_get_key apply_plain_key
timeout_read z r h = elim (Bool-cases (ltb_ℤ (pos 0) z)) [
  | inl e ↦ rw (
    e,
    apply_one (text "ct") (format_int z) (record r { callback_timeout = pos 0 }) (omega arith),
    parse-format_positive z h e,
  )
  | inr e ↦ rw e (unfold apply_pairs in refl)
]

currency_read :
    (z : ℤ) (r : Receipt)
    → IsInt64 z
    → apply_pairs
        (optional_pair (ltb_ℤ (pos 0) z) (text "cr") (format_int z))
        (record r { currency = pos 0 })
      ≡ some (record r { currency = positive z })
unfolding apply_get_key apply_plain_key
currency_read z r h = elim (Bool-cases (ltb_ℤ (pos 0) z)) [
  | inl e ↦ rw (
    e,
    apply_one (text "cr") (format_int z) (record r { currency = pos 0 }) (omega arith),
    parse-format_positive z h e,
  )
  | inr e ↦ rw e (unfold apply_pairs in refl)
]

amount_read :
    (z : ℤ) (r : Receipt)
    → IsInt64 z
    → ltb_ℤ (pos 0) z ≡ true
    → apply_pairs (pair (text "a") (format_int z) ∷ []) r ≡ some (record r { amount = z })
unfolding apply_get_key apply_plain_key
amount_read z r h e =
    rw (apply_one (text "a") (format_int z) r (omega arith), parse-format_positive z h e)

merchant_read :
    (id : Text) (r : Receipt)
    → apply_pairs (pair (text "m") id ∷ []) r ≡ some (record r { merchant_id = id })
unfolding apply_get_key apply_plain_key
merchant_read id r = apply_one (text "m") id r (omega arith)

-- One segment of the pairs after another.
segment :
    (ps qs : List Text) (r : Receipt) {r' : Receipt}
    → apply_pairs ps r ≡ some r'
    → apply_pairs (ps ++ qs) r ≡ apply_pairs qs r'
segment ps qs r e = apply_pairs-append ps qs r ∙ rw e

extra_read :
    (r s : Receipt)
    → IsInt64 r.callback_timeout
    → IsInt64 r.currency
    → apply_pairs
        (extra_pairs r)
        (record s { lang = []; callback = []; callback_timeout = pos 0; currency = pos 0 })
      ≡ some (record s {
        lang = r.lang;
        callback = r.callback;
        callback_timeout = positive r.callback_timeout;
        currency = positive r.currency;
      })
extra_read r s t c =
    segment _ _ _
      (lang_read r.lang (record s { callback = []; callback_timeout = pos 0; currency = pos 0 }))
    ∙ segment _ _ _ (
        callback_read r.callback
          (record s { lang = r.lang; callback_timeout = pos 0; currency = pos 0 }))
    ∙ segment _ _ _ (
        timeout_read r.callback_timeout
          (record s { lang = r.lang; callback = r.callback; currency = pos 0 }) t)
    ∙ currency_read r.currency
        (record s {
          lang = r.lang;
          callback = r.callback;
          callback_timeout = positive r.callback_timeout;
        })
        c

pairs_read :
    (r : Receipt)
    → IsClean r
    → ltb_ℤ (pos 0) r.amount ≡ true
    → apply_pairs (get_pairs r) empty_receipt ≡ some (carried r)
pairs_read r h e =
    segment (pair (text "m") r.merchant_id ∷ []) _ _ (merchant_read r.merchant_id empty_receipt)
    ∙ segment (account_pairs (sorted_fields r) r.account) _ _ (
        apply_pairs-account (sorted_fields r) r.account []
          (record empty_receipt { merchant_id = r.merchant_id })
          (sort_texts-AllOf (GoodField r.account) (fields_of r.account) h.fields))
    ∙ segment (pair (text "a") (format_int r.amount) ∷ []) _ _ (
        amount_read r.amount
          (record empty_receipt { merchant_id = r.merchant_id; account = (carried r).account })
          h.amount e)
    ∙ extra_read r
        (record empty_receipt {
          merchant_id = r.merchant_id;
          account = (carried r).account;
          amount = r.amount;
        })
        h.timeout h.currency

optional_pair-AllLack :
    (b : Bool) (key value : Text)
    → Lacks semicolon (pair key value)
    → AllLack semicolon (optional_pair b key value)
optional_pair-AllLack true key value h = (h, tt)
optional_pair-AllLack false key value h = tt

extra_pairs-AllLack : (r : Receipt) → IsClean r → AllLack semicolon (extra_pairs r)
extra_pairs-AllLack r h =
    AllLack-append (lang_pair r) (callback_pair r ++ (timeout_pair r ++ currency_pair r))
      (optional_pair-AllLack (not (is_empty r.lang)) (text "l") r.lang
        (omega arith, (omega arith, h.lang)))
      (AllLack-append (callback_pair r) (timeout_pair r ++ currency_pair r)
        (optional_pair-AllLack (not (is_empty r.callback)) (text "c") r.callback
          (omega arith, (omega arith, h.callback)))
        (AllLack-append (timeout_pair r) (currency_pair r)
          (optional_pair-AllLack (ltb_ℤ (pos 0) r.callback_timeout) (text "ct")
            (format_int r.callback_timeout)
            (omega arith, (omega arith, (omega arith, format_int-Lacks r.callback_timeout))))
          (optional_pair-AllLack (ltb_ℤ (pos 0) r.currency) (text "cr") (format_int r.currency)
            (omega arith, (omega arith, (omega arith, format_int-Lacks r.currency))))))

get_pairs-AllLack : (r : Receipt) → IsClean r → AllLack semicolon (get_pairs r)
get_pairs-AllLack r h = (
  (omega arith, (omega arith, h.merchant_id)),
  AllLack-append (account_pairs (sorted_fields r) r.account)
      (pair (text "a") (format_int r.amount) ∷ extra_pairs r)
      (account_pairs-AllLack (sorted_fields r) r.account
        (sort_texts-AllOf (GoodField r.account) (fields_of r.account) h.fields))
      ((omega arith, (omega arith, format_int-Lacks r.amount)), extra_pairs-AllLack r h),
)

validate_parts :
    (r : Receipt)
    → validate r ≡ true
    → (ltb_ℤ (pos 0) r.amount ≡ true) × (validate (carried r) ≡ true)
unfolding validate
validate_parts r h = (ground arith, ground (arith, collected-Nonempty r.account))

validated-carried :
    (r : Receipt) → validate (carried r) ≡ true → validated (some (carried r)) ≡ some (carried r)
validated-carried r v = rw v

-- A valid receipt comes back from its link: what ParseGET reads from EncodeGET's text is the same
-- merchant, amount, language and callback, the timeout and the currency where they are above zero,
-- and an account with the same value for every field. The texts hold no `;`, and the names of the
-- account's fields are not empty and hold no `=`.
pub parse_get-encode_get :
    (r : Receipt)
    → IsClean r
    → validate r ≡ true
    → (parse_get (encode_get r) ≡ some (carried r))
      × ((field : Text) → lookup field (carried r).account ≡ lookup field r.account)
unfolding parse_get encode_get
parse_get-encode_get r h v =
    let (e, v') = validate_parts r v in
    (
      rw
          (
            trim_space-Plain (encode (joined r)) (encode-Plain (joined r) h.bytes),
            decode-encode (joined r) h.bytes,
            split-join semicolon (pair (text "m") r.merchant_id) (later_pairs r)
                (get_pairs-AllLack r h),
            pairs_read r h e,
          )
          (validated-carried r v'),
      λ field. lookup-collected field r.account,
    )
