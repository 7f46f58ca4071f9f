-- ===== src/Subscribe/View.antt =====
-- subscribe/application/service.go and dto.go: how cards and receipts are loaded and rendered.
pub mod Load
use payme_mock.Base.{
  ◌-◌, Bool, true, false, Option, none, some, List, [], ◌∷◌, ◌++◌, ltb, if◌then◌else◌,
}
use payme_mock.Base.Int.{ℤ, pos, minus, leb_ℤ}
use payme_mock.Base.Text.{Text, text, length, take, drop, eq_text, is_empty}
use payme_mock.Base.Dict.{Dict, lookup, text_eq}
use payme_mock.Kernel.Errors.{
  new_message, err_invalid_request, err_cannot_perform, err_transaction_not_found,
}
use payme_mock.Kernel.Effect.{Result, ok, err, fail, Action, read, is_not_found}
use payme_mock.Subscribe.Card.{Card, number_mask, plain_expire}
use payme_mock.Subscribe.Receipt.{Receipt}
use payme_mock.Subscribe.Ports.{
  Ports, Settings, CardView, ReceiptCardView, Title, AccountFieldView, ReceiptView,
}

unfoldable pub view_of : Card → CardView
view_of c = record {
  number = number_mask c;
  expire = c.expire;
  token = c.token;
  recurrent = c.recurrent;
  verify = c.verify;
}

unfoldable pub mask_phone : Text → Text
mask_phone phone =
    if ltb (length phone) 9
    then phone
    else take 5 phone ++ (text "*****" ++ drop (length phone - 2) phone)

abbrev pub no_operation : ℤ
no_operation = minus 1

unfoldable pub account_title : Text → Title
unfolding eq_text
account_title name =
    if eq_text name (text "order_id")
    then Title.documented (new_message "Код заказа" "Buyurtma kodi" "Order code")
    else if eq_text name (text "phone")
    then Title.documented (new_message "Телефон" "Telefon" "Phone")
    else if eq_text name (text "login")
    then Title.documented (new_message "Логин" "Login" "Login")
    else if eq_text name (text "account")
    then Title.documented (new_message "Лицевой счёт" "Shaxsiy hisob" "Account")
    else if eq_text name (text "client_id")
    then Title.documented (new_message "Идентификатор клиента" "Mijoz identifikatori" "Client id")
    else Title.plain name

-- `account[name]`, which is empty where the key is missing.
abbrev value_or_empty : Option Text → Text
value_or_empty none = []
value_or_empty (some v) = v

keys : Dict Text Text → List Text
keys [] = []
keys ((k, v) ∷ m) = k ∷ keys m

-- The loop of `accountView` over the sorted names; `main` marks the first.
fields_of : Bool → Dict Text Text → List Text → List AccountFieldView
unfolding account_title lookup
fields_of main account [] = []
fields_of main account (name ∷ names) =
    record {
      name = name;
      title = account_title name;
      value = value_or_empty (lookup name account);
      main = main;
    }
    ∷ fields_of false account names

module _ {W : Type 0} (ports : Ports W) (settings : Settings) where
  unfoldable pub account_view : Dict Text Text → List AccountFieldView
  unfolding fields_of keys
  account_view account = fields_of true account (ports.sort_strings (keys account))

  card_shown : Result Card → Option ReceiptCardView
  card_shown (err e) = none
  card_shown (ok c) = some (record { number = number_mask c; expire = plain_expire c.expire })

  card_of : Option ℤ → W → Option ReceiptCardView
  unfolding card_shown
  card_of none w = none
  card_of (some id) w = card_shown (ports.card_by_id id w)

  -- `receiptCard`
  unfoldable pub receipt_card : Receipt → W → Option ReceiptCardView
  unfolding card_of
  receipt_card r w = card_of r.card_id w

  -- `view`
  unfoldable pub view : Receipt → W → ReceiptView
  view r w = record {
    id = r.receipt_id;
    create_time = r.create_time;
    pay_time = r.pay_time;
    cancel_time = r.cancel_time;
    state = r.state;
    receipt_type = r.receipt_type;
    operation = no_operation;
    description = r.description;
    detail = r.detail;
    amount = r.amount;
    currency = r.currency;
    commission = r.commission;
    account = account_view r.account;
    card = receipt_card r w;
    merchant_id = r.merchant_id;
    merchant_name = settings.merchant_name;
    organization = settings.merchant_name;
    owner = r.merchant_id;
  }

  -- A method's answer with a receipt.
  abbrev pub answer : Receipt → Action W ReceiptView
  answer r = read (λ w. ok (view r w))

  abbrev pub clock : Action W ℤ
  clock w = let (t, w') = ports.now w in (ok t, w')

  abbrev pub fresh : (W → Text × W) → Action W Text
  fresh f w = let (t, w') = f w in (ok t, w')

  -- `stall`
  unfoldable pub stall : Card → W → W
  stall c w = if leb_ℤ c.delay_millis (pos 0) then w else ports.sleep c.delay_millis w

  loaded_card : Result Card → Action W Card
  unfolding stall
  loaded_card (ok c) w = (ok c, stall c w)
  loaded_card (err e) w = if is_not_found e then (fail err_cannot_perform, w) else (err e, w)

  -- `loadCard`
  unfoldable pub load_card : Text → Action W Card
  unfolding loaded_card
  load_card token w =
      if is_empty token
      then (fail err_invalid_request, w)
      else loaded_card (ports.card_by_token token w) w

  loaded_receipt : Result Receipt → Result Receipt
  loaded_receipt (ok r) = ok r
  loaded_receipt (err e) = if is_not_found e then fail err_transaction_not_found else err e

  -- `loadReceipt`
  unfoldable pub load_receipt : Text → Action W Receipt
  unfolding loaded_receipt
  load_receipt id w =
      if is_empty id
      then (fail err_invalid_request, w)
      else (loaded_receipt (ports.receipt_by_id id w), w)
