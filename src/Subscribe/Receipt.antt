-- ===== src/Subscribe/Receipt.antt =====
-- subscribe/domain/receipt.go: the receipt and the walk that it makes from created to settled.
pub mod Laws
pub mod Walk
use payme_mock.Base.{
  Bool, true, false, not, ◌&&◌, ◌||◌, Option, none, some, List, [], ◌∷◌, if◌then◌else◌,
}
use payme_mock.Base.Int.{ℤ, pos, ltb_ℤ, eq_ℤ}
use payme_mock.Base.Text.{Text}
use payme_mock.Base.Dict.{Dict}
use payme_mock.Kernel.Errors.{err_cannot_perform, err_invalid_amount}
use payme_mock.Kernel.Effect.{Result, ok, fail, Action}
use payme_mock.Subscribe.Card.{CardSystem}

-- The type is an int; `undocumented` is any value but the eleven.
pub data ReceiptState : Type 0 where
  created checking withdrawn closing paid held hold_accepted paused cancel_queued close_queued
        cancelled :
      ReceiptState
  undocumented : ℤ → ReceiptState

abbrev pub is_created : ReceiptState → Bool
is_created ReceiptState.created = true
is_created _ = false

abbrev pub is_paid : ReceiptState → Bool
is_paid ReceiptState.paid = true
is_paid _ = false

abbrev pub is_held : ReceiptState → Bool
is_held ReceiptState.held = true
is_held _ = false

abbrev pub is_cancel_queued : ReceiptState → Bool
is_cancel_queued ReceiptState.cancel_queued = true
is_cancel_queued _ = false

-- `state == StateCancelQueued || state == StateCancelled`
abbrev pub is_cancelling : ReceiptState → Bool
is_cancelling ReceiptState.cancel_queued = true
is_cancelling ReceiptState.cancelled = true
is_cancelling _ = false

-- `x == s` for the states of the paying walk, which are all that `x` ranges over.
abbrev is_step : ReceiptState → ReceiptState → Bool
is_step ReceiptState.checking ReceiptState.checking = true
is_step ReceiptState.withdrawn ReceiptState.withdrawn = true
is_step ReceiptState.closing ReceiptState.closing = true
is_step ReceiptState.paid ReceiptState.paid = true
is_step _ _ = false

unfoldable pub receipt_valid : ReceiptState → Bool
receipt_valid (ReceiptState.undocumented n) = false
receipt_valid _ = true

unfoldable pub terminal : ReceiptState → Bool
terminal ReceiptState.paid = true
terminal ReceiptState.cancelled = true
terminal _ = false

unfoldable pub in_progress : ReceiptState → Bool
in_progress ReceiptState.checking = true
in_progress ReceiptState.withdrawn = true
in_progress ReceiptState.closing = true
in_progress ReceiptState.cancel_queued = true
in_progress ReceiptState.close_queued = true
in_progress _ = false

-- `detail` and `payer` are JSON objects that are stored and handed back unread: their encoding.
pub record Receipt : Type 0 where
  pub id : ℤ
  pub sandbox_id : ℤ
  pub receipt_id : Text
  pub merchant_id : Text
  pub amount : ℤ
  pub currency : ℤ
  pub commission : ℤ
  pub state : ReceiptState
  pub receipt_type : ℤ
  pub payout : Bool
  pub hold : Bool
  pub hold_expire : ℤ
  pub card_system : Option CardSystem
  pub account : Dict Text Text
  pub detail : Text
  pub description : Text
  pub card_id : Option ℤ
  pub payer : Text
  pub create_time : ℤ
  pub pay_time : ℤ
  pub cancel_time : ℤ
  pub merchant_txn : Text

abbrev pub currency_uzs : ℤ
currency_uzs = pos 860

abbrev pub type_card_payment : ℤ
type_card_payment = pos 1

unfoldable pub new_receipt : ℤ → Text → Text → ℤ → Dict Text Text → ℤ → Receipt
new_receipt sandbox_id receipt_id merchant_id amount account now = record {
  id = pos 0;
  sandbox_id = sandbox_id;
  receipt_id = receipt_id;
  merchant_id = merchant_id;
  amount = amount;
  currency = currency_uzs;
  commission = pos 0;
  state = ReceiptState.created;
  receipt_type = type_card_payment;
  payout = false;
  hold = false;
  hold_expire = pos 0;
  card_system = none;
  account = account;
  detail = [];
  description = [];
  card_id = none;
  payer = [];
  create_time = now;
  pay_time = pos 0;
  cancel_time = pos 0;
  merchant_txn = [];
}

unfoldable pub new_payout : ℤ → Text → Text → ℤ → Dict Text Text → ℤ → Receipt
unfolding new_receipt
new_payout sandbox_id receipt_id merchant_id amount account now =
    record (new_receipt sandbox_id receipt_id merchant_id amount account now) { payout = true }

-- `Receipt.Complete`
unfoldable pub complete : ℤ → ℤ → Action Receipt (Unit {0})
complete amount now r =
    if not r.payout || not (is_created r.state)
    then (fail err_cannot_perform, r)
    else if not (eq_ℤ amount r.amount)
    then (fail err_invalid_amount, r)
    else (ok tt, record r { state = ReceiptState.paid; pay_time = now })

abbrev pub pay_progression : List ReceiptState
pay_progression =
    ReceiptState.checking ∷ ReceiptState.withdrawn ∷ ReceiptState.closing ∷ ReceiptState.paid ∷ []

-- The loop of `NextPayState`: the state after the first occurrence, if one follows it.
next_in : ReceiptState → List ReceiptState → Option ReceiptState
next_in s [] = none
next_in s (x ∷ []) = none
next_in s (x ∷ y ∷ rest) = if is_step x s then some y else next_in s (y ∷ rest)

-- `NextPayState`: `none` where no step remains.
unfoldable pub next_pay_state : Receipt → Option ReceiptState
unfolding next_in
next_pay_state r =
    if is_created r.state then some ReceiptState.checking else next_in r.state pay_progression

-- `BeginPay`
unfoldable pub begin_pay : ℤ → CardSystem → Bool → ℤ → Action Receipt (Unit {0})
begin_pay card_id card_system hold now r =
    if not (is_created r.state) then (fail err_cannot_perform, r) else (
      ok tt,
      record r {
        card_id = some card_id;
        card_system = some card_system;
        hold = hold;
        state = ReceiptState.checking;
        pay_time = now;
      },
    )

advance_to : Option ReceiptState → Receipt → Bool × Receipt
advance_to none r = (false, r)
advance_to (some next) r =
    if r.hold && is_paid next
    then (true, record r { state = ReceiptState.held })
    else (true, record r { state = next })

-- `Advance`: whether the state changed, and the receipt after it.
unfoldable pub advance : ℤ → Receipt → Bool × Receipt
unfolding advance_to next_pay_state
advance now r =
    if is_cancel_queued r.state
    then (true, record r { state = ReceiptState.cancelled; cancel_time = now })
    else advance_to (next_pay_state r) r

-- `ConfirmHold`
unfoldable pub confirm_hold : ℤ → Action Receipt (Unit {0})
confirm_hold now r =
    if not (is_held r.state)
    then (fail err_cannot_perform, r)
    else (ok tt, record r { state = ReceiptState.paid; pay_time = now; hold = false })

-- `Receipt.Cancel`
unfoldable pub cancel : ℤ → Action Receipt (Unit {0})
unfolding in_progress
cancel now r =
    if is_cancelling r.state
    then (ok tt, r)
    else if is_created r.state
    then (ok tt, record r { state = ReceiptState.cancelled; cancel_time = now })
    else if is_paid r.state || (is_held r.state || in_progress r.state)
    then (ok tt, record r { state = ReceiptState.cancel_queued; cancel_time = now })
    else (fail err_cannot_perform, r)

unfoldable pub hold_expired : ℤ → Receipt → Bool
hold_expired now r = r.hold && (ltb_ℤ (pos 0) r.hold_expire && ltb_ℤ r.hold_expire now)
