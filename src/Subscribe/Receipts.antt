-- ===== src/Subscribe/Receipts.antt =====
-- subscribe/application/service.go: the methods on receipts, and the background step.
pub mod Paid
pub mod Refund
pub mod Repeat
use payme_mock.Base.{Bool, not, ◌||◌, Option, none, some, List, map, if◌then◌else◌}
use payme_mock.Base.Int.{ℤ, pos, leb_ℤ, ltb_ℤ, eq_ℤ}
use payme_mock.Base.Int64.{add64}
use payme_mock.Base.Text.{Text, is_empty}
use payme_mock.Base.Dict.{Dict}
use payme_mock.Kernel.Errors.{err_invalid_request, err_invalid_amount}
use payme_mock.Kernel.Effect.{
  Error, Result, ok, err, Action, pure, raise, refuse, read, lift, when, is_ok, is_not_found, ◌>>=◌,
  ◌>>◌,
}
use payme_mock.Subscribe.Card.{Card, usable, system, charge, refund}
use payme_mock.Subscribe.Receipt.{
  Receipt, ReceiptState, new_receipt, begin_pay, confirm_hold, cancel, advance, terminal, is_held,
  is_cancelling, is_cancel_queued,
}
use payme_mock.Subscribe.Ports.{Ports, Settings, ReceiptView, max_get_all_count}
use payme_mock.Subscribe.View.{clock, fresh, load_card, load_receipt, answer, view}

pub record ReceiptsCreateParams : Type 0 where
  pub amount : ℤ
  pub account : Dict Text Text
  pub detail : Text
  pub description : Text
  pub hold : Bool

pub record ReceiptsPayParams : Type 0 where
  pub id : Text
  pub token : Text
  pub payer : Text
  pub hold : Bool

module _ {W : Type 0} (ports : Ports W) (settings : Settings) where
  -- `ReceiptsCreate`
  unfoldable pub receipts_create : ReceiptsCreateParams → Action W ReceiptView
  receipts_create p = if leb_ℤ p.amount (pos 0) then refuse err_invalid_amount else do
    ports.check_perform p.amount p.account
    id ← fresh ports settings ports.new_receipt_id
    now ← clock ports settings
    let plain = new_receipt settings.sandbox_id id settings.merchant_id p.amount p.account now
    let receipt = record plain { detail = p.detail; description = p.description; hold = p.hold }
    ports.create_receipt receipt
    answer ports settings receipt

  -- The chain that `ReceiptsPay` drives the merchant through; the result names the transaction.
  unfoldable pub drive_merchant : Receipt → ℤ → Action W Text
  drive_merchant receipt now = do
    ports.check_perform receipt.amount receipt.account
    id ← fresh ports settings ports.transaction_id
    ports.create_transaction id now receipt.amount receipt.account
    ports.perform_transaction id
    pure id

  -- The receipt as `ReceiptsPay` stores it.
  unfoldable pub paid_with : ReceiptsPayParams → Bool → ℤ → Text → Receipt → Receipt
  paid_with p hold now txn r = record r {
    merchant_txn = txn;
    payer = p.payer;
    hold_expire = if hold then add64 now settings.hold_window_millis else r.hold_expire;
  }

  -- `ReceiptsPay`
  unfoldable pub receipts_pay : ReceiptsPayParams → Action W ReceiptView
  receipts_pay p = do
    receipt ← load_receipt ports settings p.id
    card ← load_card ports settings p.token
    lift (usable receipt.amount card)
    now ← clock ports settings
    let hold = p.hold || receipt.hold
    let begun = begin_pay card.id (system card) hold now receipt
    lift begun.0
    txn ← drive_merchant begun.1 now
    ports.update_card (charge receipt.amount card)
    let paid = paid_with p hold now txn begun.1
    ports.update_receipt paid
    ports.schedule_advance paid.receipt_id settings.step_delay_millis
    answer ports settings paid

  -- `ReceiptsConfirmHold`
  unfoldable pub receipts_confirm_hold : Text → Action W ReceiptView
  receipts_confirm_hold id = do
    receipt ← load_receipt ports settings id
    now ← clock ports settings
    let confirmed = confirm_hold now receipt
    lift confirmed.0
    ports.update_receipt confirmed.1
    answer ports settings confirmed.1

  refund_card : Receipt → Result Card → Action W (Unit {0})
  refund_card r (ok card) = ports.update_card (refund r.amount card)
  refund_card r (err e) = if is_not_found e then pure tt else raise e

  refund_to : Option ℤ → Receipt → Action W (Unit {0})
  unfolding refund_card
  refund_to none r = pure tt
  refund_to (some id) r =
      if eq_ℤ r.pay_time (pos 0) then pure tt else λ w. refund_card r (ports.card_by_id id w) w

  -- The unexported `refund`.
  unfoldable pub refund_receipt : Receipt → Action W (Unit {0})
  unfolding refund_to
  refund_receipt r = refund_to r.card_id r

  -- The writes of a cancellation that is no repeat.
  unfoldable pub cancel_writes : Receipt → Action W (Unit {0})
  cancel_writes r = do
    refund_receipt r
    ports.update_receipt r
    when (is_cancel_queued r.state) (ports.schedule_advance r.receipt_id settings.step_delay_millis)

  -- `ReceiptsCancel`
  unfoldable pub receipts_cancel : Text → Action W ReceiptView
  receipts_cancel id = do
    receipt ← load_receipt ports settings id
    now ← clock ports settings
    let cancelled = cancel now receipt
    lift cancelled.0
    when (not (is_cancelling receipt.state)) (cancel_writes cancelled.1)
    answer ports settings cancelled.1

  send_receipt : Option (Text → Text → Action W (Unit {0})) → Text → Text → Action W Bool
  send_receipt none phone id w = (err (Error.other "nil pointer dereference"), w)
  send_receipt (some send) phone id w = let (r, w') = send phone id w in (ok (is_ok r), w')

  -- `ReceiptsSend`; the result is `success`. With a nil sender Go panics.
  unfoldable pub receipts_send : Text → Text → Action W Bool
  unfolding send_receipt
  receipts_send id phone = do
    receipt ← load_receipt ports settings id
    if is_empty phone
        then refuse err_invalid_request
        else send_receipt ports.sms phone receipt.receipt_id

  -- `ReceiptsCheck`
  unfoldable pub receipts_check : Text → Action W ReceiptState
  receipts_check id = do receipt ← load_receipt ports settings id; pure receipt.state

  -- `ReceiptsGet`
  unfoldable pub receipts_get : Text → Action W ReceiptView
  receipts_get id = do receipt ← load_receipt ports settings id; answer ports settings receipt

  -- `ReceiptsGetAll`, of (from, to, count, offset).
  unfoldable pub receipts_get_all : ℤ → ℤ → ℤ → ℤ → Action W (List ReceiptView)
  receipts_get_all from to count offset =
      if ltb_ℤ max_get_all_count count then refuse err_invalid_request else do
        let effective = if leb_ℤ count (pos 0) then max_get_all_count else count
        found ← read (ports.list_receipts from to effective offset)
        read (λ w. ok (map (λ r. view ports settings r w) found))

  -- The part of `AdvanceReceipt` after a step that changed the state.
  unfoldable pub store_step : Receipt → Action W (Unit {0})
  store_step r = do
    ports.update_receipt r
    when (not (terminal r.state || is_held r.state))
        (ports.schedule_advance r.receipt_id settings.step_delay_millis)

  -- `AdvanceReceipt`
  unfoldable pub advance_receipt : Text → Action W (Unit {0})
  advance_receipt id = do
    receipt ← load_receipt ports settings id
    now ← clock ports settings
    let stepped = advance now receipt
    when stepped.0 (store_step stepped.1)
