-- ===== src/Subscribe/Payouts.antt =====
-- subscribe/application/service.go: payouts, and the register's balance.
pub mod Repeat
use payme_mock.Base.{Bool, true, false, not, ◌&&◌, Option, none, some, if◌then◌else◌}
use payme_mock.Base.Int.{ℤ, pos, leb_ℤ, eq_ℤ}
use payme_mock.Base.Text.{Text, is_empty, eq_text}
use payme_mock.Base.Dict.{Dict}
use payme_mock.Kernel.Errors.{err_invalid_amount, err_cannot_perform, err_unauthorized}
use payme_mock.Kernel.Effect.{
  Result, ok, err, fail, Action, pure, refuse, read, lift, is_not_found, ◌>>=◌, ◌>>◌,
}
use payme_mock.Subscribe.Card.{Card, operable, system, receive}
use payme_mock.Subscribe.Receipt.{Receipt, new_payout, complete, is_paid}
use payme_mock.Subscribe.Ports.{Ports, Settings, Ledger, Payout, ReceiptView}
use payme_mock.Subscribe.View.{clock, fresh, load_card, load_receipt, answer}

unfoldable pub payout_of : Receipt → Payout
payout_of r = record {
  transaction_id = r.merchant_txn;
  amount = r.amount;
  account = r.account;
  create_time = r.create_time;
  pay_time = r.pay_time;
}

module _ {W : Type 0} (ports : Ports W) (settings : Settings) where
  open_in : Option (Ledger W) → Receipt → Action W (Unit {0})
  unfolding payout_of
  open_in none r = pure tt
  open_in (some ledger) r = ledger.open_payout (payout_of r)

  settle_in : Option (Ledger W) → Receipt → Action W (Unit {0})
  unfolding payout_of
  settle_in none r = pure tt
  settle_in (some ledger) r = ledger.settle_payout (payout_of r)

  -- `TransactionsCreate`, of (amount, token, account).
  unfoldable pub transactions_create : ℤ → Text → Dict Text Text → Action W ReceiptView
  unfolding open_in
  transactions_create amount token account =
      if leb_ℤ amount (pos 0) then refuse err_invalid_amount else do
        card ← load_card ports settings token
        lift (operable card)
        id ← fresh ports settings ports.new_receipt_id
        now ← clock ports settings
        txn ← fresh ports settings ports.transaction_id
        let plain = new_payout settings.sandbox_id id settings.merchant_id amount account now
        let receipt = record plain {
          card_id = some card.id;
          card_system = some (system card);
          merchant_txn = txn;
        }
        ports.create_receipt receipt
        open_in ports.ledger receipt
        answer ports settings receipt

  found_card : Result Card → Result Card
  found_card (ok card) = ok card
  found_card (err e) = if is_not_found e then fail err_cannot_perform else err e

  named_card : Text → ℤ → Action W Card
  named_card token id = do
    card ← load_card ports settings token
    if not (eq_ℤ card.id id) then refuse err_cannot_perform else pure card

  card_for : Option ℤ → Text → Action W Card
  unfolding found_card named_card
  card_for none token = refuse err_cannot_perform
  card_for (some id) token =
      if not (is_empty token)
      then named_card token id
      else read (λ w. found_card (ports.card_by_id id w))

  -- `payoutCard`
  unfoldable pub payout_card : Receipt → Text → Action W Card
  unfolding card_for
  payout_card r token = card_for r.card_id token

  -- The part of `TransactionsComplete` for a payout that is not settled yet.
  unfoldable pub settle_payout : ℤ → Receipt → Card → Action W ReceiptView
  unfolding settle_in
  settle_payout amount receipt card = do
    now ← clock ports settings
    let completed = complete amount now receipt
    lift completed.0
    settle_in ports.ledger completed.1
    ports.update_card (receive receipt.amount card)
    ports.update_receipt completed.1
    answer ports settings completed.1

  -- A payout that is settled already is answered as it stands.
  settle_unless : Bool → ℤ → Receipt → Card → Action W ReceiptView
  settle_unless true amount receipt card = answer ports settings receipt
  settle_unless false amount receipt card = settle_payout amount receipt card

  -- The part of `TransactionsComplete` after the receipt was loaded; the flag is its `payout`.
  complete_payout : Bool → Text → ℤ → Receipt → Action W ReceiptView
  unfolding settle_unless
  complete_payout false token amount receipt = refuse err_cannot_perform
  complete_payout true token amount receipt = do
    card ← payout_card receipt token
    settle_unless (is_paid receipt.state) amount receipt card

  -- `TransactionsComplete`, of (id, token, amount).
  unfoldable pub transactions_complete : Text → Text → ℤ → Action W ReceiptView
  unfolding complete_payout
  transactions_complete id token amount = do
    receipt ← load_receipt ports settings id
    complete_payout receipt.payout token amount receipt

  balance_of : Option (Ledger W) → Text → Action W ℤ
  unfolding eq_text
  balance_of none merchant_id = refuse err_cannot_perform
  balance_of (some ledger) merchant_id =
      if not (is_empty merchant_id) && not (eq_text merchant_id settings.merchant_id)
      then refuse err_unauthorized
      else read ledger.balance

  -- `AccountsGetBalance`
  unfoldable pub accounts_get_balance : Text → Action W ℤ
  unfolding balance_of
  accounts_get_balance merchant_id = balance_of ports.ledger merchant_id
