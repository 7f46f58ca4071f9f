-- ===== src/Tests/Merchant.antt =====
-- The Merchant API on the stand in the database: a payment is created, confirmed and cancelled.
use payme_mock.Base.{◌≡◌, refl, arith, none, [], ◌∷◌}
use payme_mock.Base.Int.{pos, ◌-ℤ◌}
use payme_mock.Base.Int64.{add64, sub64}
use payme_mock.Base.Text.{text, eq_text}
use payme_mock.Base.Dict.{text_eq}
use payme_mock.Kernel.Errors.{err_invalid_amount}
use payme_mock.Kernel.Effect.{Error, ok, fail, ◌>>=◌}
use payme_mock.Billing.Order.{payable, check_amount, mark_processing, mark_paid, mark_cancelled}
use payme_mock.Billing.Cashbox.{usable, apply, reverse}
use payme_mock.Merchant.Transaction.{
  State, is_final, Transaction, perform, cancel, new_transaction, state_valid,
}
use payme_mock.Merchant.Ports.{CreateParams, CreateResult, PerformResult, CancelResult}
use payme_mock.Merchant.Orders.{resolve_order}
use payme_mock.Merchant.Register.{
  register_usable, settle, unsettle, mark_order_paid, release_order, effective_kind, change_order,
}
use payme_mock.Merchant.Service.{check_perform_transaction}
use payme_mock.Merchant.Create.{create_transaction}
use payme_mock.Merchant.Create.Repeat.{create-create}
use payme_mock.Merchant.Create.Check.{create_refused}
use payme_mock.Merchant.Perform.{perform_transaction}
use payme_mock.Merchant.Perform.Repeat.{perform-perform_transaction, repeated}
use payme_mock.Merchant.Cancel.{cancel_transaction}
use payme_mock.Merchant.Laws.Money.{kind}
use payme_mock.Merchant.Perform.Money.{apply-perform_transaction}
use payme_mock.Merchant.Cancel.Repeat.{cancel-cancel_transaction, cancelled_again}
use payme_mock.Merchant.Cancel.Refund.{cancel-perform}
use payme_mock.Base.Decimal.{format_int}
use payme_mock.Postgres.{first_row, update_rows}
use payme_mock.Postgres.Ledger.{contended}
use payme_mock.Postgres.Accounts.{
  account_by_field, register, first_account, update_balance, move_balance,
}
use payme_mock.Postgres.Orders.{order_by_id, orders_by_account, orders_where, update_order}
use payme_mock.Postgres.Transactions.{
  by_payme_id, create, update, row_of, active_by_order, record_event, int16,
}
use payme_mock.Tests.Shop.{
  Shop, shop_ports, shop_settings, shop_Lawful, till, tables, open_shop, payment,
}

abbrev pub created_shop : Shop
created_shop = (create_transaction shop_ports shop_settings payment open_shop).1

abbrev pub created_answer : CreateResult
created_answer = record {
  create_time = pos 100;
  transaction = text "1";
  state = State.created;
  receivers = [];
}

create_answer :
    (create_transaction shop_ports shop_settings payment open_shop).0 ≡ ok created_answer
unfolding create_transaction resolve_order eq_text payable check_amount register_usable usable
    new_transaction by_payme_id first_row create update_rows update_order account_by_field
    orders_by_account orders_where register first_account active_by_order record_event contended
    format_int state_valid mark_processing
create_answer = refl

create-create_example :
    (create_transaction shop_ports shop_settings (record payment { amount = pos 1 }) created_shop).0
    ≡ ok created_answer
create-create_example =
    create-create shop_ports shop_settings shop_Lawful payment (record payment { amount = pos 1 })
      created_answer open_shop refl create_answer

abbrev wrong_payment : CreateParams
wrong_payment = record payment { amount = pos 1 }

check_answer :
    check_perform_transaction shop_ports shop_settings wrong_payment.amount wrong_payment.account
      open_shop
    ≡ (fail err_invalid_amount, open_shop)
unfolding check_perform_transaction resolve_order eq_text payable check_amount ◌>>=◌
    account_by_field first_row orders_by_account orders_where
check_answer = refl

create_refused_example :
    create_transaction shop_ports shop_settings wrong_payment open_shop
    ≡ (fail err_invalid_amount, open_shop)
unfolding by_payme_id first_row eq_text
create_refused_example =
    create_refused shop_ports shop_settings wrong_payment (Error.protocol err_invalid_amount)
      open_shop open_shop refl check_answer

abbrev pub stored_tx : Transaction
stored_tx = record {
  id = pos 1;
  sandbox_id = pos 1;
  payme_id = text "p1";
  order_id = pos 3;
  account_id = pos 5;
  account = [];
  amount = pos 700;
  state = State.created;
  reason = none;
  payme_time = pos 90;
  create_time = pos 100;
  perform_time = pos 0;
  cancel_time = pos 0;
  receivers = [];
}

abbrev pub stored_shop : Shop
stored_shop = (record tables { transactions = row_of (pos 1) stored_tx ∷ [] }, pos 100)

abbrev pub performed_answer : PerformResult
performed_answer = record {
  transaction = text "1";
  perform_time = pos 100;
  state = State.performed;
}

abbrev performed_shop : Shop
performed_shop = (perform_transaction shop_ports shop_settings (text "p1") stored_shop).1

pub perform_answer :
    (perform_transaction shop_ports shop_settings (text "p1") stored_shop).0 ≡ ok performed_answer
unfolding perform_transaction ◌>>=◌ eq_text perform sub64 settle apply effective_kind
    mark_order_paid change_order by_payme_id first_row update_rows register first_account
    update_balance move_balance update contended record_event order_by_id update_order format_int
    ◌-ℤ◌ add64 state_valid mark_paid
perform_answer = refl

perform-perform_transaction_example :
    (t : Transaction) × (shop_ports.by_payme_id (text "p1") performed_shop ≡ ok t)
    × (perform_transaction shop_ports shop_settings (text "p1") performed_shop
        ≡ (ok performed_answer, repeated shop_ports shop_settings shop_Lawful t performed_shop))
    × (shop_ports.register
          (perform_transaction shop_ports shop_settings (text "p1") performed_shop).1
        ≡ shop_ports.register performed_shop)
perform-perform_transaction_example =
    perform-perform_transaction shop_ports shop_settings shop_Lawful (text "p1") performed_answer
      stored_shop perform_answer

abbrev cancelled_answer : CancelResult
cancelled_answer = record {
  transaction = text "1";
  cancel_time = pos 101;
  state = State.cancelled_after_do;
}

abbrev refunded_shop : Shop
refunded_shop = (cancel_transaction shop_ports shop_settings (text "p1") (pos 5) performed_shop).1

cancel_answer :
    (cancel_transaction shop_ports shop_settings (text "p1") (pos 5) performed_shop).0
    ≡ ok cancelled_answer
unfolding cancel_transaction perform_transaction ◌>>=◌ eq_text perform sub64 settle apply
    effective_kind mark_order_paid change_order cancel is_final unsettle release_order add64
    by_payme_id first_row update_rows register first_account update_balance move_balance update
    contended record_event order_by_id update_order format_int ◌-ℤ◌ int16 state_valid mark_paid
    mark_cancelled reverse
cancel_answer = refl

cancel-perform_example :
    shop_ports.register
      (cancel_transaction shop_ports shop_settings (text "p1") (pos 5) performed_shop).1
    ≡ ok till
unfolding eq_text by_payme_id first_row register first_account
cancel-perform_example =
    cancel-perform shop_ports shop_settings shop_Lawful (text "p1") (pos 5) stored_tx till
      performed_answer cancelled_answer stored_shop refl refl refl (omega arith, omega arith)
      perform_answer cancel_answer

apply-perform_transaction_example :
    ((apply (kind shop_ports shop_settings shop_Lawful) (pos 700) till).0 ≡ ok tt)
    × (shop_ports.register performed_shop
        ≡ ok (apply (kind shop_ports shop_settings shop_Lawful) (pos 700) till).1)
unfolding eq_text by_payme_id first_row register first_account
apply-perform_transaction_example =
    apply-perform_transaction shop_ports shop_settings shop_Lawful (text "p1") stored_tx till
      performed_answer stored_shop refl refl refl perform_answer

cancel-cancel_transaction_example :
    (t : Transaction) × (shop_ports.by_payme_id (text "p1") refunded_shop ≡ ok t)
    × (cancel_transaction shop_ports shop_settings (text "p1") (pos 3) refunded_shop ≡ (
      ok cancelled_answer,
      cancelled_again shop_ports shop_settings shop_Lawful t refunded_shop,
    ))
    × (shop_ports.register
          (cancel_transaction shop_ports shop_settings (text "p1") (pos 3) refunded_shop).1
        ≡ shop_ports.register refunded_shop)
cancel-cancel_transaction_example =
    cancel-cancel_transaction shop_ports shop_settings shop_Lawful (text "p1") (pos 5) (pos 3)
      cancelled_answer performed_shop cancel_answer
