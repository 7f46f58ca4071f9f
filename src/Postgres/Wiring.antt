-- ===== src/Postgres/Wiring.antt =====
-- cmd/merchant/handler.go: the Merchant API over the repositories of a stand. `tick` is the clock.
use payme_mock.Base.{◌≡◌, refl, Option, none, some, arith, subst}
use payme_mock.Base.Int.{ℤ}
use payme_mock.Base.Decimal.{parse_int, format_int}
use payme_mock.Kernel.Effect.{Action, ok}
use payme_mock.Billing.Order.{Order}
use payme_mock.Merchant.Transaction.{Transaction}
use payme_mock.Merchant.Ports.{Ports}
use payme_mock.Merchant.Laws.{Lawful}
use payme_mock.Postgres.{Database, AccountRow, TransactionRow, first_row}
use payme_mock.Postgres.Accounts.{
  account_by_field, register, account_in, move_balance, update_balance,
}
use payme_mock.Postgres.Accounts.Stored.{register-update_balance}
use payme_mock.Postgres.Orders.{
  order_by_id, orders_by_account, order_in, restatus, update_order, walk_in,
}
use payme_mock.Postgres.Orders.Scope.{order_by_id-here, orders_by_account-here, walk_in-here}
use payme_mock.Postgres.Transactions.{
  nullable_reason, by_payme_id, create, transaction_key, updated_in, update, statement,
  active_by_order, record_event,
}
use payme_mock.Postgres.Transactions.Stored.{by_payme_id-create, by_payme_id-update}

-- A statement leaves the clock alone.
abbrev pub on_tables : {A C : Type 0} → Action Database A → Action (Database × C) A
on_tables m w = ((m w.0).0, ((m w.0).1, w.1))

-- The ports of the methods in the stand `sandbox`.
abbrev pub database_ports : {C : Type 0} → (C → ℤ × C) → ℤ → Ports (Database × C)
database_ports tick sandbox = record {
  by_payme_id = λ id w. by_payme_id sandbox id w.0;
  create = λ t. on_tables (create t);
  update = λ t. on_tables (update t);
  statement = λ from to w. statement sandbox from to w.0;
  active_by_order = λ order w. active_by_order sandbox order w.0;
  record_event = λ e. on_tables (record_event e);
  account_by_field = λ field value w. account_by_field sandbox field value w.0;
  register = λ w. register sandbox w.0;
  update_balance = λ id balance. on_tables (update_balance sandbox id balance);
  order_by_id = λ id w. order_by_id sandbox id w.0;
  orders_by_account = λ account w. orders_by_account sandbox account w.0;
  update_order = λ o. on_tables (update_order sandbox o);
  walk_in = λ value amount. on_tables (walk_in sandbox value amount);
  now = λ w. ((tick w.1).0, (w.0, (tick w.1).1));
  parse_int = parse_int;
  format_int = format_int;
}

restatus-frame :
    (x : Option Order) (sandbox : ℤ) (o : Order) (db : Database)
    → ((restatus x sandbox o db).1.transactions ≡ db.transactions)
      × ((restatus x sandbox o db).1.accounts ≡ db.accounts)
restatus-frame none sandbox o db = (refl, refl)
restatus-frame (some row) sandbox o db = ground arith

update_order-frame :
    (sandbox : ℤ) (o : Order) (db : Database)
    → ((update_order sandbox o db).1.transactions ≡ db.transactions)
      × ((update_order sandbox o db).1.accounts ≡ db.accounts)
unfolding update_order
update_order-frame sandbox o db =
    restatus-frame (first_row (order_in sandbox o.id) db.orders) sandbox o db

move_balance-frame :
    (sandbox : ℤ) (x : Option AccountRow) (b : ℤ) (db : Database)
    → (move_balance sandbox x b db).1.transactions ≡ db.transactions
unfolding move_balance
move_balance-frame sandbox none b db = refl
move_balance-frame sandbox (some row) b db = ground arith

update_balance-frame :
    (sandbox id b : ℤ) (db : Database)
    → (update_balance sandbox id b db).1.transactions ≡ db.transactions
unfolding update_balance
update_balance-frame sandbox id b db =
    move_balance-frame sandbox (first_row (account_in sandbox id) db.accounts) b db

updated_in-frame :
    (x : Option TransactionRow) (t : Transaction) (db : Database)
    → (updated_in x t db).1.accounts ≡ db.accounts
updated_in-frame none t db = refl
updated_in-frame (some row) t db = ground arith

update-frame : (t : Transaction) (db : Database) → (update t db).1.accounts ≡ db.accounts
unfolding update
update-frame t db = updated_in-frame (first_row (transaction_key t.id) db.transactions) t db

module _ {C : Type 0} (tick : C → ℤ × C) (sandbox : ℤ) where
  -- The repositories over the tables keep the laws that the methods' theorems rely on.
  pub database_ports-Lawful : Lawful (database_ports tick sandbox)
  unfolding by_payme_id register record_event
  database_ports-Lawful = record {
    stand = sandbox;
    kept = nullable_reason;
    create_stored = λ t w {id} here e.
        subst
          (λ s.
            by_payme_id s t.payme_id (create t w.0).1
            ≡ ok (record t { id = id; reason = nullable_reason t.reason }))
          here (by_payme_id-create t w.0 e);
    update_stored = λ id s t w found same e. by_payme_id-update sandbox id s t w.0 found same e;
    event_tx = λ id e w. refl;
    order_tx = λ id o w. rw (update_order-frame sandbox o w.0).0 refl;
    balance_tx = λ id n b w. rw (update_balance-frame sandbox n b w.0) refl;
    now_tx = λ id w. refl;
    balance_stored = λ a b w found e. register-update_balance sandbox a b w.0 found e;
    event_register = λ e w. refl;
    order_register = λ o w. rw (update_order-frame sandbox o w.0).1 refl;
    update_register = λ t w. rw (update-frame t w.0) refl;
    now_register = λ w. refl;
    order_here = λ n o w e. order_by_id-here sandbox n o w.0 e;
    orders_here = λ n os o w e first. orders_by_account-here sandbox n os o w.0 e first;
    walk_in_here = λ value n o w e. walk_in-here sandbox value n o w.0 e;
  }
