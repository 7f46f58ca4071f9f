-- ===== src/Postgres/Ledger.antt =====
-- billing/infrastructure/ledger.go: CashboxLedger over the tables.
use payme_mock.Base.{
  suc, Bool, false, ◌&&◌, ◌||◌, not, Option, none, some, List, [], ◌∷◌, ◌++◌, if◌then◌else◌,
}
use payme_mock.Base.Int.{ℤ, pos, eq_ℤ, leb_ℤ}
use payme_mock.Base.Int64.{sub64}
use payme_mock.Base.Text.{Text, text, eq_text}
use payme_mock.Kernel.Effect.{Error, Result, ok, err, Action, read, lift, ◌>>=◌, ◌>>◌}
use payme_mock.Billing.Order.{Account}
use payme_mock.Billing.Cashbox.{usable, apply}
use payme_mock.Merchant.Transaction.{State, is_active}
use payme_mock.Merchant.Register.{kind_of}
use payme_mock.Subscribe.Ports.{Payout, Ledger}
use payme_mock.Postgres.{
  Database, SandboxRow, AccountRow, TransactionRow, BalanceEvent, with_tx, first_row, update_rows,
  rejected,
}
use payme_mock.Postgres.Accounts.{account_of, first_account, account_key, with_balance}

-- The join of the stand with its first payer.
abbrev pub joined : Option SandboxRow → Option AccountRow → Result (Account × Text)
joined none row = err Error.not_found
joined (some s) none = err Error.not_found
joined (some s) (some row) = ok (account_of row, s.kind)

-- `lockPayer`
unfoldable pub lock_payer : ℤ → Database → Result (Account × Text)
unfolding first_row first_account
lock_payer sandbox db =
    joined (first_row (λ (s : SandboxRow). eq_ℤ s.id sandbox) db.sandboxes)
      (first_account sandbox db.accounts)

abbrev pub payment_in : ℤ → Text → TransactionRow → Bool
payment_in sandbox payme_id row = eq_ℤ row.sandbox_id sandbox && eq_text row.payme_id payme_id

-- The row of a payout, which settles no order.
abbrev pub payout_row : ℤ → ℤ → Account → Payout → State → ℤ → TransactionRow
payout_row id sandbox payer p state perform_time = record {
  id = id;
  sandbox_id = sandbox;
  payme_id = p.transaction_id;
  order_id = none;
  account_id = payer.id;
  account = p.account;
  amount = p.amount;
  state = state;
  reason = none;
  payme_time = p.create_time;
  create_time = p.create_time;
  perform_time = perform_time;
  cancel_time = pos 0;
  receivers = [];
}

abbrev drawn : Database → Database
drawn db = record db { next_transaction = suc db.next_transaction }

abbrev pub opened : Option TransactionRow → ℤ → Account → Payout → Database → Database
opened (some row) sandbox payer p db = drawn db
opened none sandbox payer p db = record (drawn db) {
  transactions =
      db.transactions
      ++ (payout_row (pos db.next_transaction) sandbox payer p State.created (pos 0) ∷ []);
}

-- The INSERT of `OpenPayout`, which leaves a row that is there; the check of the amount comes first.
unfoldable pub insert_opened : ℤ → Account → Payout → Action Database (Unit {0})
unfolding first_row eq_text
insert_opened sandbox payer p db = if leb_ℤ p.amount (pos 0) then (err rejected, drawn db) else (
  ok tt,
  opened (first_row (payment_in sandbox p.transaction_id) db.transactions) sandbox payer p db,
)

-- `OpenPayout`
unfoldable pub open_payout : ℤ → Payout → Action Database (Unit {0})
open_payout sandbox p =
    with_tx
      (do payer ← read (lock_payer sandbox); lift (usable payer.0); insert_opened sandbox payer.0 p)

-- `UPDATE merchant.accounts SET balance = $1 WHERE id = $2`
abbrev pub set_balance : ℤ → ℤ → Action Database (Unit {0})
set_balance id balance db = (
  ok tt,
  record db { accounts = update_rows (account_key id) (with_balance balance) db.accounts },
)

abbrev same_order : ℤ → Option ℤ → Bool
same_order o none = false
same_order o (some other) = eq_ℤ o other

-- Another live payment of the row's order, which the index allows one of.
unfoldable pub contended : Option ℤ → ℤ → List TransactionRow → Bool
unfolding is_active
contended none id [] = false
contended none id (row ∷ rows) = false
contended (some o) id [] = false
contended (some o) id (row ∷ rows) =
    (same_order o row.order_id && is_active row.state && not (eq_ℤ row.id id))
    || contended (some o) id rows

abbrev pub performed_row : ℤ → TransactionRow → TransactionRow
performed_row time row = record row { state = State.performed; perform_time = time }

abbrev pub performed : Option TransactionRow → ℤ → Account → Payout → Action Database ℤ
performed none sandbox payer p db = (
  ok (pos db.next_transaction),
  record (drawn db) {
    transactions =
        db.transactions
        ++ (payout_row (pos db.next_transaction) sandbox payer p State.performed p.pay_time ∷ []);
  },
)
performed (some row) sandbox payer p db =
    if contended row.order_id row.id db.transactions
    then (err (Error.other "duplicate key value"), drawn db)
    else (
      ok row.id,
      record (drawn db) {
        transactions =
            update_rows (payment_in sandbox p.transaction_id) (performed_row p.pay_time)
              db.transactions;
      },
    )

-- The INSERT of `SettlePayout`, which marks a row that is there.
unfoldable pub insert_performed : ℤ → Account → Payout → Action Database ℤ
unfolding first_row update_rows contended eq_text
insert_performed sandbox payer p db =
    if leb_ℤ p.amount (pos 0)
    then (err rejected, drawn db)
    else performed (first_row (payment_in sandbox p.transaction_id) db.transactions) sandbox payer p
        db

-- The row of the register's history; the difference is taken in Go.
abbrev pub payout_event : ℤ → ℤ → ℤ → ℤ → ℤ → BalanceEvent
payout_event sandbox account transaction before after = record {
  sandbox_id = sandbox;
  account_id = account;
  transaction_id = some transaction;
  delta = sub64 after before;
  balance_before = before;
  balance_after = after;
  note = text "settled by a payout";
}

abbrev pub insert_balance_event : BalanceEvent → Action Database (Unit {0})
insert_balance_event e db = (ok tt, record db { balance_events = e ∷ db.balance_events })

-- The part of `SettlePayout` after the payer was locked.
unfoldable pub settle_locked : ℤ → Payout → Account × Text → Action Database (Unit {0})
settle_locked sandbox p payer = do
  let moved = apply (kind_of payer.1) p.amount payer.0
  lift moved.0
  set_balance moved.1.id moved.1.balance
  transaction ← insert_performed sandbox moved.1 p
  insert_balance_event (payout_event sandbox moved.1.id transaction payer.0.balance moved.1.balance)

-- `SettlePayout`
unfoldable pub settle_payout : ℤ → Payout → Action Database (Unit {0})
settle_payout sandbox p =
    with_tx (do payer ← read (lock_payer sandbox); settle_locked sandbox p payer)

abbrev balance_of : Result (Account × Text) → Result ℤ
balance_of (ok payer) = ok payer.0.balance
balance_of (err e) = err e

-- `Balance`, of which the use cases read the balance alone.
unfoldable pub balance : ℤ → Database → Result ℤ
unfolding lock_payer
balance sandbox db = balance_of (lock_payer sandbox db)

-- The register's books of a stand.
abbrev pub database_ledger : ℤ → Ledger Database
database_ledger sandbox = record {
  open_payout = open_payout sandbox;
  settle_payout = settle_payout sandbox;
  balance = balance sandbox;
}
