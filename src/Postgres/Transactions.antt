-- ===== src/Postgres/Transactions.antt =====
-- merchant/infrastructure/transactions.go and events.go: TransactionRepository and EventRecorder over
-- the tables. encoding/json gives maps and receivers back as they were.
pub mod Statement
pub mod Stored
use payme_mock.Base.{
  suc, ◌-◌, ◌%◌, Bool, true, false, ◌&&◌, ◌||◌, not, Option, none, some, List, [], ◌∷◌, ◌++◌, ltb,
  if◌then◌else◌,
}
use payme_mock.Base.Int.{ℤ, pos, negsuc, eq_ℤ, ltb_ℤ, leb_ℤ}
use payme_mock.Base.Text.{Text, eq_text}
use payme_mock.Kernel.Effect.{Error, Result, ok, err, Action}
use payme_mock.Merchant.Transaction.{Reason, Transaction, state_valid, is_active}
use payme_mock.Merchant.Ports.{Event}
use payme_mock.Postgres.{Database, TransactionRow, first_row, update_rows, rejected}
use payme_mock.Postgres.Ledger.{payment_in, contended}

-- `nullableID`
abbrev pub nullable_id : ℤ → Option ℤ
nullable_id id = if eq_ℤ id (pos 0) then none else some id

-- The conversion `int16(n)`.
unfoldable pub int16 : ℤ → ℤ
int16 (pos n) = let u = n % 65536 in if ltb u 32768 then pos u else negsuc (65535 - u)
int16 (negsuc n) = let u = n % 65536 in if ltb u 32768 then negsuc u else pos (65535 - u)

-- `nullableReason`
abbrev pub nullable_reason : Option Reason → Option Reason
nullable_reason none = none
nullable_reason (some r) = some (int16 r)

abbrev id_of : Option ℤ → ℤ
id_of none = pos 0
id_of (some id) = id

-- `scanTransaction`, of a row that was found.
abbrev pub transaction_of : TransactionRow → Transaction
transaction_of row = record {
  id = row.id;
  sandbox_id = row.sandbox_id;
  payme_id = row.payme_id;
  order_id = id_of row.order_id;
  account_id = row.account_id;
  account = row.account;
  amount = row.amount;
  state = row.state;
  reason = row.reason;
  payme_time = row.payme_time;
  create_time = row.create_time;
  perform_time = row.perform_time;
  cancel_time = row.cancel_time;
  receivers = row.receivers;
}

-- `scanTransaction`
abbrev pub scan_transaction : Option TransactionRow → Result Transaction
scan_transaction none = err Error.not_found
scan_transaction (some row) = ok (transaction_of row)

-- `TransactionRepository.ByPaymeID`
unfoldable pub by_payme_id : ℤ → Text → Database → Result Transaction
unfolding first_row eq_text
by_payme_id sandbox payme_id db =
    scan_transaction (first_row (payment_in sandbox payme_id) db.transactions)

-- The row of `Create`, under the key that the sequence gave.
abbrev pub row_of : ℤ → Transaction → TransactionRow
row_of id t = record {
  id = id;
  sandbox_id = t.sandbox_id;
  payme_id = t.payme_id;
  order_id = nullable_id t.order_id;
  account_id = t.account_id;
  account = t.account;
  amount = t.amount;
  state = t.state;
  reason = nullable_reason t.reason;
  payme_time = t.payme_time;
  create_time = t.create_time;
  perform_time = t.perform_time;
  cancel_time = t.cancel_time;
  receivers = t.receivers;
}

abbrev drawn : Database → Database
drawn db = record db { next_transaction = suc db.next_transaction }

-- Whether a row would stand beside a live one of the same order.
abbrev clashes : TransactionRow → List TransactionRow → Bool
clashes row rows = is_active row.state && contended row.order_id row.id rows

abbrev found : {A : Type 0} → Option A → Bool
found none = false
found (some a) = true

-- `TransactionRepository.Create`
unfoldable pub create : Transaction → Action Database ℤ
create t db =
    let row = row_of (pos db.next_transaction) t in
    if leb_ℤ t.amount (pos 0) || not (state_valid t.state)
    then (err rejected, drawn db)
    else if found (first_row (payment_in t.sandbox_id t.payme_id) db.transactions)
        || clashes row db.transactions
    then (err Error.duplicate, drawn db)
    else (
      ok (pos db.next_transaction),
      record (drawn db) { transactions = db.transactions ++ (row ∷ []) },
    )

abbrev pub transaction_key : ℤ → TransactionRow → Bool
transaction_key id row = eq_ℤ row.id id

-- The columns that `Update` writes.
abbrev pub updated : Transaction → TransactionRow → TransactionRow
updated t row = record row {
  state = t.state;
  reason = nullable_reason t.reason;
  perform_time = t.perform_time;
  cancel_time = t.cancel_time;
  receivers = t.receivers;
}

abbrev pub updated_in : Option TransactionRow → Transaction → Action Database (Unit {0})
updated_in none t db = (err Error.not_found, db)
updated_in (some row) t db =
    if not (state_valid t.state)
    then (err rejected, db)
    else if clashes (updated t row) db.transactions
    then (err (Error.other "duplicate key value"), db)
    else (
      ok tt,
      record db { transactions = update_rows (transaction_key t.id) (updated t) db.transactions },
    )

-- `TransactionRepository.Update`, which names its row by the key alone.
unfoldable pub update : Transaction → Action Database (Unit {0})
update t db = updated_in (first_row (transaction_key t.id) db.transactions) t db

-- The order of a statement: by the time of creation, and by the key where it is the same.
abbrev pub earlier : TransactionRow → TransactionRow → Bool
earlier a b =
    ltb_ℤ a.create_time b.create_time || (eq_ℤ a.create_time b.create_time && leb_ℤ a.id b.id)

unfoldable pub insert_by_time : TransactionRow → List TransactionRow → List TransactionRow
insert_by_time row [] = row ∷ []
insert_by_time row (other ∷ rows) =
    let rest = insert_by_time row rows in
    if earlier row other then row ∷ other ∷ rows else other ∷ rest

unfoldable pub created_between : ℤ → ℤ → ℤ → List TransactionRow → List TransactionRow
unfolding insert_by_time
created_between sandbox from to [] = []
created_between sandbox from to (row ∷ rows) =
    let rest = created_between sandbox from to rows in
    if eq_ℤ row.sandbox_id sandbox && leb_ℤ from row.create_time && leb_ℤ row.create_time to
    then insert_by_time row rest
    else rest

unfoldable pub transactions_of : List TransactionRow → List Transaction
transactions_of [] = []
transactions_of (row ∷ rows) = transaction_of row ∷ transactions_of rows

-- `TransactionRepository.Statement`
unfoldable pub statement : ℤ → ℤ → ℤ → Database → Result (List Transaction)
unfolding created_between transactions_of
statement sandbox from to db =
    ok (transactions_of (created_between sandbox from to db.transactions))

abbrev pub active_for : ℤ → ℤ → TransactionRow → Bool
active_for sandbox order row =
    eq_ℤ row.sandbox_id sandbox
    && eq_ℤ (id_of row.order_id) order
    && found row.order_id
    && is_active row.state

-- `TransactionRepository.ActiveByOrder`
unfoldable pub active_by_order : ℤ → ℤ → Database → Result Transaction
unfolding first_row is_active
active_by_order sandbox order db =
    scan_transaction (first_row (active_for sandbox order) db.transactions)

-- `EventRecorder.Record`
unfoldable pub record_event : Event → Action Database (Unit {0})
record_event e db = (ok tt, record db { transaction_events = e ∷ db.transaction_events })
