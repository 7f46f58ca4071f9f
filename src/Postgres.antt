-- ===== src/Postgres.antt =====
-- The schema merchant of migrations/00001_schema.sql, and kernel/postgres/postgres.go: the tables that
-- the repositories read and write, and the transaction that their statements run in.
pub mod Accounts
pub mod Orders
pub mod Ledger
pub mod Transactions
pub mod History
pub mod Mock
pub mod Rows
pub mod Wiring
pub mod Calls
use payme_mock.Base.{
  ℕ, Bool, true, false, ◌||◌, Option, none, some, List, [], ◌∷◌, ltb, if◌then◌else◌,
}
use payme_mock.Base.Int.{ℤ, pos, ltb_ℤ, leb_ℤ, eq_ℤ, minus}
use payme_mock.Base.Text.{Text, eq_text}
use payme_mock.Base.Dict.{Dict}
use payme_mock.Kernel.Effect.{Error, Result, ok, err, Action}
use payme_mock.Billing.Order.{Order}
use payme_mock.Merchant.Transaction.{State, Reason, Receiver}
use payme_mock.Merchant.Ports.{Event}

-- control.sandboxes, the columns that are read here.
pub record SandboxRow : Type 0 where
  pub id : ℤ
  pub kind : Text

-- merchant.accounts
pub record AccountRow : Type 0 where
  pub id : ℤ
  pub sandbox_id : ℤ
  pub phone : Option Text
  pub login : Option Text
  pub name : Text
  pub balance : ℤ
  pub blocked : Bool

-- merchant.transactions
pub record TransactionRow : Type 0 where
  pub id : ℤ
  pub sandbox_id : ℤ
  pub payme_id : Text
  pub order_id : Option ℤ
  pub account_id : ℤ
  pub account : Dict Text Text
  pub amount : ℤ
  pub state : State
  pub reason : Option Reason
  pub payme_time : ℤ
  pub create_time : ℤ
  pub perform_time : ℤ
  pub cancel_time : ℤ
  pub receivers : List Receiver

-- merchant.balance_events; the source is 'payment' for every row that is written here.
pub record BalanceEvent : Type 0 where
  pub sandbox_id : ℤ
  pub account_id : ℤ
  pub transaction_id : Option ℤ
  pub delta : ℤ
  pub balance_before : ℤ
  pub balance_after : ℤ
  pub note : Text

-- A row stands once for each primary key. A row of merchant.orders is its domain record, since no
-- column that is read can be null. The foreign keys are taken to hold: no statement here deletes a
-- row. The histories have the newest row first. The last three are the
-- sequences of the bigserial keys, which a rollback does not set back.
pub record Database : Type 0 where
  pub sandboxes : List SandboxRow
  pub accounts : List AccountRow
  pub orders : List Order
  pub transactions : List TransactionRow
  pub transaction_events : List Event
  pub balance_events : List BalanceEvent
  pub next_account : ℕ
  pub next_order : ℕ
  pub next_transaction : ℕ

-- What a failed constraint is to the code: an error that it knows nothing of.
abbrev pub rejected : Error
rejected = Error.other "violates check constraint"

abbrev pub ended : {A : Type 0} → Database → Result A → Database → Result A × Database
ended before (ok a) after = (ok a, after)
ended before (err e) after = (
  err e,
  record before {
    next_account = after.next_account;
    next_order = after.next_order;
    next_transaction = after.next_transaction;
  },
)

-- `WithTx`, in a context without a transaction.
unfoldable pub with_tx : {A : Type 0} → Action Database A → Action Database A
with_tx m db = let (r, db') = m db in ended db r db'

-- The values of a bigint.
abbrev pub is_bigint : ℤ → Bool
is_bigint (ℤ.pos n) = ltb n 9223372036854775808
is_bigint (ℤ.negsuc n) = ltb n 9223372036854775808

-- The first row of a table that a condition holds for.
unfoldable pub first_row : {A : Type 0} → (A → Bool) → List A → Option A
first_row p [] = none
first_row p (x ∷ xs) = if p x then some x else first_row p xs

-- `UPDATE ... WHERE`
unfoldable pub update_rows : {A : Type 0} → (A → Bool) → (A → A) → List A → List A
update_rows p f [] = []
update_rows p f (x ∷ xs) = (if p x then f x else x) ∷ update_rows p f xs
