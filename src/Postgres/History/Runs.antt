-- ===== src/Postgres/History/Runs.antt =====
-- billing/infrastructure and merchant/infrastructure: the balances after any sequence of calls.
use payme_mock.Base.{ℕ, suc, ◌≡◌, refl, sym, Option, none, some, List, [], ◌∷◌, ◌++◌, arith}
use payme_mock.Base.Int.{ℤ, pos}
use payme_mock.Base.Int64.{IsInt64}
use payme_mock.Base.Text.{Text}
use payme_mock.Billing.Order.{Order}
use payme_mock.Merchant.Transaction.{Transaction}
use payme_mock.Merchant.Ports.{Event}
use payme_mock.Subscribe.Ports.{Payout}
use payme_mock.Postgres.{Database, AccountRow, TransactionRow, BalanceEvent}
use payme_mock.Postgres.Accounts.{update_balance}
use payme_mock.Postgres.Orders.{walk_in, walk_in_row, account_for, order_for, update_order}
use payme_mock.Postgres.Transactions.{create, update, updated_in, record_event}
use payme_mock.Postgres.Ledger.{open_payout, settle_payout}
use payme_mock.Postgres.History.{
  All, Accounted, Explained, kept-Explained, update_balance-Explained,
}
use payme_mock.Postgres.History.Payouts.{open_payout-Explained, settle_payout-Explained}

-- A call of a repository that writes, in the stand of its first argument where it is one of a stand.
pub data Call : Type 0 where
  paying_out settling : ℤ → Payout → Call
  moving : ℤ → (id balance : ℤ) → Call
  walking_in : ℤ → Text → (amount : ℤ) → Call
  ordering : ℤ → Order → Call
  creating updating : Transaction → Call
  recording : Event → Call

-- What a call leaves behind, whether it fails or not.
abbrev pub after : Call → Database → Database
after (paying_out sandbox p) db = (open_payout sandbox p db).1
after (settling sandbox p) db = (settle_payout sandbox p db).1
after (moving sandbox id balance) db = (update_balance sandbox id balance db).1
after (walking_in sandbox value amount) db = (walk_in sandbox value amount db).1
after (ordering sandbox o) db = (update_order sandbox o db).1
after (creating t) db = (create t db).1
after (updating t) db = (update t db).1
after (recording e) db = (record_event e db).1

abbrev pub run : List Call → Database → Database
run [] db = db
run (c ∷ cs) db = run cs (after c db)

-- A balance that is stored is an int64.
abbrev Fits : Call → Type 0
Fits (moving sandbox id balance) = IsInt64 balance
Fits _ = Unit {0}

abbrev pub Fit : List Call → Type 0
Fit [] = Unit {0}
Fit (c ∷ cs) = Fits c × Fit cs

-- The accounts, their history and their keys are as they were.
abbrev Untouched : Database → Database → Type 0
Untouched before now =
    (now.accounts ≡ before.accounts)
    × (now.balance_events ≡ before.balance_events)
    × (now.next_account ≡ before.next_account)

order_for-Untouched :
    (sandbox account amount : ℤ) (db : Database)
    → Untouched db (order_for none sandbox account amount db).1
order_for-Untouched sandbox account amount db = ground arith

update_order-Untouched :
    (sandbox : ℤ) (o : Order) (db : Database) → Untouched db (update_order sandbox o db).1
unfolding update_order
update_order-Untouched sandbox o db = ground arith

create-Untouched : (t : Transaction) (db : Database) → Untouched db (create t db).1
unfolding create
create-Untouched t db = ground arith

updated_in-Untouched :
    (o : Option TransactionRow) (t : Transaction) (db : Database)
    → Untouched db (updated_in o t db).1
updated_in-Untouched none t db = (refl, refl, refl)
updated_in-Untouched (some row) t db = ground arith

update-Untouched : (t : Transaction) (db : Database) → Untouched db (update t db).1
unfolding update
update-Untouched t db = updated_in-Untouched _ t db

record_event-Untouched : (e : Event) (db : Database) → Untouched db (record_event e db).1
unfolding record_event
record_event-Untouched e db = (refl, refl, refl)

module _ (opening : ℤ → ℤ) where
  Untouched-Explained :
      (before now : Database)
      → Explained opening before
      → Untouched before now
      → Explained opening now
  Untouched-Explained before now x (rows, history, next) =
      kept-Explained opening before now x rows history next

  later_drawn :
      (next : ℕ) (es : List BalanceEvent) (rows : List AccountRow)
      → All (Accounted opening next es) rows
      → All (Accounted opening (suc next) es) rows
  later_drawn next es [] h = tt
  later_drawn next es (row ∷ rows) ((range, same, (k, e, below)), rest) =
      ((range, same, (k, e, omega arith)), later_drawn next es rows rest)

  appended :
      (next : ℕ) (es : List BalanceEvent) (rows : List AccountRow) (row : AccountRow)
      → All (Accounted opening next es) rows
      → Accounted opening next es row
      → All (Accounted opening next es) (rows ++ (row ∷ []))
  appended next es [] row h k = (k, tt)
  appended next es (r ∷ rows) row (here, rest) k = (here, appended next es rows row rest k)

  account_for-Explained :
      (o : Option AccountRow) (sandbox : ℤ) (value : Text) (db : Database)
      → Explained opening db
      → Explained opening (account_for o sandbox value db).1
  account_for-Explained (some row) sandbox value db x = record {
    accounted = later_drawn db.next_account db.balance_events db.accounts x.accounted;
    unused = λ n above. x.unused n (omega arith);
  }
  account_for-Explained none sandbox value db x = record {
    accounted =
        appended (suc db.next_account) db.balance_events db.accounts
          (walk_in_row (pos db.next_account) sandbox value)
          (later_drawn db.next_account db.balance_events db.accounts x.accounted)
          (
            (omega arith, omega arith),
            sym (x.unused db.next_account (omega arith)),
            (db.next_account, refl, omega arith),
          );
    unused = λ n above. x.unused n (omega arith);
  }

  order_for-Explained :
      (o : Option Order) (sandbox account amount : ℤ) (db : Database)
      → Explained opening db
      → Explained opening (order_for o sandbox account amount db).1
  order_for-Explained (some o) sandbox account amount db x = x
  order_for-Explained none sandbox account amount db x =
      Untouched-Explained db _ x (order_for-Untouched sandbox account amount db)

  walk_in-Explained :
      (sandbox : ℤ) (value : Text) (amount : ℤ) (db : Database)
      → Explained opening db
      → Explained opening (walk_in sandbox value amount db).1
  unfolding walk_in
  walk_in-Explained sandbox value amount db x =
      order_for-Explained _ sandbox _ amount _ (account_for-Explained _ sandbox value db x)

  after-Explained :
      (c : Call) (db : Database) → Fits c → Explained opening db → Explained opening (after c db)
  after-Explained (paying_out sandbox p) db fit x = open_payout-Explained opening sandbox p db x
  after-Explained (settling sandbox p) db fit x = settle_payout-Explained opening sandbox p db x
  after-Explained (moving sandbox id balance) db fit x =
      update_balance-Explained opening sandbox id balance db fit x
  after-Explained (walking_in sandbox value amount) db fit x =
      walk_in-Explained sandbox value amount db x
  after-Explained (ordering sandbox o) db fit x =
      Untouched-Explained db _ x (update_order-Untouched sandbox o db)
  after-Explained (creating t) db fit x = Untouched-Explained db _ x (create-Untouched t db)
  after-Explained (updating t) db fit x = Untouched-Explained db _ x (update-Untouched t db)
  after-Explained (recording e) db fit x = Untouched-Explained db _ x (record_event-Untouched e db)

  -- Whatever calls the repositories and the ledger get, of whatever stands, those that fail
  -- included: every balance stays what its account was opened with and all the moves of the history,
  -- added up as int64. A walk-in payer is opened with nothing. The balances that are stored are
  -- int64.
  pub run-Explained :
      (cs : List Call) (db : Database)
      → Fit cs
      → Explained opening db
      → Explained opening (run cs db)
  run-Explained [] db fit x = x
  run-Explained (c ∷ cs) db fit x =
      run-Explained cs (after c db) fit.1 (after-Explained c db fit.0 x)
