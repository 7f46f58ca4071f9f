-- ===== src/Tests/Database.antt =====
-- A database of two stands, each with one payer.
use payme_mock.Base.{◌≡◌, refl, false, none, List, [], ◌∷◌, arith, if◌then◌else◌}
use payme_mock.Base.Int.{ℤ, pos, negsuc, eq_ℤ}
use payme_mock.Base.Int64.{sub64}
use payme_mock.Base.Text.{text, eq_text}
use payme_mock.Kernel.Effect.{ok, ◌>>=◌}
use payme_mock.Billing.Cashbox.{apply}
use payme_mock.Merchant.Register.{kind_of}
use payme_mock.Subscribe.Ports.{Payout}
use payme_mock.Postgres.{Database, AccountRow, update_rows, with_tx}
use payme_mock.Postgres.Ledger.{lock_payer, settle_payout, settle_locked, insert_performed, balance}
use mathlib.Core.List.{Perm}
use payme_mock.Base.{map}
use payme_mock.Postgres.{TransactionRow}
use payme_mock.Postgres.Transactions.{statement, transaction_of}
use payme_mock.Postgres.Transactions.Statement.{selected, OldestFirst, statement_lem}
use payme_mock.Postgres.History.{replay, Explained}
use payme_mock.Postgres.History.Runs.{Call, run, run-Explained}

abbrev payer : ℤ → ℤ → AccountRow
payer id sandbox = record {
  id = id;
  sandbox_id = sandbox;
  phone = none;
  login = none;
  name = [];
  balance = pos 1000;
  blocked = false;
}

abbrev pub fresh_database : Database
fresh_database = record {
  sandboxes =
      record { id = pos 1; kind = text "dividend" }
      ∷ record { id = pos 2; kind = text "topup" }
      ∷ [];
  accounts = payer (pos 1) (pos 1) ∷ payer (pos 2) (pos 2) ∷ [];
  orders = [];
  transactions = [];
  transaction_events = [];
  balance_events = [];
  next_account = 3;
  next_order = 1;
  next_transaction = 1;
}

abbrev pub payout : Payout
payout = record {
  transaction_id = text "p1";
  amount = pos 300;
  account = [];
  create_time = pos 10;
  pay_time = pos 20;
}

abbrev opening : ℤ → ℤ
opening (pos n) =
    if eq_ℤ (pos n) (pos 1) then pos 1000 else if eq_ℤ (pos n) (pos 2) then pos 1000 else pos 0
opening (negsuc n) = pos 0

fresh-Explained : Explained opening fresh_database
unfolding replay
fresh-Explained = record {
  accounted = (
    ((omega arith, omega arith), refl, (1, refl, omega arith)),
    (((omega arith, omega arith), refl, (2, refl, omega arith)), tt),
  );
  unused = λ n above. ground arith;
}

abbrev calls : List Call
calls =
    Call.paying_out (pos 1) payout
    ∷ Call.settling (pos 1) payout
    ∷ Call.moving (pos 2) (pos 2) (pos 1700)
    ∷ Call.walking_in (pos 2) (text "new") (pos 50)
    ∷ []

run-Explained_example : Explained opening (run calls fresh_database)
run-Explained_example =
    run-Explained opening calls fresh_database (tt, (tt, ((omega arith, omega arith), (tt, tt))))
      fresh-Explained

-- The payout leaves the register, and a second settlement of it leaves it again.
settled_once : balance (pos 1) (settle_payout (pos 1) payout fresh_database).1 ≡ ok (pos 700)
unfolding settle_payout balance with_tx settle_locked insert_performed apply sub64 kind_of eq_text
    ◌>>=◌ lock_payer update_rows
settled_once = refl

settled_twice :
    balance (pos 1) (settle_payout (pos 1) payout (settle_payout (pos 1) payout fresh_database).1).1
    ≡ ok (pos 400)
unfolding settle_payout balance with_tx settle_locked insert_performed apply sub64 kind_of eq_text
    ◌>>=◌ lock_payer update_rows
settled_twice = refl

abbrev paid_out : Database
paid_out = (settle_payout (pos 1) payout fresh_database).1

statement_lem_example :
    (rows : List TransactionRow) × (statement (pos 1) (pos 5) (pos 15) paid_out
      ≡ ok (map transaction_of rows))
    × OldestFirst rows
    × Perm rows (selected (pos 1) (pos 5) (pos 15) paid_out.transactions)
statement_lem_example = statement_lem (pos 1) (pos 5) (pos 15) paid_out
