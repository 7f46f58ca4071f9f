-- ===== src/Postgres/Accounts.antt =====
-- billing/infrastructure/billing.go: AccountRepository over the tables. A repository runs its
-- statements in the stand that the context carries; a database that fails is left out.
pub mod Stored
use payme_mock.Base.{Bool, false, ◌&&◌, not, Option, none, some, List, [], ◌∷◌, if◌then◌else◌}
use payme_mock.Base.Int.{ℤ, eq_ℤ, ltb_ℤ, ◌-ℤ◌}
use payme_mock.Base.Text.{Text, text, eq_text}
use payme_mock.Base.Decimal.{format_int}
use payme_mock.Kernel.Effect.{Error, Result, ok, err, Action}
use payme_mock.Billing.Order.{Account, Order}
use payme_mock.Postgres.{Database, AccountRow, is_bigint, first_row, update_rows}

abbrev pub coalesce : Option Text → Text
coalesce none = []
coalesce (some s) = s

-- `scanAccount`, of a row that was found.
abbrev pub account_of : AccountRow → Account
account_of row = record {
  id = row.id;
  sandbox_id = row.sandbox_id;
  phone = coalesce row.phone;
  login = coalesce row.login;
  name = row.name;
  balance = row.balance;
  blocked = row.blocked;
}

-- `scanAccount`
abbrev pub scan_account : Option AccountRow → Result Account
scan_account none = err Error.not_found
scan_account (some row) = ok (account_of row)

abbrev holds_text : Option Text → Text → Bool
holds_text none value = false
holds_text (some s) value = eq_text s value

-- Of two rows the one with the lower key.
abbrev pub lower : AccountRow → Option AccountRow → Option AccountRow
lower row none = some row
lower row (some other) = if ltb_ℤ other.id row.id then some other else some row

-- `WHERE sandbox_id = $1 ORDER BY id LIMIT 1`
unfoldable pub first_account : ℤ → List AccountRow → Option AccountRow
first_account sandbox [] = none
first_account sandbox (row ∷ rows) =
    let rest = first_account sandbox rows in
    if eq_ℤ row.sandbox_id sandbox then lower row rest else rest

abbrev pub account_key : ℤ → AccountRow → Bool
account_key id row = eq_ℤ row.id id

abbrev pub account_in : ℤ → ℤ → AccountRow → Bool
account_in sandbox id row = eq_ℤ row.sandbox_id sandbox && eq_ℤ row.id id

abbrev pub with_balance : ℤ → AccountRow → AccountRow
with_balance balance row = record row { balance = balance }

-- The account of the order whose `id::text` is the value.
paying : ℤ → Text → List Order → Option ℤ
paying sandbox value [] = none
paying sandbox value (o ∷ os) =
    let rest = paying sandbox value os in
    if eq_ℤ o.sandbox_id sandbox && eq_text (format_int o.id) value then some o.account_id else rest

by_key : ℤ → Option ℤ → List AccountRow → Option AccountRow
by_key sandbox none rows = none
by_key sandbox (some id) rows = first_row (account_in sandbox id) rows

-- `AccountRepository.ByField`
unfoldable pub account_by_field : ℤ → Text → Text → Database → Result Account
unfolding paying by_key first_row eq_text format_int
account_by_field sandbox field value db =
    if eq_text field (text "phone")
    then scan_account
        (first_row (λ row. eq_ℤ row.sandbox_id sandbox && holds_text row.phone value) db.accounts)
    else if eq_text field (text "login")
    then scan_account
        (first_row (λ row. eq_ℤ row.sandbox_id sandbox && holds_text row.login value) db.accounts)
    else if eq_text field (text "order_id")
    then scan_account (by_key sandbox (paying sandbox value db.orders) db.accounts)
    else err Error.not_found

-- `AccountRepository.ByID`
unfoldable pub account_by_id : ℤ → ℤ → Database → Result Account
unfolding first_row
account_by_id sandbox id db = scan_account (first_row (account_in sandbox id) db.accounts)

-- `AccountRepository.Register`
unfoldable pub register : ℤ → Database → Result Account
unfolding first_account
register sandbox db = scan_account (first_account sandbox db.accounts)

-- The statement of `UpdateBalance` where it finds its row; the difference is taken by the database,
-- which refuses one that is no bigint.
unfoldable pub move_balance : ℤ → Option AccountRow → ℤ → Action Database (Unit {0})
unfolding update_rows
move_balance sandbox none balance db = (err Error.not_found, db)
move_balance sandbox (some before) balance db =
    let delta = balance -ℤ before.balance in
    if not (is_bigint delta) then (err (Error.other "bigint out of range"), db) else (
      ok tt,
      record db {
        accounts = update_rows (account_key before.id) (with_balance balance) db.accounts;
        balance_events =
            record {
              sandbox_id = sandbox;
              account_id = before.id;
              transaction_id = none;
              delta = delta;
              balance_before = before.balance;
              balance_after = balance;
              note = text "settled by a payment";
            }
            ∷ db.balance_events;
      },
    )

-- `AccountRepository.UpdateBalance`
unfoldable pub update_balance : ℤ → ℤ → ℤ → Action Database (Unit {0})
unfolding move_balance
update_balance sandbox id balance db =
    move_balance sandbox (first_row (account_in sandbox id) db.accounts) balance db
