-- ===== src/Postgres/Orders.antt =====
-- billing/infrastructure/billing.go: OrderRepository and WalkInRepository over the tables.
pub mod Scope
use payme_mock.Base.{
  suc, Bool, true, false, ◌&&◌, not, Option, none, some, List, [], ◌∷◌, ◌++◌, if◌then◌else◌,
}
use payme_mock.Base.Int.{ℤ, pos, eq_ℤ, leb_ℤ}
use payme_mock.Base.Text.{Text, text, eq_text}
use payme_mock.Kernel.Effect.{Error, Result, ok, err, Action}
use payme_mock.Billing.Order.{Order, OrderStatus, payable}
use payme_mock.Postgres.{Database, AccountRow, first_row, update_rows, rejected}

-- `scanOrder`
abbrev pub scan_order : Option Order → Result Order
scan_order none = err Error.not_found
scan_order (some o) = ok o

abbrev pub order_in : ℤ → ℤ → Order → Bool
order_in sandbox id o = eq_ℤ o.sandbox_id sandbox && eq_ℤ o.id id

-- `OrderRepository.ByID`
unfoldable pub order_by_id : ℤ → ℤ → Database → Result Order
unfolding first_row
order_by_id sandbox id db = scan_order (first_row (order_in sandbox id) db.orders)

insert_by_id : Order → List Order → List Order
insert_by_id o [] = o ∷ []
insert_by_id o (p ∷ ps) =
    let rest = insert_by_id o ps in if leb_ℤ o.id p.id then o ∷ p ∷ ps else p ∷ rest

-- `WHERE ... ORDER BY id`
unfoldable pub orders_where : (Order → Bool) → List Order → List Order
unfolding insert_by_id
orders_where p [] = []
orders_where p (o ∷ os) = let rest = orders_where p os in if p o then insert_by_id o rest else rest

-- `OrderRepository.ByAccount`
unfoldable pub orders_by_account : ℤ → ℤ → Database → Result (List Order)
unfolding orders_where
orders_by_account sandbox account db =
    ok (orders_where (λ o. eq_ℤ o.sandbox_id sandbox && eq_ℤ o.account_id account) db.orders)

-- The values of the column's check.
abbrev known_status : OrderStatus → Bool
known_status OrderStatus.fresh = true
known_status OrderStatus.processing = true
known_status OrderStatus.paid = true
known_status OrderStatus.cancelled = true
known_status (OrderStatus.other s) = false

abbrev with_status : OrderStatus → Order → Order
with_status status o = record o { status = status }

abbrev pub restatus : Option Order → ℤ → Order → Action Database (Unit {0})
restatus none sandbox o db = (err Error.not_found, db)
restatus (some row) sandbox o db = if not (known_status o.status) then (err rejected, db) else (
  ok tt,
  record db { orders = update_rows (order_in sandbox o.id) (with_status o.status) db.orders },
)

-- `OrderRepository.Update`
unfoldable pub update_order : ℤ → Order → Action Database (Unit {0})
unfolding first_row update_rows
update_order sandbox o db = restatus (first_row (order_in sandbox o.id) db.orders) sandbox o db

abbrev holds_login : Option Text → Text → Bool
holds_login none value = false
holds_login (some s) value = eq_text s value

abbrev pub walk_in_row : ℤ → ℤ → Text → AccountRow
walk_in_row id sandbox value = record {
  id = id;
  sandbox_id = sandbox;
  phone = none;
  login = some value;
  name = value;
  balance = pos 0;
  blocked = false;
}

-- The key of the account with this login: that of the row that is there, or of a new one. The
-- statement draws a key for its row before it looks for a conflict.
abbrev pub account_for : Option AccountRow → ℤ → Text → Database → ℤ × Database
account_for (some row) sandbox value db = (row.id, record db { next_account = suc db.next_account })
account_for none sandbox value db = (
  pos db.next_account,
  record db {
    accounts = db.accounts ++ (walk_in_row (pos db.next_account) sandbox value ∷ []);
    next_account = suc db.next_account;
  },
)

abbrev first_of : List Order → Option Order
first_of [] = none
first_of (o ∷ os) = some o

abbrev pub order_for : Option Order → ℤ → ℤ → ℤ → Action Database Order
order_for (some o) sandbox account amount db = (ok o, db)
order_for none sandbox account amount db =
    let drawn = record db { next_order = suc db.next_order } in
    let o : Order = record {
      id = pos db.next_order;
      sandbox_id = sandbox;
      account_id = account;
      amount = amount;
      status = OrderStatus.fresh;
      description = text "registered on arrival";
    } in
    if leb_ℤ amount (pos 0)
    then (err rejected, drawn)
    else (ok o, record drawn { orders = db.orders ++ (o ∷ []) })

-- The stand's order of this account and amount that is still payable, the oldest.
unfoldable pub open_order : ℤ → ℤ → ℤ → List Order → Option Order
unfolding orders_where payable
open_order sandbox account amount orders = first_of (
    orders_where
      (λ o.
        eq_ℤ o.sandbox_id sandbox && eq_ℤ o.account_id account && eq_ℤ o.amount amount && payable o)
      orders)

-- `WalkInRepository.Register`
unfoldable pub walk_in : ℤ → Text → ℤ → Action Database Order
unfolding first_row open_order
walk_in sandbox value amount db =
    let (account, db') =
      account_for
        (first_row (λ row. eq_ℤ row.sandbox_id sandbox && holds_login row.login value) db.accounts)
        sandbox value db in
    order_for (open_order sandbox account amount db'.orders) sandbox account amount db'
