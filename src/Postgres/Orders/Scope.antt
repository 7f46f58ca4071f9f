-- ===== src/Postgres/Orders/Scope.antt =====
-- billing/infrastructure/billing.go: the orders that a query in a stand finds are the stand's.
use payme_mock.Base.{
  ◌≡◌, refl, sym, ap, ◌∙◌, Bool, true, ◌&&◌, Option, none, some, List, [], ◌∷◌, arith, Bool-cases,
  inl, inr,
}
use payme_mock.Base.Int.{ℤ, eq_ℤ, eq_ℤ_iff, leb_ℤ}
use payme_mock.Base.Text.{Text}
use payme_mock.Kernel.Effect.{ok}
use payme_mock.Kernel.Effect.Ensures.{ok_injective}
use payme_mock.Billing.Order.{Order, payable}
use payme_mock.Merchant.Orders.{first_payable}
use payme_mock.Postgres.{Database, first_row}
use payme_mock.Postgres.Rows.{first_row_holds}
use payme_mock.Postgres.Orders.{
  scan_order, order_in, order_by_id, insert_by_id, orders_where, orders_by_account, first_of,
  open_order, order_for, walk_in,
}

abbrev AllHold : (Order → Bool) → List Order → Type 0
AllHold p [] = Unit {0}
AllHold p (o ∷ os) = (p o ≡ true) × AllHold p os

insert_by_id-AllHold :
    (p : Order → Bool) (o : Order) (os : List Order)
    → p o ≡ true
    → AllHold p os
    → AllHold p (insert_by_id o os)
unfolding insert_by_id
insert_by_id-AllHold p o [] h hs = (h, tt)
insert_by_id-AllHold p o (x ∷ xs) h hs = elim (Bool-cases (leb_ℤ o.id x.id)) [
  | inl e ↦ rw e (h, hs)
  | inr e ↦ rw e (hs.0, insert_by_id-AllHold p o xs h hs.1)
]

orders_where-AllHold : (p : Order → Bool) (os : List Order) → AllHold p (orders_where p os)
unfolding orders_where
orders_where-AllHold p [] = tt
orders_where-AllHold p (o ∷ os) = elim (Bool-cases (p o)) [
  | inl e ↦ rw e (insert_by_id-AllHold p o (orders_where p os) e (orders_where-AllHold p os))
  | inr e ↦ rw e (orders_where-AllHold p os)
]

first_of-AllHold :
    (p : Order → Bool) (os : List Order) (o : Order)
    → AllHold p os
    → first_of os ≡ some o
    → p o ≡ true
first_of-AllHold p [] o hs h = cc
first_of-AllHold p (x ∷ xs) o hs h = ground (arith, hs.0)

first_payable-AllHold :
    (p : Order → Bool) (os : List Order) (o : Order)
    → AllHold p os
    → first_payable os ≡ some o
    → p o ≡ true
unfolding first_payable
first_payable-AllHold p [] o hs h = cc
first_payable-AllHold p (x ∷ xs) o hs h = elim (Bool-cases (payable x)) [
  | inl e ↦ ground (arith, hs.0)
  | inr e ↦ first_payable-AllHold p xs o hs.1 (ground arith)
]

scanned : (x : Option Order) (o : Order) → scan_order x ≡ ok o → x ≡ some o
scanned none o h = cc
scanned (some y) o h = ap some (ok_injective h)

pub order_by_id-here :
    (sandbox id : ℤ) (o : Order) (db : Database)
    → order_by_id sandbox id db ≡ ok o
    → o.sandbox_id ≡ sandbox
unfolding order_by_id
order_by_id-here sandbox id o db h =
    let holds =
      first_row_holds (order_in sandbox id) db.orders o
        (scanned (first_row (order_in sandbox id) db.orders) o h) in
    ground (arith, eq_ℤ_iff o.sandbox_id sandbox)

pub orders_by_account-here :
    (sandbox account : ℤ) (os : List Order) (o : Order) (db : Database)
    → orders_by_account sandbox account db ≡ ok os
    → first_payable os ≡ some o
    → o.sandbox_id ≡ sandbox
unfolding orders_by_account
orders_by_account-here sandbox account os o db h first =
    let p = λ (x : Order). eq_ℤ x.sandbox_id sandbox && eq_ℤ x.account_id account in
    let holds =
      first_payable-AllHold p (orders_where p db.orders) o (orders_where-AllHold p db.orders)
        (ap first_payable (ok_injective h) ∙ first) in
    ground (arith, eq_ℤ_iff o.sandbox_id sandbox)

open_order-here :
    (sandbox account amount : ℤ) (os : List Order) (o : Order)
    → open_order sandbox account amount os ≡ some o
    → o.sandbox_id ≡ sandbox
unfolding open_order
open_order-here sandbox account amount os o h =
    let p = λ (x : Order).
      eq_ℤ x.sandbox_id sandbox && eq_ℤ x.account_id account && eq_ℤ x.amount amount && payable x in
    let holds = first_of-AllHold p (orders_where p os) o (orders_where-AllHold p os) h in
    ground (arith, eq_ℤ_iff o.sandbox_id sandbox)

order_for-here :
    (x : Option Order) (sandbox account amount : ℤ) (db : Database) (o : Order)
    → ((y : Order) → x ≡ some y → y.sandbox_id ≡ sandbox)
    → (order_for x sandbox account amount db).0 ≡ ok o
    → o.sandbox_id ≡ sandbox
order_for-here (some y) sandbox account amount db o here h =
    ap (λ (z : Order). z.sandbox_id) (sym (ok_injective h)) ∙ here y refl
order_for-here none sandbox account amount db o here h = ground arith

pub walk_in-here :
    (sandbox : ℤ) (value : Text) (amount : ℤ) (o : Order) (db : Database)
    → (walk_in sandbox value amount db).0 ≡ ok o
    → o.sandbox_id ≡ sandbox
unfolding walk_in
walk_in-here sandbox value amount o db h =
    order_for-here _ sandbox _ amount _ o (λ y e. open_order-here sandbox _ amount _ y e) h
