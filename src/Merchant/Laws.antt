-- ===== src/Merchant/Laws.antt =====
-- What the Merchant API relies on of its repositories, as merchant/infrastructure writes them: rows
-- are found again as they were stored, but for what a column keeps of a reason, a write to one table
-- leaves the others alone, and the orders are those of one stand.
pub mod Frame
pub mod Money
use payme_mock.Base.{◌≡◌, Option, some, List, arith}
use payme_mock.Base.Int.{ℤ}
use payme_mock.Base.Text.{Text}
use payme_mock.Kernel.Effect.{Result, ok}
use payme_mock.Billing.Order.{Account, Order}
use payme_mock.Merchant.Transaction.{Transaction, Reason}
use payme_mock.Merchant.Ports.{Ports, Event}
use payme_mock.Merchant.Orders.{first_payable}

-- `t` differs from `s` only in the columns that `Update` writes.
abbrev pub SameRow : Transaction → Transaction → Type 0
SameRow s t = t ≡ record s {
  state = t.state;
  reason = t.reason;
  perform_time = t.perform_time;
  cancel_time = t.cancel_time;
  receivers = t.receivers;
}

-- `t` is `tx` as a table gives it back, which may not keep the reason as it was.
abbrev pub Kept : Transaction → Transaction → Type 0
Kept tx t = t ≡ record tx { reason = t.reason }

pub Kept-SameRow : (s tx t : Transaction) → SameRow s tx → Kept tx t → SameRow s t
Kept-SameRow s tx t row kept = ground arith

pub record Lawful {W : Type 0} (ports : Ports W) : Type 0 where
  -- The stand that the repositories are scoped to, and what the column keeps of a reason.
  pub stand : ℤ
  pub kept : Option Reason → Option Reason
  -- Transactions.
  pub create_stored :
      (t : Transaction) (w : W) {id : ℤ}
      → t.sandbox_id ≡ stand
      → (ports.create t w).0 ≡ ok id
      → ports.by_payme_id t.payme_id (ports.create t w).1
        ≡ ok (record t { id = id; reason = kept t.reason })
  pub update_stored :
      (id : Text) (s t : Transaction) (w : W)
      → ports.by_payme_id id w ≡ ok s
      → SameRow s t
      → (ports.update t w).0 ≡ ok tt
      → ports.by_payme_id id (ports.update t w).1 ≡ ok (record t { reason = kept t.reason })
  pub event_tx :
      (id : Text) (e : Event) (w : W)
      → ports.by_payme_id id (ports.record_event e w).1 ≡ ports.by_payme_id id w
  pub order_tx :
      (id : Text) (o : Order) (w : W)
      → ports.by_payme_id id (ports.update_order o w).1 ≡ ports.by_payme_id id w
  pub balance_tx :
      (id : Text) (n b : ℤ) (w : W)
      → ports.by_payme_id id (ports.update_balance n b w).1 ≡ ports.by_payme_id id w
  pub now_tx : (id : Text) (w : W) → ports.by_payme_id id (ports.now w).1 ≡ ports.by_payme_id id w
  -- The register's account.
  pub balance_stored :
      (a : Account) (b : ℤ) (w : W)
      → ports.register w ≡ ok a
      → (ports.update_balance a.id b w).0 ≡ ok tt
      → ports.register (ports.update_balance a.id b w).1 ≡ ok (record a { balance = b })
  pub event_register :
      (e : Event) (w : W) → ports.register (ports.record_event e w).1 ≡ ports.register w
  pub order_register :
      (o : Order) (w : W) → ports.register (ports.update_order o w).1 ≡ ports.register w
  pub update_register :
      (t : Transaction) (w : W) → ports.register (ports.update t w).1 ≡ ports.register w
  pub now_register : (w : W) → ports.register (ports.now w).1 ≡ ports.register w
  -- The orders that a call can be about are those of the stand.
  pub order_here : (n : ℤ) (o : Order) (w : W) → ports.order_by_id n w ≡ ok o → o.sandbox_id ≡ stand
  pub orders_here :
      (n : ℤ) (os : List Order) (o : Order) (w : W)
      → ports.orders_by_account n w ≡ ok os
      → first_payable os ≡ some o
      → o.sandbox_id ≡ stand
  pub walk_in_here :
      (value : Text) (n : ℤ) (o : Order) (w : W)
      → (ports.walk_in value n w).0 ≡ ok o
      → o.sandbox_id ≡ stand
