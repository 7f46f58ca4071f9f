-- ===== src/Merchant/Laws/Frame.antt =====
-- merchant/application/service.go: the tables that the parts of a call do not write.
use payme_mock.Base.{◌≡◌, arith}
use payme_mock.Base.Int.{ℤ}
use payme_mock.Base.Text.{Text}
use payme_mock.Kernel.Effect.{Result, ok, err, ◌>>=◌}
use payme_mock.Billing.Order.{Order}
use payme_mock.Merchant.Ports.{Ports, Settings}
use payme_mock.Merchant.Laws.{Lawful}
use payme_mock.Merchant.Register.{settle, unsettle, change_order, update_found}

module _ {W : Type 0} (ports : Ports W) (settings : Settings) (laws : Lawful ports) where
  pub settle_tx :
      (id : Text) (amount : ℤ) (w : W)
      → ports.by_payme_id id (settle ports settings amount w).1 ≡ ports.by_payme_id id w
  unfolding settle ◌>>=◌
  settle_tx id amount w = grind (arith, laws.balance_tx)

  pub unsettle_tx :
      (id : Text) (amount : ℤ) (w : W)
      → ports.by_payme_id id (unsettle ports settings amount w).1 ≡ ports.by_payme_id id w
  unfolding unsettle ◌>>=◌
  unsettle_tx id amount w = grind (arith, laws.balance_tx)

  pub change_order_tx :
      (id : Text) (n : ℤ) (change : Order → Order) (w : W)
      → ports.by_payme_id id (change_order ports settings n change w).1 ≡ ports.by_payme_id id w
  unfolding change_order
  change_order_tx id n change w = grind (arith, laws.order_tx)

  found_register :
      (change : Order → Order) (x : Result Order) (w : W)
      → ports.register (update_found ports settings change x w).1 ≡ ports.register w
  unfolding update_found
  found_register change (ok o) w = laws.order_register (change o) w
  found_register change (err e) w = ground arith

  pub change_order_register :
      (n : ℤ) (change : Order → Order) (w : W)
      → ports.register (change_order ports settings n change w).1 ≡ ports.register w
  unfolding change_order
  change_order_register n change w = found_register change (ports.order_by_id n w) w
