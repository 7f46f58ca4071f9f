-- ===== src/Merchant/Register.antt =====
-- merchant/application/service.go: the register behind a payment, and what settling moves.
use payme_mock.Base.{if◌then◌else◌}
use payme_mock.Base.Int.{ℤ}
use payme_mock.Base.Text.{Text, text, eq_text}
use payme_mock.Kernel.Effect.{
  Result, ok, err, Action, pure, raise, read, lift, is_not_found, ◌>>=◌, ◌>>◌,
}
use payme_mock.Billing.Order.{Account, Order, mark_paid, mark_cancelled}
use payme_mock.Billing.Cashbox.{Kind, kind_valid, usable, apply, reverse}
use payme_mock.Merchant.Ports.{Ports, Settings}

-- The conversion `billing.Kind(s)`.
unfoldable pub kind_of : Text → Kind
unfolding eq_text
kind_of s =
    if eq_text s (text "topup")
    then Kind.topup
    else if eq_text s (text "dividend")
    then Kind.dividend
    else if eq_text s (text "deposit")
    then Kind.deposit
    else Kind.other s

-- The kind that `registerAccount` settles on: a top-up where none was set.
unfoldable pub effective_kind : Text → Kind
unfolding kind_of kind_valid
effective_kind s = let k = kind_of s in if kind_valid k then k else Kind.topup

module _ {W : Type 0} (ports : Ports W) (settings : Settings) where
  -- `settle`: the register is loaded, moved by the amount and stored.
  unfoldable pub settle : ℤ → Action W (Unit {0})
  settle amount = do
    account ← read ports.register
    let moved = apply (effective_kind settings.register_kind) amount account
    lift moved.0
    ports.update_balance moved.1.id moved.1.balance

  unfoldable pub unsettle : ℤ → Action W (Unit {0})
  unsettle amount = do
    account ← read ports.register
    let moved = reverse (effective_kind settings.register_kind) amount account
    ports.update_balance moved.id moved.balance

  usable_of : Result Account → Result (Unit {0})
  usable_of (ok account) = usable account
  usable_of (err e) = if is_not_found e then ok tt else err e

  -- `registerUsable`
  unfoldable pub register_usable : Action W (Unit {0})
  unfolding usable_of
  register_usable = read (λ w. usable_of (ports.register w))

  unfoldable pub update_found : (Order → Order) → Result Order → Action W (Unit {0})
  update_found change (ok order) = ports.update_order (change order)
  update_found change (err e) = if is_not_found e then pure tt else raise e

  -- `updateOrder`
  unfoldable pub change_order : ℤ → (Order → Order) → Action W (Unit {0})
  unfolding update_found
  change_order id change w = update_found change (ports.order_by_id id w) w

  unfoldable pub mark_order_paid : ℤ → Action W (Unit {0})
  mark_order_paid id = change_order id mark_paid

  unfoldable pub release_order : ℤ → Action W (Unit {0})
  release_order id = change_order id mark_cancelled
