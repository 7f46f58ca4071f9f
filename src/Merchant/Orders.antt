-- ===== src/Merchant/Orders.antt =====
-- merchant/application/service.go: how the `account` object of a call is turned into an order.
pub mod Here
use payme_mock.Base.{not, Option, none, some, List, [], ◌∷◌, if◌then◌else◌}
use payme_mock.Base.Int.{ℤ, pos, leb_ℤ, eq_ℤ}
use payme_mock.Base.Text.{Text, text, eq_text, is_empty}
use payme_mock.Base.Dict.{Dict, lookup, text_eq}
use payme_mock.Kernel.Errors.{ProtocolError, err_account_not_found, err_invalid_amount, with_data}
use payme_mock.Kernel.Effect.{
  Result, ok, err, fail, Action, pure, raise, refuse, read, is_not_found, ◌>>=◌,
}
use payme_mock.Billing.Order.{Account, Order, payable}
use payme_mock.Merchant.Ports.{Ports, Settings}

abbrev pub order_id_field : Text
order_id_field = text "order_id"

-- `ErrAccountNotFound.WithData(field)`
abbrev pub unknown_account : Text → ProtocolError
unknown_account field = with_data err_account_not_found field

-- `first payable` of the loop over a payer's orders.
unfoldable pub first_payable : List Order → Option Order
first_payable [] = none
first_payable (o ∷ os) = if payable o then some o else first_payable os

module _ {W : Type 0} (ports : Ports W) (settings : Settings) where
  -- A port's miss becomes the account error that names the field; another failure stays.
  abbrev or_unknown : {A : Type 0} → Text → Result A → Result A
  or_unknown field (ok a) = ok a
  or_unknown field (err e) = if is_not_found e then fail (unknown_account field) else err e

  unfoldable pub register_walk_in : Text → Text → ℤ → Action W Order
  register_walk_in field value amount w =
      if leb_ℤ amount (pos 0)
      then (fail err_invalid_amount, w)
      else let (r, w') = ports.walk_in value amount w in (or_unknown field r, w')

  -- A payer with nothing to pay: another order where walk-ins are accepted, else refused.
  unfoldable pub walk_in_or_refuse : Text → Text → ℤ → Action W Order
  unfolding register_walk_in
  walk_in_or_refuse field value amount =
      if settings.auto_register_accounts
      then register_walk_in field value amount
      else refuse (unknown_account field)

  -- The checks of `namedOrder` on the order that was loaded.
  check_named : Text → Text → ℤ → ℤ → Order → Action W Order
  unfolding walk_in_or_refuse
  check_named field value account_id amount order =
      if not (eq_ℤ order.account_id account_id)
      then refuse (unknown_account field)
      else if not (payable order)
      then walk_in_or_refuse field value amount
      else pure order

  named_order_of : Option ℤ → Text → Text → ℤ → ℤ → Action W Order
  unfolding check_named
  named_order_of none field value account_id amount = refuse (unknown_account field)
  named_order_of (some id) field value account_id amount = do
    order ← read (λ w. or_unknown field (ports.order_by_id id w))
    check_named field value account_id amount order

  unfoldable pub named_order : Text → Text → ℤ → ℤ → Action W Order
  unfolding named_order_of
  named_order field value account_id amount =
      named_order_of (ports.parse_int value) field value account_id amount

  first_order_of : Option Order → Text → Text → ℤ → Action W Order
  unfolding walk_in_or_refuse
  first_order_of (some o) field value amount = pure o
  first_order_of none field value amount = walk_in_or_refuse field value amount

  -- The order of a payer that is known.
  order_of_account : Text → Text → ℤ → Account → Action W Order
  unfolding named_order first_order_of first_payable
  order_of_account field value amount acc =
      if eq_text field order_id_field then named_order field value acc.id amount else do
        orders ← read (ports.orders_by_account acc.id)
        first_order_of (first_payable orders) field value amount

  order_of_lookup : Result Account → Text → Text → ℤ → Action W Order
  unfolding order_of_account walk_in_or_refuse
  order_of_lookup (ok acc) field value amount = order_of_account field value amount acc
  order_of_lookup (err e) field value amount =
      if is_not_found e then walk_in_or_refuse field value amount else raise e

  order_of_value : Option Text → Text → ℤ → Action W Order
  unfolding order_of_lookup
  order_of_value none field amount w = (fail (unknown_account field), w)
  order_of_value (some value) field amount w =
      if is_empty value
      then (fail (unknown_account field), w)
      else order_of_lookup (ports.account_by_field field value w) field value amount w

  -- `resolveOrder`
  unfoldable pub resolve_order : Dict Text Text → ℤ → Action W Order
  unfolding order_of_value lookup
  resolve_order account amount =
      order_of_value (lookup settings.account_field account) settings.account_field amount
