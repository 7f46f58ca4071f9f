-- ===== src/Merchant/Create.antt =====
-- merchant/application/service.go: `CreateTransaction`, with the replay of a repeated request.
pub mod Repeat
pub mod Check
use payme_mock.Base.{true, false, none, some, if◌then◌else◌}
use payme_mock.Base.Int.{ℤ, pos}
use payme_mock.Base.Text.{Text}
use payme_mock.Kernel.Errors.{code_cannot_perform, err_cannot_perform}
use payme_mock.Kernel.Effect.{
  Error, Result, ok, err, duplicate, Action, pure, raise, refuse, read, lift, is_not_found, ◌>>=◌,
  ◌>>◌,
}
use payme_mock.Billing.Order.{Order, check_amount, mark_processing}
use payme_mock.Merchant.Transaction.{State, Transaction, new_transaction}
use payme_mock.Merchant.Ports.{Ports, Settings, CreateParams, CreateResult}
use payme_mock.Merchant.Orders.{resolve_order}
use payme_mock.Merchant.Register.{register_usable}
use payme_mock.Merchant.Service.{is_created, name_create, record_event, clock, create_result_of}

module _ {W : Type 0} (ports : Ports W) (settings : Settings) where
  -- The answer to a repeat of a creation: `existing` is what is stored.
  unfoldable pub answer_existing : Transaction → Action W CreateResult
  unfolding record_event ◌>>=◌
  answer_existing existing =
      if is_created existing.state
      then record_event ports settings existing.id name_create (some existing.state) none true
          (pos 0)
        >> pure (create_result_of ports settings existing)
      else record_event ports settings existing.id name_create (some existing.state) none true
          code_cannot_perform
        >> refuse err_cannot_perform

  -- `replayCreate`
  unfoldable pub replay_create : Text → Action W CreateResult
  replay_create id = do existing ← read (ports.by_payme_id id); answer_existing existing

  refuse_active : Result Transaction → Action W (Unit {0})
  refuse_active (ok active) = refuse err_cannot_perform
  refuse_active (err e) = if is_not_found e then pure tt else raise e

  -- What follows a transaction that was stored under `id`.
  created_as : Order → Transaction → ℤ → Action W CreateResult
  unfolding record_event
  created_as order tx id = do
    let stored = record tx { id = id }
    ports.update_order (mark_processing order)
    record_event ports settings id name_create none (some State.created) false (pos 0)
    pure (create_result_of ports settings stored)

  after_create : Order → Transaction → Result ℤ → Action W CreateResult
  unfolding created_as replay_create
  after_create order tx (ok id) = created_as order tx id
  after_create order tx (err duplicate) = replay_create tx.payme_id
  after_create order tx (err Error.not_found) = raise Error.not_found
  after_create order tx (err (Error.protocol e)) = raise (Error.protocol e)
  after_create order tx (err (Error.other s)) = raise (Error.other s)

  store_transaction : Order → Transaction → Action W CreateResult
  unfolding after_create
  store_transaction order tx w = let (r, w') = ports.create tx w in after_create order tx r w'

  -- The part of `CreateTransaction` for an identifier that is not stored yet.
  unfoldable pub create_new : CreateParams → Action W CreateResult
  unfolding refuse_active store_transaction
  create_new p = do
    order ← resolve_order ports settings p.account p.amount
    lift (check_amount order p.amount)
    register_usable ports settings
    (λ w. refuse_active (ports.active_by_order order.id w) w)
    now ← clock ports settings
    let tx =
        new_transaction order.sandbox_id p.id order.id order.account_id p.account p.amount p.time
          now
    store_transaction order tx

  create_for : Result Transaction → CreateParams → Action W CreateResult
  unfolding answer_existing create_new
  create_for (ok existing) p = answer_existing existing
  create_for (err e) p = if is_not_found e then create_new p else raise e

  -- `CreateTransaction`
  unfoldable pub create_transaction : CreateParams → Action W CreateResult
  unfolding create_for
  create_transaction p w = create_for (ports.by_payme_id p.id w) p w
