-- ===== src/Merchant/Perform.antt =====
-- merchant/application/service.go: `PerformTransaction`.
pub mod Repeat
pub mod Money
use payme_mock.Base.{false, not, none, some, if◌then◌else◌}
use payme_mock.Base.Int.{pos, eq_ℤ}
use payme_mock.Base.Text.{Text}
use payme_mock.Kernel.Errors.{code_cannot_perform}
use payme_mock.Kernel.Effect.{Error, Result, ok, err, Action, pure, raise, when, ◌>>=◌, ◌>>◌}
use payme_mock.Merchant.Transaction.{Transaction, perform}
use payme_mock.Merchant.Ports.{Ports, Settings, PerformResult}
use payme_mock.Merchant.Register.{settle, mark_order_paid}
use payme_mock.Merchant.Service.{
  is_performed, state_number, name_perform, record_event, clock, transaction_number, load,
}

module _ {W : Type 0} (ports : Ports W) (settings : Settings) where
  -- `tx.Perform` failed: an expired transaction was cancelled by it, and that reaches storage.
  unfoldable pub perform_failed : Transaction → Transaction → Error → Action W PerformResult
  unfolding record_event
  perform_failed before tx e =
      if eq_ℤ (state_number tx.state) (state_number before.state)
      then raise e
      else ports.update tx
        >> record_event ports settings tx.id name_perform (some before.state) (some tx.state) false
            code_cannot_perform
        >> raise e

  -- A balance that cannot move is recorded, and fails the call.
  unfoldable pub settle_result : Transaction → Result (Unit {0}) → Action W (Unit {0})
  unfolding record_event
  settle_result before (ok done) = pure tt
  settle_result before (err e) =
      record_event ports settings before.id name_perform (some before.state) none false
        code_cannot_perform
      >> raise e

  unfoldable pub settle_or_record : Transaction → Action W (Unit {0})
  unfolding settle_result
  settle_or_record before w =
      let (r, w') = settle ports settings before.amount w in settle_result before r w'

  -- The writes of a confirmation that is no repeat: balance, transaction, order.
  unfoldable pub perform_writes : Transaction → Transaction → Action W (Unit {0})
  unfolding settle_or_record
  perform_writes before tx = do
    settle_or_record before
    ports.update tx
    mark_order_paid ports settings tx.order_id

  unfoldable pub perform_done : Transaction → Transaction → Action W PerformResult
  unfolding record_event perform_writes
  perform_done before tx = do
    when (not (is_performed before.state)) (perform_writes before tx)
    record_event ports settings tx.id name_perform (some before.state) (some tx.state)
        (is_performed before.state) (pos 0)
    pure (record {
      transaction = transaction_number ports settings tx;
      perform_time = tx.perform_time;
      state = tx.state;
    })

  unfoldable pub perform_after :
      Transaction → Result (Unit {0}) × Transaction → Action W PerformResult
  unfolding perform_failed perform_done
  perform_after before (ok done, tx) = perform_done before tx
  perform_after before (err e, tx) = perform_failed before tx e

  -- `PerformTransaction`
  unfoldable pub perform_transaction : Text → Action W PerformResult
  unfolding perform_after load
  perform_transaction id = do
    tx ← load ports settings id
    now ← clock ports settings
    perform_after tx (perform now settings.transaction_timeout_millis tx)
