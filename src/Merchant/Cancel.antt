-- ===== src/Merchant/Cancel.antt =====
-- merchant/application/service.go: `CancelTransaction`.
pub mod Refund
pub mod Repeat
use payme_mock.Base.{not, some}
use payme_mock.Base.Int.{pos}
use payme_mock.Base.Text.{Text}
use payme_mock.Kernel.Effect.{Result, ok, err, Action, pure, raise, when, ◌>>=◌, ◌>>◌}
use payme_mock.Merchant.Transaction.{is_final, Transaction, cancel, Reason}
use payme_mock.Merchant.Ports.{Ports, Settings, CancelResult}
use payme_mock.Merchant.Register.{unsettle, release_order}
use payme_mock.Merchant.Service.{
  is_performed, name_cancel, record_event, clock, transaction_number, load,
}

module _ {W : Type 0} (ports : Ports W) (settings : Settings) where
  -- The writes of a cancellation that is no repeat.
  unfoldable pub cancel_writes : Transaction → Transaction → Action W (Unit {0})
  cancel_writes before tx = do
    when (is_performed before.state) (unsettle ports settings tx.amount)
    ports.update tx
    release_order ports settings tx.order_id

  unfoldable pub cancel_done : Transaction → Transaction → Action W CancelResult
  unfolding record_event cancel_writes
  cancel_done before tx = do
    when (not (is_final before.state)) (cancel_writes before tx)
    record_event ports settings tx.id name_cancel (some before.state) (some tx.state)
        (is_final before.state) (pos 0)
    pure (record {
      transaction = transaction_number ports settings tx;
      cancel_time = tx.cancel_time;
      state = tx.state;
    })

  unfoldable pub cancel_after :
      Transaction → Result (Unit {0}) × Transaction → Action W CancelResult
  unfolding cancel_done
  cancel_after before (ok done, tx) = cancel_done before tx
  cancel_after before (err e, tx) = raise e

  -- `CancelTransaction`
  unfoldable pub cancel_transaction : Text → Reason → Action W CancelResult
  unfolding cancel_after load
  cancel_transaction id reason = do
    tx ← load ports settings id
    now ← clock ports settings
    cancel_after tx (cancel reason now tx)
