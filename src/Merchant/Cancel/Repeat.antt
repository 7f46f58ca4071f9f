-- ===== src/Merchant/Cancel/Repeat.antt =====
-- merchant/application/service.go: `CancelTransaction`, called again.
use payme_mock.Base.{◌≡◌, refl, sym, ap, ◌∙◌, Bool, true, false, not, some, arith}
use payme_mock.Base.Int.{ℤ, pos}
use payme_mock.Base.Text.{Text}
use payme_mock.Kernel.Effect.{Result, ok, err, pure, when, ◌>>=◌, ◌>>◌}
use payme_mock.Kernel.Effect.Ensures.{Ensures, Ensures-bind, Ensures-raise}
use payme_mock.Billing.Order.{mark_cancelled}
use payme_mock.Merchant.Transaction.{State, Transaction, Reason, cancel, is_final}
use payme_mock.Merchant.Ports.{Ports, Settings, CancelResult}
use payme_mock.Merchant.Laws.{Lawful, SameRow, Kept}
use payme_mock.Merchant.Laws.Frame.{unsettle_tx, change_order_tx}
use payme_mock.Merchant.Register.{unsettle, release_order}
use payme_mock.Merchant.Service.{
  is_performed, event, name_cancel, record_event, transaction_number, load,
}
use payme_mock.Merchant.Perform.Repeat.{load_stored}
use payme_mock.Merchant.Cancel.{cancel_transaction, cancel_after, cancel_done, cancel_writes}

cancel_succeeds :
    (reason : Reason) (now : ℤ) (t : Transaction)
    → (cancel reason now t).0 ≡ ok tt
    → SameRow t (cancel reason now t).1
      × (is_final (cancel reason now t).1.state ≡ true)
      × (is_final t.state ≡ true → (cancel reason now t).1 ≡ t)
unfolding cancel is_final
cancel_succeeds reason now t e = (ground arith, ground arith, ground arith)

module _ {W : Type 0} (ports : Ports W) (settings : Settings) where
  abbrev pub cancel_result_of : Transaction → CancelResult
  cancel_result_of t = record {
    transaction = transaction_number ports settings t;
    cancel_time = t.cancel_time;
    state = t.state;
  }

  -- In `w` the transaction `id` is stored, final, and answered by `r`.
  abbrev Cancelled : Text → CancelResult → W → Type 0
  Cancelled id r w =
      (t : Transaction) × (ports.by_payme_id id w ≡ ok t)
      × (is_final t.state ≡ true)
      × (r ≡ cancel_result_of t)

module _ {W : Type 0} (ports : Ports W) (settings : Settings) (laws : Lawful ports) where
  refund_tx :
      (b : Bool) (id : Text) (amount : ℤ) (w : W)
      → ports.by_payme_id id (when b (unsettle ports settings amount) w).1 ≡ ports.by_payme_id id w
  refund_tx true id amount w = unsettle_tx ports settings laws id amount w
  refund_tx false id amount w = refl

  writes_stored :
      (id : Text) (before tx : Transaction) (w : W)
      → SameRow before tx
      → ports.by_payme_id id w ≡ ok before
      → Ensures
          (λ _ w'. (t : Transaction) × (ports.by_payme_id id w' ≡ ok t) × Kept tx t)
          (cancel_writes ports settings before tx)
          w
  unfolding cancel_writes release_order
  writes_stored id before tx w row stored = Ensures-bind _ _ w λ _ _.
      Ensures-bind _ _ _ λ _ updated. record {
        at = λ _ _. (
          record tx { reason = laws.kept tx.reason },
          change_order_tx ports settings laws id tx.order_id mark_cancelled _
              ∙ laws.update_stored id before tx _
                  (refund_tx (is_performed before.state) id tx.amount w ∙ stored) row updated,
          refl,
        );
      }

  answer_Cancelled :
      (id : Text) (tx t : Transaction) (replay : Bool) (from_state : State) (w : W)
      → is_final tx.state ≡ true
      → ports.by_payme_id id w ≡ ok t
      → Kept tx t
      → Ensures
          (Cancelled ports settings id)
          (record_event ports settings tx.id name_cancel
              (some from_state)
              (some tx.state)
              replay
              (pos 0)
            >> pure (cancel_result_of ports settings tx))
          w
  unfolding record_event ◌>>=◌
  answer_Cancelled id tx t replay from_state w p stored kept = record {
    at = λ r e. (
      t,
      laws.event_tx id _ w ∙ stored,
      ap (λ (x : Transaction). is_final x.state) kept ∙ p,
      (let answered : r ≡ cancel_result_of ports settings tx = cc in answered)
          ∙ ap (cancel_result_of ports settings) (sym kept),
    );
  }

  done_Cancelled :
      (id : Text) (before tx : Transaction) (w : W)
      → SameRow before tx
      → is_final tx.state ≡ true
      → (is_final before.state ≡ true → tx ≡ before)
      → ports.by_payme_id id w ≡ ok before
      → Ensures (Cancelled ports settings id) (cancel_done ports settings before tx) w
  unfolding cancel_done
  done_Cancelled id before tx w row p same stored = Ensures-bind _ _ w λ _ written.
      let (t, found, kept) = stored_after (is_final before.state) refl written in
      answer_Cancelled id tx t _ before.state _ p found kept
    where
      stored_after :
          (b : Bool)
          → is_final before.state ≡ b
          → (when (not b) (cancel_writes ports settings before tx) w).0 ≡ ok tt
          → (t : Transaction) × (ports.by_payme_id id
                (when (not b) (cancel_writes ports settings before tx) w).1
              ≡ ok t)
            × Kept tx t
      stored_after true b _ = (tx, stored ∙ ap ok (sym (same b)), refl)
      stored_after false b e = (writes_stored id before tx w row stored).at tt e

  after_Cancelled :
      (id : Text) (before : Transaction) (x : Result (Unit {0}) × Transaction) (w : W)
      → (x.0 ≡ ok tt
          → SameRow before x.1
            × (is_final x.1.state ≡ true)
            × (is_final before.state ≡ true → x.1 ≡ before))
      → ports.by_payme_id id w ≡ ok before
      → Ensures (Cancelled ports settings id) (cancel_after ports settings before x) w
  unfolding cancel_after
  after_Cancelled id before (ok tt, tx) w h stored =
      let (row, p, same) = h refl in done_Cancelled id before tx w row p same stored
  after_Cancelled id before (err e, tx) w h stored = Ensures-raise e w

  cancel_Cancelled :
      (id : Text) (reason : Reason) (w : W)
      → Ensures (Cancelled ports settings id) (cancel_transaction ports settings id reason) w
  unfolding cancel_transaction load
  cancel_Cancelled id reason w = Ensures-bind _ _ w λ t loaded. Ensures-bind _ _ w λ now _.
      after_Cancelled id t (cancel reason now t) _ (cancel_succeeds reason now t)
        (laws.now_tx id w ∙ load_stored ports settings id t w loaded)

  -- The audit entry that a repeated cancellation leaves, and all that it changes.
  abbrev pub cancelled_again : Transaction → W → W
  cancelled_again t w =
      (ports.record_event (event t.id name_cancel (some t.state) (some t.state) true (pos 0))
        (ports.now w).1).1

  cancel_again :
      (id : Text) (reason : Reason) (t : Transaction) (w : W)
      → ports.by_payme_id id w ≡ ok t
      → is_final t.state ≡ true
      → cancel_transaction ports settings id reason w
        ≡ (ok (cancel_result_of ports settings t), cancelled_again t w)
  unfolding cancel_transaction cancel_after cancel_done load record_event cancel is_final ◌>>=◌
  cancel_again id reason t w stored p = ground arith

  -- Once `CancelTransaction` has succeeded, repeating it with any reason returns the same response
  -- at any later time, its only write is an audit entry marked as a repeat, and the register's
  -- account is as the first call left it.
  pub cancel-cancel_transaction :
      (id : Text) (reason reason' : Reason) (r : CancelResult) (w : W)
      → (cancel_transaction ports settings id reason w).0 ≡ ok r
      → let w' = (cancel_transaction ports settings id reason w).1 in
        (t : Transaction) × (ports.by_payme_id id w' ≡ ok t)
        × (cancel_transaction ports settings id reason' w' ≡ (ok r, cancelled_again t w'))
        × (ports.register (cancel_transaction ports settings id reason' w').1 ≡ ports.register w')
  cancel-cancel_transaction id reason reason' r w e =
      let w' = (cancel_transaction ports settings id reason w).1 in
      let (t, stored, p, answered) = (cancel_Cancelled id reason w).at r e in
      let again = cancel_again id reason' t w' stored p in
      (
        t,
        stored,
        again ∙ ap (λ x. (ok x, cancelled_again t w')) (sym answered),
        ap (λ x. ports.register x.1) again ∙ laws.event_register _ _ ∙ laws.now_register w',
      )
