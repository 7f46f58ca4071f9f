-- ===== src/Merchant/Perform/Repeat.antt =====
-- merchant/application/service.go: `PerformTransaction`, called again.
use payme_mock.Base.{◌≡◌, refl, ap, subst, Bool, not, sym, ◌∙◌, true, false, some, arith}
use payme_mock.Base.Int.{ℤ, pos}
use payme_mock.Base.Text.{Text}
use payme_mock.Kernel.Effect.{Error, Result, ok, err, when, pure, ◌>>=◌, ◌>>◌}
use payme_mock.Kernel.Effect.Ensures.{Ensures, Ensures-bind, ok_injective}
use payme_mock.Billing.Order.{mark_paid}
use payme_mock.Merchant.Transaction.{State, Transaction, perform}
use payme_mock.Merchant.Ports.{Ports, Settings, PerformResult}
use payme_mock.Merchant.Laws.{Lawful, SameRow, Kept, Kept-SameRow}
use payme_mock.Merchant.Laws.Frame.{settle_tx, change_order_tx}
use payme_mock.Merchant.Register.{mark_order_paid}
use payme_mock.Merchant.Service.{
  event, is_performed, name_perform, record_event, transaction_number, load,
}
use payme_mock.Merchant.Perform.{
  perform_transaction, perform_after, perform_done, perform_failed, perform_writes,
  settle_or_record,
}

-- A confirmation that succeeds performs the transaction and changes nothing that `Update` would
-- not write; of a performed one it changes nothing at all.
pub perform_succeeds :
    (now timeout : ℤ) (t : Transaction)
    → (perform now timeout t).0 ≡ ok tt
    → SameRow t (perform now timeout t).1
      × ((perform now timeout t).1.state ≡ State.performed)
      × (is_performed t.state ≡ true → (perform now timeout t).1 ≡ t)
unfolding perform
perform_succeeds now timeout t e = (ground arith, ground arith, ground arith)

module _ {W : Type 0} (ports : Ports W) (settings : Settings) where
  abbrev pub perform_result_of : Transaction → PerformResult
  perform_result_of t = record {
    transaction = transaction_number ports settings t;
    perform_time = t.perform_time;
    state = t.state;
  }

  -- In `w` the transaction `id` is stored, performed, and answered by `r`; it is the row that was
  -- stored in `w₀`.
  abbrev pub Answers : Text → W → PerformResult → W → Type 0
  Answers id w₀ r w =
      (t : Transaction) × (ports.by_payme_id id w ≡ ok t)
      × (t.state ≡ State.performed)
      × (r ≡ perform_result_of t)
      × ((s : Transaction) → ports.by_payme_id id w₀ ≡ ok s → SameRow s t)

  pub load_stored :
      (id : Text) (t : Transaction) (w : W)
      → (load ports settings id w).0 ≡ ok t
      → ports.by_payme_id id w ≡ ok t
  unfolding load
  load_stored id t w e = ground arith

module _ {W : Type 0} (ports : Ports W) (settings : Settings) (laws : Lawful ports) where
  settle_or_record_tx :
      (id : Text) (before : Transaction) (w : W)
      → (settle_or_record ports settings before w).0 ≡ ok tt
      → ports.by_payme_id id (settle_or_record ports settings before w).1 ≡ ports.by_payme_id id w
  unfolding settle_or_record ◌>>=◌
  settle_or_record_tx id before w e =
      ground (arith, settle_tx ports settings laws id before.amount w)

  writes_stored :
      (id : Text) (before tx : Transaction) (w : W)
      → SameRow before tx
      → ports.by_payme_id id w ≡ ok before
      → Ensures
          (λ _ w'. (t : Transaction) × (ports.by_payme_id id w' ≡ ok t) × Kept tx t)
          (perform_writes ports settings before tx)
          w
  unfolding perform_writes mark_order_paid
  writes_stored id before tx w row stored = Ensures-bind _ _ w λ _ settled.
      Ensures-bind _ _ _ λ _ updated. record {
        at = λ _ _. (
          record tx { reason = laws.kept tx.reason },
          change_order_tx ports settings laws id tx.order_id mark_paid _
              ∙ laws.update_stored id before tx _ (settle_or_record_tx id before w settled ∙ stored)
                  row updated,
          refl,
        );
      }

  -- The audit entry and the response, once the transaction is stored as it is answered.
  answer_Answers :
      (id : Text) (tx t : Transaction) (replay : Bool) (from_state : State) (w₀ w : W)
      → ((s : Transaction) → ports.by_payme_id id w₀ ≡ ok s → SameRow s tx)
      → tx.state ≡ State.performed
      → ports.by_payme_id id w ≡ ok t
      → Kept tx t
      → Ensures
          (Answers ports settings id w₀)
          (record_event ports settings tx.id name_perform
              (some from_state)
              (some tx.state)
              replay
              (pos 0)
            >> pure (perform_result_of ports settings tx))
          w
  unfolding record_event ◌>>=◌
  answer_Answers id tx t replay from_state w₀ w row p stored kept = record {
    at = λ r e. (
      t,
      laws.event_tx id _ w ∙ stored,
      ap (λ (x : Transaction). x.state) kept ∙ p,
      (let answered : r ≡ perform_result_of ports settings tx = cc in answered)
          ∙ ap (perform_result_of ports settings) (sym kept),
      λ s q. Kept-SameRow s tx t (row s q) kept,
    );
  }

  done_Answers :
      (id : Text) (before tx : Transaction) (w₀ w : W)
      → ports.by_payme_id id w₀ ≡ ok before
      → SameRow before tx
      → tx.state ≡ State.performed
      → (is_performed before.state ≡ true → tx ≡ before)
      → ports.by_payme_id id w ≡ ok before
      → Ensures (Answers ports settings id w₀) (perform_done ports settings before tx) w
  unfolding perform_done
  done_Answers id before tx w₀ w loaded row p same stored = Ensures-bind _ _ w λ _ written.
      let (t, found, kept) = stored_after (is_performed before.state) refl written in
      answer_Answers id tx t _ before.state w₀ _
        (λ s q. subst (λ t. SameRow t tx) (ok_injective (sym loaded ∙ q)) row) p found kept
    where
      stored_after :
          (b : Bool)
          → is_performed before.state ≡ b
          → (when (not b) (perform_writes ports settings before tx) w).0 ≡ ok tt
          → (t : Transaction) × (ports.by_payme_id id
                (when (not b) (perform_writes ports settings before tx) w).1
              ≡ ok t)
            × Kept tx t
      stored_after true b _ = (tx, stored ∙ ap ok (sym (same b)), refl)
      stored_after false b e = (writes_stored id before tx w row stored).at tt e

  -- The failing branch never returns a result.
  pub failed_Ensures :
      (Q : PerformResult → W → Type 0) (before tx : Transaction) (x : Error) (w : W)
      → Ensures Q (perform_failed ports settings before tx x) w
  unfolding perform_failed ◌>>=◌
  failed_Ensures Q before tx x w = record { at = λ r e. absurd (ground arith) }

  after_Answers :
      (id : Text) (before : Transaction) (x : Result (Unit {0}) × Transaction) (w₀ w : W)
      → ports.by_payme_id id w₀ ≡ ok before
      → (x.0 ≡ ok tt
          → SameRow before x.1
            × (x.1.state ≡ State.performed)
            × (is_performed before.state ≡ true → x.1 ≡ before))
      → ports.by_payme_id id w ≡ ok before
      → Ensures (Answers ports settings id w₀) (perform_after ports settings before x) w
  unfolding perform_after
  after_Answers id before (ok tt, tx) w₀ w loaded h stored =
      let (row, p, same) = h refl in done_Answers id before tx w₀ w loaded row p same stored
  after_Answers id before (err e, tx) w₀ w loaded h stored = failed_Ensures _ before tx e w

  -- A confirmation that returned `r` leaves the transaction that `r` answers for.
  pub perform_Answers :
      (id : Text) (w : W)
      → Ensures (Answers ports settings id w) (perform_transaction ports settings id) w
  unfolding perform_transaction load
  perform_Answers id w = Ensures-bind _ _ w λ t loaded. Ensures-bind _ _ w λ now _.
      after_Answers id t (perform now settings.transaction_timeout_millis t) w _
        (load_stored ports settings id t w loaded)
        (perform_succeeds now settings.transaction_timeout_millis t)
        (laws.now_tx id w ∙ load_stored ports settings id t w loaded)

  -- The audit entry that a repeated confirmation leaves, and all that it changes.
  abbrev pub repeated : Transaction → W → W
  repeated t w =
      (ports.record_event
        (event t.id name_perform (some State.performed) (some State.performed) true (pos 0))
        (ports.now w).1).1

  perform_again :
      (id : Text) (t : Transaction) (w : W)
      → ports.by_payme_id id w ≡ ok t
      → t.state ≡ State.performed
      → perform_transaction ports settings id w
        ≡ (ok (perform_result_of ports settings t), repeated t w)
  unfolding perform_transaction perform_after perform_done load record_event perform ◌>>=◌
  perform_again id t w stored p = ground arith

  -- Once `PerformTransaction` has succeeded, repeating it returns the same response at any later
  -- time, its only write is an audit entry marked as a repeat, and the register's account is as
  -- the first call left it.
  pub perform-perform_transaction :
      (id : Text) (r : PerformResult) (w : W)
      → (perform_transaction ports settings id w).0 ≡ ok r
      → let w' = (perform_transaction ports settings id w).1 in
        (t : Transaction) × (ports.by_payme_id id w' ≡ ok t)
        × (perform_transaction ports settings id w' ≡ (ok r, repeated t w'))
        × (ports.register (perform_transaction ports settings id w').1 ≡ ports.register w')
  perform-perform_transaction id r w e =
      let w' = (perform_transaction ports settings id w).1 in
      let (t, stored, p, answered, row) = (perform_Answers id w).at r e in
      let again = perform_again id t w' stored p in
      (
        t,
        stored,
        again ∙ ap (λ x. (ok x, repeated t w')) (sym answered),
        ap (λ x. ports.register x.1) again ∙ laws.event_register _ _ ∙ laws.now_register w',
      )
