-- ===== src/Merchant/Cancel/Refund.antt =====
-- merchant/application/service.go: `CancelTransaction` after `PerformTransaction`, and the
-- account of the register.
use payme_mock.Base.{◌≡◌, sym, ap, subst, ◌∙◌, true, false, arith, Bool, not}
use payme_mock.Base.Int.{ℤ, pos}
use payme_mock.Base.Int64.{IsInt64}
use payme_mock.Base.Text.{Text}
use payme_mock.Kernel.Effect.{Result, ok, err, when}
use payme_mock.Kernel.Effect.Ensures.{Ensures, Ensures-bind, Ensures-raise, ok_injective}
use payme_mock.Billing.Order.{Account, mark_cancelled}
use payme_mock.Billing.Cashbox.{apply, reverse}
use payme_mock.Billing.Cashbox.Laws.{reverse-apply}
use payme_mock.Merchant.Transaction.{State, Transaction, Reason, cancel, is_final}
use payme_mock.Merchant.Ports.{Ports, Settings, PerformResult, CancelResult}
use payme_mock.Merchant.Laws.{Lawful}
use payme_mock.Merchant.Laws.Frame.{change_order_register}
use payme_mock.Merchant.Laws.Money.{kind, unsettle_moves, recorded_register}
use payme_mock.Merchant.Register.{unsettle, release_order}
use payme_mock.Merchant.Service.{is_performed, load}
use payme_mock.Merchant.Perform.{perform_transaction}
use payme_mock.Merchant.Perform.Money.{perform_Moved}
use payme_mock.Merchant.Perform.Repeat.{perform_Answers, load_stored}
use payme_mock.Merchant.Cancel.{cancel_transaction, cancel_after, cancel_done, cancel_writes}

module _ {W : Type 0} (ports : Ports W) (settings : Settings) (laws : Lawful ports) where
  abbrev Reversed : ℤ → Account → Result Account → Type 0
  Reversed amount b x = x ≡ ok (reverse (kind ports settings laws) amount b)

  cancel_writes-Reversed :
      (before tx : Transaction) (b : Account) (w : W)
      → is_performed before.state ≡ true
      → ports.register w ≡ ok b
      → Ensures
          (λ _ w'. Reversed tx.amount b (ports.register w'))
          (cancel_writes ports settings before tx)
          w
  unfolding cancel_writes release_order
  cancel_writes-Reversed before tx b w p stored = Ensures-bind _ _ w λ u unsettled.
      Ensures-bind _ _ _ λ _ _. record {
        at = λ _ _.
            change_order_register ports settings laws tx.order_id mark_cancelled _
            ∙ laws.update_register tx _
            ∙ reversed (is_performed before.state) p u unsettled;
      }
    where
      reversed :
          (c : Bool)
          → c ≡ true
          → (u : Unit) → (when c (unsettle ports settings tx.amount) w).0 ≡ ok u
          → Reversed tx.amount b (ports.register (when c (unsettle ports settings tx.amount) w).1)
      reversed true c u e = (unsettle_moves ports settings laws tx.amount b w stored).at u e
      reversed false c u e = cc

  cancel_done-Reversed :
      (before tx : Transaction) (b : Account) (w : W)
      → before.state ≡ State.performed
      → ports.register w ≡ ok b
      → Ensures
          (λ _ w'. Reversed tx.amount b (ports.register w'))
          (cancel_done ports settings before tx)
          w
  unfolding cancel_done is_final
  cancel_done-Reversed before tx b w p stored = Ensures-bind _ _ w λ u written.
      recorded_register ports settings laws (Reversed tx.amount b) _ _ _ _ _ (pos 0) _ _
        (reversed (is_final before.state) (ap is_final p) u written)
    where
      reversed :
          (f : Bool)
          → f ≡ false
          → (u : Unit) → (when (not f) (cancel_writes ports settings before tx) w).0 ≡ ok u
          → Reversed tx.amount b
              (ports.register (when (not f) (cancel_writes ports settings before tx) w).1)
      reversed true f u e = cc
      reversed false f u e =
          (cancel_writes-Reversed before tx b w (ap is_performed p) stored).at u e

  cancel_keeps_amount :
      (reason : Reason) (now : ℤ) (t : Transaction) → (cancel reason now t).1.amount ≡ t.amount
  unfolding cancel
  cancel_keeps_amount reason now t = ground arith

  cancel_after-Reversed :
      (before : Transaction) (x : Result (Unit {0}) × Transaction) (b : Account) (w : W)
      → before.state ≡ State.performed
      → ports.register w ≡ ok b
      → Ensures
          (λ _ w'. Reversed x.1.amount b (ports.register w'))
          (cancel_after ports settings before x)
          w
  unfolding cancel_after
  cancel_after-Reversed before (ok done, tx) b w p stored =
      cancel_done-Reversed before tx b w p stored
  cancel_after-Reversed before (err e, tx) b w p stored = Ensures-raise e w

  -- A cancellation of a performed transaction reverses the payment on the register's account.
  cancel_Reversed :
      (id : Text) (reason : Reason) (t : Transaction) (b : Account) (w : W)
      → ports.by_payme_id id w ≡ ok t
      → t.state ≡ State.performed
      → ports.register w ≡ ok b
      → Ensures
          (λ _ w'. Reversed t.amount b (ports.register w'))
          (cancel_transaction ports settings id reason)
          w
  unfolding cancel_transaction load
  cancel_Reversed id reason t b w found p stored = Ensures-bind _ _ w λ s loaded.
      Ensures-bind _ _ w λ now _.
        subst
          (λ n.
            Ensures (λ _ w'. Reversed n b (ports.register w'))
              (cancel_after ports settings s (cancel reason now s)) (ports.now w).1)
          (cancel_keeps_amount reason now s ∙ ap (λ (x : Transaction). x.amount) (same s loaded))
          (cancel_after-Reversed s _ b _ (ap (λ (x : Transaction). x.state) (same s loaded) ∙ p)
            (laws.now_register w ∙ stored))
    where
      same : (s : Transaction) → (load ports settings id w).0 ≡ ok s → s ≡ t
      same s loaded = ok_injective (sym (load_stored ports settings id s w loaded) ∙ found)

  -- Where a created transaction is performed and the performed one is cancelled, both with
  -- success, the register's stored account is in the end exactly what it was before: on every
  -- kind of register, for every amount, at any times and for any reason.
  pub cancel-perform :
      (id : Text) (reason : Reason) (t : Transaction) (a : Account) (r : PerformResult)
      (c : CancelResult) (w : W)
      → ports.by_payme_id id w ≡ ok t
      → t.state ≡ State.created
      → ports.register w ≡ ok a
      → IsInt64 a.balance
      → (perform_transaction ports settings id w).0 ≡ ok r
      → (cancel_transaction ports settings id reason (perform_transaction ports settings id w).1).0
        ≡ ok c
      → ports.register
          (cancel_transaction ports settings id reason
            (perform_transaction ports settings id w).1).1
        ≡ ok a
  cancel-perform id reason t a r c w found created stored range e f =
      let (s, found', p, _, row) = (perform_Answers ports settings laws id w).at r e in
      let (applied, moved) =
        (perform_Moved ports settings laws id t a w found (ap is_performed created) stored).at r
          e in
      (cancel_Reversed id reason s _ _ found' p moved).at c f
      ∙ ap ok (
          ap
            (λ n.
              reverse (kind ports settings laws) n (apply (kind ports settings laws) t.amount a).1)
            (ap (λ (x : Transaction). x.amount) (row t found))
          ∙ reverse-apply (kind ports settings laws) t.amount a range applied)
