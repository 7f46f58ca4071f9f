-- ===== src/Merchant/Perform/Money.antt =====
-- merchant/application/service.go: `PerformTransaction` and the account of the register.
use payme_mock.Base.{◌≡◌, refl, sym, subst, ◌∙◌, true, false, Bool, not}
use payme_mock.Base.Int.{ℤ, pos}
use payme_mock.Base.Text.{Text}
use payme_mock.Kernel.Effect.{Result, ok, err, when, ◌>>=◌}
use payme_mock.Kernel.Effect.Ensures.{Ensures, Ensures-bind, ok_injective}
use payme_mock.Billing.Order.{Account, mark_paid}
use payme_mock.Billing.Cashbox.{apply}
use payme_mock.Merchant.Transaction.{Transaction, perform}
use payme_mock.Merchant.Ports.{Ports, Settings, PerformResult}
use payme_mock.Merchant.Laws.{Lawful}
use payme_mock.Merchant.Laws.Frame.{change_order_register}
use payme_mock.Merchant.Laws.Money.{kind, settle_moves, recorded_register}
use payme_mock.Merchant.Register.{settle, mark_order_paid}
use payme_mock.Merchant.Service.{is_performed, load}
use payme_mock.Merchant.Perform.{
  perform_transaction, perform_after, perform_done, perform_writes, settle_result, settle_or_record,
}
use payme_mock.Merchant.Perform.Repeat.{load_stored, failed_Ensures}

module _ {W : Type 0} (ports : Ports W) (settings : Settings) (laws : Lawful ports) where
  -- The register holds `a` as the payment moved it, and the payment could be applied.
  abbrev pub Moved : ℤ → Account → Result Account → Type 0
  Moved amount a x =
      ((apply (kind ports settings laws) amount a).0 ≡ ok tt)
      × (x ≡ ok (apply (kind ports settings laws) amount a).1)

  result_Moved :
      (before : Transaction) (x : Result (Unit {0})) (Q : W → Type 0) (w : W)
      → ((r : Unit) → x ≡ ok r → Q w)
      → (r : Unit) → (settle_result ports settings before x w).0 ≡ ok r
      → Q (settle_result ports settings before x w).1
  unfolding settle_result ◌>>=◌
  result_Moved before (ok tt) Q w k r e = k tt refl
  result_Moved before (err x) Q w k r e = cc

  settle_or_record-Moved :
      (before : Transaction) (a : Account) (w : W)
      → ports.register w ≡ ok a
      → Ensures
          (λ _ w'. Moved before.amount a (ports.register w'))
          (settle_or_record ports settings before)
          w
  unfolding settle_or_record
  settle_or_record-Moved before a w stored = record {
    at =
        result_Moved before (settle ports settings before.amount w).0
          (λ w'. Moved before.amount a (ports.register w')) _
          (settle_moves ports settings laws before.amount a w stored).at;
  }

  perform_writes-Moved :
      (before tx : Transaction) (a : Account) (w : W)
      → ports.register w ≡ ok a
      → Ensures
          (λ _ w'. Moved before.amount a (ports.register w'))
          (perform_writes ports settings before tx)
          w
  unfolding perform_writes mark_order_paid
  perform_writes-Moved before tx a w stored = Ensures-bind _ _ w λ u settled.
      Ensures-bind _ _ _ λ _ _. record {
        at = λ _ _.
            subst (Moved before.amount a)
              (sym (
                change_order_register ports settings laws tx.order_id mark_paid _
                ∙ laws.update_register tx _))
              ((settle_or_record-Moved before a w stored).at u settled);
      }

  perform_done-Moved :
      (before tx : Transaction) (a : Account) (w : W)
      → is_performed before.state ≡ false
      → ports.register w ≡ ok a
      → Ensures
          (λ _ w'. Moved before.amount a (ports.register w'))
          (perform_done ports settings before tx)
          w
  unfolding perform_done
  perform_done-Moved before tx a w new stored = Ensures-bind _ _ w λ u written.
      recorded_register ports settings laws (Moved before.amount a) _ _ _ _ _ (pos 0) _ _
        (moved (is_performed before.state) new u written)
    where
      moved :
          (b : Bool)
          → b ≡ false
          → (u : Unit) → (when (not b) (perform_writes ports settings before tx) w).0 ≡ ok u
          → Moved before.amount a
              (ports.register (when (not b) (perform_writes ports settings before tx) w).1)
      moved true b u e = cc
      moved false b u e = (perform_writes-Moved before tx a w stored).at u e

  perform_after-Moved :
      (before : Transaction) (x : Result (Unit {0}) × Transaction) (a : Account) (w : W)
      → is_performed before.state ≡ false
      → ports.register w ≡ ok a
      → Ensures
          (λ _ w'. Moved before.amount a (ports.register w'))
          (perform_after ports settings before x)
          w
  unfolding perform_after
  perform_after-Moved before (ok done, tx) a w new stored =
      perform_done-Moved before tx a w new stored
  perform_after-Moved before (err e, tx) a w new stored =
      failed_Ensures ports settings laws _ before tx e w

  -- A confirmation of a transaction that was not performed moves the register's account.
  pub perform_Moved :
      (id : Text) (t : Transaction) (a : Account) (w : W)
      → ports.by_payme_id id w ≡ ok t
      → is_performed t.state ≡ false
      → ports.register w ≡ ok a
      → Ensures
          (λ _ w'. Moved t.amount a (ports.register w'))
          (perform_transaction ports settings id)
          w
  unfolding perform_transaction load
  perform_Moved id t a w found new stored = Ensures-bind _ _ w λ s loaded.
      Ensures-bind _ _ w λ now _.
        subst
          (λ x.
            Ensures (λ _ w'. Moved x.amount a (ports.register w'))
              (perform_after ports settings s (perform now settings.transaction_timeout_millis s))
              (ports.now w).1)
          (same s loaded)
          (perform_after-Moved s _ a _
            (subst (λ x. is_performed x.state ≡ false) (sym (same s loaded)) new)
            (laws.now_register w ∙ stored))
    where
      same : (s : Transaction) → (load ports settings id w).0 ≡ ok s → s ≡ t
      same s loaded = ok_injective (sym (load_stored ports settings id s w loaded) ∙ found)

  -- Where a transaction that was not performed yet is performed with success, the register's
  -- stored account has moved by exactly the transaction's amount, once, in the direction of the
  -- register's kind, and the register could bear it.
  pub apply-perform_transaction :
      (id : Text) (t : Transaction) (a : Account) (r : PerformResult) (w : W)
      → ports.by_payme_id id w ≡ ok t
      → is_performed t.state ≡ false
      → ports.register w ≡ ok a
      → (perform_transaction ports settings id w).0 ≡ ok r
      → ((apply (kind ports settings laws) t.amount a).0 ≡ ok tt)
        × (ports.register (perform_transaction ports settings id w).1
            ≡ ok (apply (kind ports settings laws) t.amount a).1)
  apply-perform_transaction id t a r w found new stored e =
      (perform_Moved id t a w found new stored).at r e
