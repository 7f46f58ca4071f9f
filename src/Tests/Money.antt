-- ===== src/Tests/Money.antt =====
-- The transaction, the register and the card, alone, at concrete amounts and times.
use payme_mock.Base.{◌≡◌, refl, false, arith, ◌⊎◌, ◌≢◌, some, [], ◌∷◌}
use payme_mock.Base.Int.{pos, ◌≤ℤ◌, ◌-ℤ◌}
use payme_mock.Base.Text.{text}
use payme_mock.Kernel.Errors.{err_cannot_perform}
use payme_mock.Kernel.Effect.{ok, fail}
use payme_mock.Billing.Order.{Account}
use payme_mock.Billing.Cashbox.{Kind, kind_valid, inbound, apply, reverse, err_insufficient_funds}
use payme_mock.Billing.Cashbox.Laws.{reverse-apply, apply_payout}
use payme_mock.Merchant.Transaction.{
  State, Transaction, perform, is_final, state_valid, new_transaction,
}
use payme_mock.Merchant.Transaction.Laws.{
  Op, run, after, Step, IsConsistent, after-Step, run-IsConsistent, run_final, perform_window,
}
use payme_mock.Tests.Merchant.{stored_tx}

abbrev till : Account
till = record {
  id = pos 9;
  sandbox_id = pos 1;
  phone = [];
  login = [];
  name = [];
  balance = pos 1000;
  blocked = false;
}

reverse-apply_example :
    reverse Kind.dividend (pos 700) (apply Kind.dividend (pos 700) till).1 ≡ till
unfolding apply
reverse-apply_example = reverse-apply Kind.dividend (pos 700) till (omega arith, omega arith) refl

apply_payout_example :
    ((pos 1500 ≤ℤ till.balance)
      × (apply Kind.dividend (pos 1500) till
          ≡ (ok tt, record till { balance = till.balance -ℤ pos 1500 }))
      × (pos 0 ≤ℤ (till.balance -ℤ pos 1500)))
    ⊎ (¬ (pos 1500 ≤ℤ till.balance)
        × (apply Kind.dividend (pos 1500) till ≡ (fail err_insufficient_funds, till)))
unfolding kind_valid inbound
apply_payout_example =
    apply_payout Kind.dividend (pos 1500) till refl refl refl (omega arith, omega arith)
      (omega arith) (omega arith)

after-Step_example : Step State.created (after (Op.perform_at (pos 200) (pos 1000)) stored_tx).state
unfolding state_valid
after-Step_example = after-Step (Op.perform_at (pos 200) (pos 1000)) stored_tx refl

run-IsConsistent_example : IsConsistent (
    run
      (Op.perform_at (pos 200) (pos 1000) ∷ Op.cancel_at (pos 5) (pos 300) ∷ [])
      (new_transaction (pos 1) (text "p1") (pos 3) (pos 5) [] (pos 700) (pos 90) (pos 100)))
run-IsConsistent_example =
    run-IsConsistent (Op.perform_at (pos 200) (pos 1000) ∷ Op.cancel_at (pos 5) (pos 300) ∷ [])
      (pos 1) (text "p1") (pos 3) (pos 5) [] (pos 700) (pos 90) (pos 100)

abbrev cancelled_tx : Transaction
cancelled_tx = record stored_tx {
  state = State.cancelled;
  reason = some (pos 5);
  cancel_time = pos 150;
}

run_final_example : run (Op.perform_at (pos 200) (pos 1000) ∷ []) cancelled_tx ≡ cancelled_tx
unfolding is_final
run_final_example = run_final (Op.perform_at (pos 200) (pos 1000) ∷ []) cancelled_tx refl

perform_window_example :
    ((stored_tx.state ≡ State.created)
      × ((pos 5000 -ℤ pos 100) ≤ℤ pos 1000)
      × (perform (pos 5000) (pos 1000) stored_tx
          ≡ (ok tt, record stored_tx { state = State.performed; perform_time = pos 5000 })))
    ⊎ ((stored_tx.state ≡ State.created)
        × (¬ ((pos 5000 -ℤ pos 100) ≤ℤ pos 1000))
        × (perform (pos 5000) (pos 1000) stored_tx ≡ (
          fail err_cannot_perform,
          record stored_tx {
            state = State.cancelled;
            reason = some (pos 4);
            cancel_time = pos 5000;
          },
        )))
    ⊎ ((stored_tx.state ≡ State.performed)
        × (perform (pos 5000) (pos 1000) stored_tx ≡ (ok tt, stored_tx)))
    ⊎ ((stored_tx.state ≢ State.created)
        × (stored_tx.state ≢ State.performed)
        × (perform (pos 5000) (pos 1000) stored_tx ≡ (fail err_cannot_perform, stored_tx)))
perform_window_example =
    perform_window (pos 5000) (pos 1000) stored_tx (omega arith, omega arith) (omega arith)
      (omega arith, omega arith) (omega arith)
