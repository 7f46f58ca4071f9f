-- ===== src/Merchant/Transaction/Laws.antt =====
-- merchant/domain/transaction.go: sequences of calls of the aggregate.
use payme_mock.Base.{
  ◌≡◌, refl, ap, ◌∙◌, Bool, true, false, Option, none, some, List, [], ◌∷◌, ◌⊎◌, ◌≢◌, arith,
}
use payme_mock.Base.Int.{ℤ, pos, ◌≤ℤ◌, ◌-ℤ◌}
use payme_mock.Base.Int64.{sub64, IsInt64}
use payme_mock.Base.Text.{Text}
use payme_mock.Base.Dict.{Dict}
use payme_mock.Kernel.Errors.{err_cannot_perform}
use payme_mock.Kernel.Effect.{ok, fail}
use payme_mock.Merchant.Transaction.{
  State, state_valid, is_final, Transaction, Reason, new_transaction, perform, cancel,
}

-- A call of the aggregate: `Perform(now, timeout)` or `Cancel(reason, now)`.
pub data Op : Type 0 where
  perform_at : ℤ → ℤ → Op
  cancel_at : Reason → ℤ → Op

-- The aggregate after a call; the error that the call may return is dropped.
abbrev pub after : Op → Transaction → Transaction
after (Op.perform_at now timeout) t = (perform now timeout t).1
after (Op.cancel_at reason now) t = (cancel reason now t).1

abbrev pub run : List Op → Transaction → Transaction
run [] t = t
run (o ∷ os) t = run os (after o t)

-- The edges of the protocol's diagram.
pub data Step : State → State → Type 0 where
  stay : {s : State} → Step s s
  confirm : Step State.created State.performed
  abandon : Step State.created State.cancelled
  refund : Step State.performed State.cancelled_after_do

abbrev has_reason : Option Reason → Bool
has_reason none = false
has_reason (some r) = true

pub record IsConsistent (t : Transaction) : Type 0 where
  pub documented : state_valid t.state ≡ true
  pub reasoned : is_final t.state ≡ has_reason t.reason
  pub unperformed : (t.state ≡ State.created) ⊎ (t.state ≡ State.cancelled) → t.perform_time ≡ pos 0
  pub uncancelled : is_final t.state ≡ false → t.cancel_time ≡ pos 0

-- Every call follows an edge of the protocol's diagram: created goes to performed or cancelled,
-- performed to cancelled after the fact, and nothing else moves.
pub after-Step :
    (o : Op) (t : Transaction) → state_valid t.state ≡ true → Step t.state (after o t).state
unfolding perform cancel state_valid
after-Step (Op.perform_at now timeout) t v = grind (arith, stay, confirm, abandon, refund)
after-Step (Op.cancel_at reason now) t v = grind (arith, stay, confirm, abandon, refund)

after-IsConsistent : (o : Op) (t : Transaction) → IsConsistent t → IsConsistent (after o t)
unfolding perform cancel state_valid is_final
after-IsConsistent (Op.perform_at now timeout) t v = ground arith
after-IsConsistent (Op.cancel_at reason now) t v = ground arith

run_keeps : (os : List Op) (t : Transaction) → IsConsistent t → IsConsistent (run os t)
run_keeps [] t v = v
run_keeps (o ∷ os) t v = run_keeps os (after o t) (after-IsConsistent o t v)

-- After any calls at any times, a transaction that was new is in a documented state, has a
-- cancellation reason exactly when it is in a final state, has no perform time while it was never
-- performed, and no cancel time while it is not final.
pub run-IsConsistent :
    (os : List Op) (sandbox_id : ℤ) (payme_id : Text) (order_id account_id : ℤ)
    (account : Dict Text Text) (amount payme_time now : ℤ)
    → IsConsistent (
        run os
          (new_transaction sandbox_id payme_id order_id account_id account amount payme_time now))
unfolding new_transaction state_valid is_final
run-IsConsistent os sandbox_id payme_id order_id account_id account amount payme_time now =
    run_keeps os _ (ground arith)

after_final : (o : Op) (t : Transaction) → is_final t.state ≡ true → after o t ≡ t
unfolding perform cancel is_final
after_final (Op.perform_at now timeout) t f = ground arith
after_final (Op.cancel_at reason now) t f = ground arith

-- A cancelled transaction is final: no calls, in any order and at any times, change any of it.
pub run_final : (os : List Op) (t : Transaction) → is_final t.state ≡ true → run os t ≡ t
run_final [] t f = refl
run_final (o ∷ os) t f = ap (run os) (after_final o t f) ∙ run_final os t f

-- A confirmation that succeeded can be repeated at any later time, under any timeout: the repeat
-- succeeds and leaves the transaction, its perform time included, as the first one left it.
pub perform-perform :
    (now timeout now' timeout' : ℤ) (t : Transaction)
    → (perform now timeout t).0 ≡ ok tt
    → perform now' timeout' (perform now timeout t).1 ≡ (ok tt, (perform now timeout t).1)
unfolding perform
perform-perform now timeout now' timeout' t e = ground arith

-- A cancellation that succeeded can be repeated with any reason at any time, and changes nothing.
pub cancel-cancel :
    (r r' : Reason) (now now' : ℤ) (t : Transaction)
    → (cancel r now t).0 ≡ ok tt
    → cancel r' now' (cancel r now t).1 ≡ (ok tt, (cancel r now t).1)
unfolding cancel
cancel-cancel r r' now now' t e = ground arith

-- The whole answer of a confirmation, for clock readings that an int64 holds and that do not lie
-- before the epoch, with the window in mathematical integers. A created transaction is performed
-- while at most the timeout has passed since it was created, and otherwise refused with -31008 and
-- cancelled with reason 4; a performed one is confirmed again, unchanged, however late; any other one
-- is refused with -31008 and left alone.
pub perform_window :
    (now timeout : ℤ) (t : Transaction)
    → IsInt64 now
    → pos 0 ≤ℤ now
    → IsInt64 t.create_time
    → pos 0 ≤ℤ t.create_time
    → ((t.state ≡ State.created)
        × ((now -ℤ t.create_time) ≤ℤ timeout)
        × (perform now timeout t
            ≡ (ok tt, record t { state = State.performed; perform_time = now })))
      ⊎ ((t.state ≡ State.created)
          × (¬ ((now -ℤ t.create_time) ≤ℤ timeout))
          × (perform now timeout t ≡ (
            fail err_cannot_perform,
            record t { state = State.cancelled; reason = some (pos 4); cancel_time = now },
          )))
      ⊎ ((t.state ≡ State.performed) × (perform now timeout t ≡ (ok tt, t)))
      ⊎ ((t.state ≢ State.created)
          × (t.state ≢ State.performed)
          × (perform now timeout t ≡ (fail err_cannot_perform, t)))
unfolding perform sub64 ◌-ℤ◌
perform_window now timeout t n n' c c' = ground arith
