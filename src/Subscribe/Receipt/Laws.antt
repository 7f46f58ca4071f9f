-- ===== src/Subscribe/Receipt/Laws.antt =====
-- subscribe/domain/receipt.go: the edges of the walk, and sequences of operations.
use payme_mock.Base.{◌≡◌, refl, ap, ◌∙◌, Bool, true, false, List, [], ◌∷◌, arith, ◌⊎◌, ◌≢◌}
use payme_mock.Base.Int.{ℤ}
use payme_mock.Subscribe.Card.{CardSystem}
use payme_mock.Subscribe.Receipt.{
  ReceiptState, Receipt, advance, begin_pay, complete, confirm_hold, cancel,
}

-- What can be asked of a receipt; the errors are dropped.
pub data Op : Type 0 where
  begin : ℤ → CardSystem → Bool → ℤ → Op
  step : ℤ → Op
  settle : ℤ → ℤ → Op
  confirm : ℤ → Op
  abort : ℤ → Op

abbrev pub after : Op → Receipt → Receipt
after (Op.begin card system hold now) r = (begin_pay card system hold now r).1
after (Op.step now) r = (advance now r).1
after (Op.settle amount now) r = (complete amount now r).1
after (Op.confirm now) r = (confirm_hold now r).1
after (Op.abort now) r = (cancel now r).1

abbrev pub run : List Op → Receipt → Receipt
run [] r = r
run (o ∷ os) r = run os (after o r)

-- Where an operation takes a receipt, and when it leaves it where it is.
pub data Edge (r : Receipt) : Op → ReceiptState → Type 0 where
  begin_check :
      {c : ℤ} {y : CardSystem} {h : Bool} {n : ℤ}
      → r.state ≡ ReceiptState.created
      → Edge r (Op.begin c y h n) ReceiptState.checking
  begin_refused :
      {c : ℤ} {y : CardSystem} {h : Bool} {n : ℤ}
      → r.state ≢ ReceiptState.created
      → Edge r (Op.begin c y h n) r.state
  step_check : {n : ℤ} → r.state ≡ ReceiptState.created → Edge r (Op.step n) ReceiptState.checking
  step_withdraw :
      {n : ℤ} → r.state ≡ ReceiptState.checking → Edge r (Op.step n) ReceiptState.withdrawn
  step_close : {n : ℤ} → r.state ≡ ReceiptState.withdrawn → Edge r (Op.step n) ReceiptState.closing
  step_pay :
      {n : ℤ}
      → r.state ≡ ReceiptState.closing
      → r.hold ≡ false
      → Edge r (Op.step n) ReceiptState.paid
  step_hold :
      {n : ℤ}
      → r.state ≡ ReceiptState.closing
      → r.hold ≡ true
      → Edge r (Op.step n) ReceiptState.held
  step_cancel :
      {n : ℤ} → r.state ≡ ReceiptState.cancel_queued → Edge r (Op.step n) ReceiptState.cancelled
  step_rest :
      {n : ℤ}
      → (r.state ≡ ReceiptState.paid)
        ⊎ (r.state ≡ ReceiptState.held)
        ⊎ (r.state ≡ ReceiptState.cancelled)
      → Edge r (Op.step n) r.state
  settle_pay :
      {a n : ℤ}
      → r.state ≡ ReceiptState.created
      → r.payout ≡ true
      → a ≡ r.amount
      → Edge r (Op.settle a n) ReceiptState.paid
  settle_refused :
      {a n : ℤ}
      → (r.state ≢ ReceiptState.created) ⊎ (r.payout ≡ false) ⊎ (a ≢ r.amount)
      → Edge r (Op.settle a n) r.state
  confirm_pay : {n : ℤ} → r.state ≡ ReceiptState.held → Edge r (Op.confirm n) ReceiptState.paid
  confirm_refused : {n : ℤ} → r.state ≢ ReceiptState.held → Edge r (Op.confirm n) r.state
  abort_drop : {n : ℤ} → r.state ≡ ReceiptState.created → Edge r (Op.abort n) ReceiptState.cancelled
  abort_queue :
      {n : ℤ}
      → r.state ≢ ReceiptState.created
      → r.state ≢ ReceiptState.cancelled
      → Edge r (Op.abort n) ReceiptState.cancel_queued
  abort_done : {n : ℤ} → r.state ≡ ReceiptState.cancelled → Edge r (Op.abort n) r.state

ruleset edges = (
  begin_check, begin_refused, step_check, step_withdraw, step_close, step_pay, step_hold,
  step_cancel, step_rest, settle_pay, settle_refused, confirm_pay, confirm_refused, abort_drop,
  abort_queue, abort_done,
)

-- The states that the operations reach.
abbrev pub is_walked : ReceiptState → Bool
is_walked ReceiptState.hold_accepted = false
is_walked ReceiptState.paused = false
is_walked ReceiptState.close_queued = false
is_walked (ReceiptState.undocumented n) = false
is_walked _ = true

-- In every state that a receipt can reach, an operation takes it exactly where the edges say, by its
-- own state, hold, kind and amount: a payment goes from created over checking, withdrawn and closing to
-- paid, or to held if it is on hold; a confirmed hold becomes paid; a payout that is settled for its own
-- amount jumps from created to paid; a cancellation jumps from created to cancelled and queues any other
-- receipt that is not cancelled; and everything else leaves the state alone.
pub after-Edge : (o : Op) (r : Receipt) → is_walked r.state ≡ true → Edge r o (after o r).state
unfolding begin_pay advance complete confirm_hold cancel
after-Edge (Op.begin card system hold now) r v = grind (arith, edges)
after-Edge (Op.step now) r v = grind (arith, edges)
after-Edge (Op.settle amount now) r v = grind (arith, edges)
after-Edge (Op.confirm now) r v = grind (arith, edges)
after-Edge (Op.abort now) r v = grind (arith, edges)

after_cancelled : (o : Op) (r : Receipt) → r.state ≡ ReceiptState.cancelled → after o r ≡ r
unfolding begin_pay advance complete confirm_hold cancel
after_cancelled (Op.begin card system hold now) r c = ground arith
after_cancelled (Op.step now) r c = ground arith
after_cancelled (Op.settle amount now) r c = ground arith
after_cancelled (Op.confirm now) r c = ground arith
after_cancelled (Op.abort now) r c = ground arith

-- A cancelled receipt stays as it is under all operations, in any order and at any times.
pub run_cancelled : (os : List Op) (r : Receipt) → r.state ≡ ReceiptState.cancelled → run os r ≡ r
run_cancelled [] r c = refl
run_cancelled (o ∷ os) r c = ap (run os) (after_cancelled o r c) ∙ run_cancelled os r c
