-- ===== src/Subscribe/Receipt/Walk.antt =====
-- subscribe/domain/receipt.go: the background step, taken again and again.
use payme_mock.Base.{◌≡◌, ℕ, ◌-◌, ◌≤◌, Bool, true, false, List, [], ◌∷◌, arith, if◌then◌else◌}
use payme_mock.Base.Int.{ℤ}
use payme_mock.Base.Text.{length}
use payme_mock.Kernel.Effect.{ok}
use payme_mock.Subscribe.Card.{CardSystem}
use payme_mock.Subscribe.Receipt.{ReceiptState, Receipt, advance, begin_pay}
use payme_mock.Subscribe.Receipt.Laws.{is_walked}

-- The steps that `Advance` still has to make.
abbrev pub steps_left : ReceiptState → ℕ
steps_left ReceiptState.created = 4
steps_left ReceiptState.checking = 3
steps_left ReceiptState.withdrawn = 2
steps_left ReceiptState.closing = 1
steps_left ReceiptState.cancel_queued = 1
steps_left _ = 0

-- The background step at each of the times.
abbrev pub walk : List ℤ → Receipt → Receipt
walk [] r = r
walk (now ∷ times) r = walk times (advance now r).1

advance-steps_left :
    (now : ℤ) (r : Receipt)
    → is_walked r.state ≡ true
    → (steps_left (advance now r).1.state ≡ steps_left r.state - 1)
      × (is_walked (advance now r).1.state ≡ true)
unfolding advance
advance-steps_left now r v = (ground arith, ground arith)

advance_done :
    (now : ℤ) (r : Receipt)
    → is_walked r.state ≡ true
    → steps_left r.state ≡ 0
    → advance now r ≡ (false, r)
unfolding advance
advance_done now r v d = ground arith

walk-steps_left :
    (times : List ℤ) (r : Receipt)
    → is_walked r.state ≡ true
    → (steps_left (walk times r).state ≡ steps_left r.state - length times)
      × (is_walked (walk times r).state ≡ true)
walk-steps_left [] r v = (omega arith, v)
walk-steps_left (now ∷ times) r v =
    let (d, v') = advance-steps_left now r v in
    let (e, v'') = walk-steps_left times (advance now r).1 v' in (omega arith, v'')

-- The background step ends: from every state that the operations reach, as many steps as are left,
-- four at most, bring the receipt to a state in which a further step, at any time, reports that
-- nothing changed and changes nothing.
pub walk_ends :
    (times : List ℤ) (now : ℤ) (r : Receipt)
    → is_walked r.state ≡ true
    → steps_left r.state ≤ length times
    → advance now (walk times r) ≡ (false, walk times r)
walk_ends times now r v enough =
    let (d, v') = walk-steps_left times r v in advance_done now (walk times r) v' (omega arith)

-- A payment that was begun on a receipt is paid after three background steps, or held where a
-- hold was asked for; the steps keep the card, the amount and the time of payment.
pub walk-begin_pay :
    (card_id : ℤ) (card_system : CardSystem) (hold : Bool) (now t₁ t₂ t₃ : ℤ) (r : Receipt)
    → (begin_pay card_id card_system hold now r).0 ≡ ok tt
    → walk (t₁ ∷ t₂ ∷ t₃ ∷ []) (begin_pay card_id card_system hold now r).1
      ≡ record (begin_pay card_id card_system hold now r).1 {
        state = if hold then ReceiptState.held else ReceiptState.paid;
      }
unfolding begin_pay advance
walk-begin_pay card_id card_system hold now t₁ t₂ t₃ r e = ground arith
