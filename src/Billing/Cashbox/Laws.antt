-- ===== src/Billing/Cashbox/Laws.antt =====
-- billing/domain/cashbox.go: the account before and after a payment and its reversal.
use payme_mock.Base.{◌≡◌, true, false, arith, ◌⊎◌}
use payme_mock.Base.Int.{ℤ, pos, ◌≤ℤ◌, ◌-ℤ◌}
use payme_mock.Base.Int64.{IsInt64, sub64, add64-sub64, sub64-add64}
use payme_mock.Kernel.Effect.{Error, ok, err, fail}
use payme_mock.Billing.Order.{Account}
use payme_mock.Billing.Cashbox.{Kind, kind_valid, inbound, apply, reverse, err_insufficient_funds}

-- Reversing an applied payment gives the account back exactly as it was, on every kind of
-- register, also where the balance has wrapped round in between.
pub reverse-apply :
    (k : Kind) (amount : ℤ) (a : Account)
    → IsInt64 a.balance
    → (apply k amount a).0 ≡ ok tt
    → reverse k amount (apply k amount a).1 ≡ a
unfolding apply reverse
reverse-apply k amount a h e =
    ground (arith, add64-sub64 amount a.balance h, sub64-add64 amount a.balance h)

-- A payment that is not applied leaves the account as it was.
pub apply_refused :
    (k : Kind) (amount : ℤ) (a : Account) {x : Error}
    → (apply k amount a).0 ≡ err x
    → (apply k amount a).1 ≡ a
unfolding apply
apply_refused k amount a e = ground arith

-- A register that pays out, and is asked for a non-negative amount, never goes below zero: where
-- it holds enough the balance falls by exactly the amount, and otherwise the payout is refused
-- with the code -31008 and nothing moves.
pub apply_payout :
    (k : Kind) (amount : ℤ) (a : Account)
    → kind_valid k ≡ true
    → inbound k ≡ false
    → a.blocked ≡ false
    → IsInt64 a.balance
    → pos 0 ≤ℤ a.balance
    → pos 0 ≤ℤ amount
    → ((amount ≤ℤ a.balance)
        × (apply k amount a ≡ (ok tt, record a { balance = a.balance -ℤ amount }))
        × (pos 0 ≤ℤ (a.balance -ℤ amount)))
      ⊎ (¬ (amount ≤ℤ a.balance) × (apply k amount a ≡ (fail err_insufficient_funds, a)))
unfolding apply sub64 ◌-ℤ◌
apply_payout k amount a v i b h n m = ground arith
