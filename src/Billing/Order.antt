-- ===== src/Billing/Order.antt =====
-- billing/domain/billing.go: payers and orders.
use payme_mock.Base.{Bool, true, false, not, if◌then◌else◌}
use payme_mock.Base.Int.{ℤ, eq_ℤ}
use payme_mock.Base.Text.{Text}
use payme_mock.Kernel.Errors.{err_invalid_amount}
use payme_mock.Kernel.Effect.{Result, ok, fail}

-- The type is a string; `other` is any text but the four.
pub data OrderStatus : Type 0 where
  fresh processing paid cancelled : OrderStatus
  other : Text → OrderStatus

-- All integers are int64.
pub record Account : Type 0 where
  pub id : ℤ
  pub sandbox_id : ℤ
  pub phone : Text
  pub login : Text
  pub name : Text
  pub balance : ℤ
  pub blocked : Bool

pub record Order : Type 0 where
  pub id : ℤ
  pub sandbox_id : ℤ
  pub account_id : ℤ
  pub amount : ℤ
  pub status : OrderStatus
  pub description : Text

unfoldable pub check_amount : Order → ℤ → Result (Unit {0})
check_amount o amount = if not (eq_ℤ amount o.amount) then fail err_invalid_amount else ok tt

abbrev is_payable : OrderStatus → Bool
is_payable OrderStatus.fresh = true
is_payable OrderStatus.processing = true
is_payable OrderStatus.paid = false
is_payable OrderStatus.cancelled = false
is_payable (OrderStatus.other s) = false

unfoldable pub payable : Order → Bool
payable o = is_payable o.status

unfoldable pub mark_paid : Order → Order
mark_paid o = record o { status = OrderStatus.paid }

unfoldable pub mark_processing : Order → Order
mark_processing o = record o { status = OrderStatus.processing }

unfoldable pub mark_cancelled : Order → Order
mark_cancelled o = record o { status = OrderStatus.cancelled }
