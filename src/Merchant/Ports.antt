-- ===== src/Merchant/Ports.antt =====
-- merchant/domain/ports.go and the ports of billing/domain/billing.go: what the use cases ask of
-- the database, the clock and the Go library; and the settings and results of the use cases.
use payme_mock.Base.{Bool, Option, List}
use payme_mock.Base.Int.{ℤ}
use payme_mock.Base.Text.{Text}
use payme_mock.Base.Dict.{Dict}
use payme_mock.Kernel.Errors.{Code}
use payme_mock.Kernel.Effect.{Result, Action}
use payme_mock.Billing.Order.{Account, Order}
use payme_mock.Merchant.Transaction.{State, Reason, Transaction, Receiver}

-- One entry of the audit trail.
pub record Event : Type 0 where
  pub transaction_id : ℤ
  pub method : Text
  pub from_state : Option State
  pub to_state : Option State
  pub idempotent_hit : Bool
  pub error_code : Option Code

-- `W` is the world behind the ports. A port that only loads leaves it alone; one that writes, and
-- the clock, may change it. `create` returns the identifier that Go's `Create` writes into its
-- argument. `parse_int` and `format_int` are strconv's, to base 10 and 64 bits.
pub record Ports (W : Type 0) : Type 0 where
  pub by_payme_id : Text → W → Result Transaction
  pub create : Transaction → Action W ℤ
  pub update : Transaction → Action W (Unit {0})
  pub statement : ℤ → ℤ → W → Result (List Transaction)
  pub active_by_order : ℤ → W → Result Transaction
  pub record_event : Event → Action W (Unit {0})
  pub account_by_field : Text → Text → W → Result Account
  pub register : W → Result Account
  pub update_balance : ℤ → ℤ → Action W (Unit {0})
  pub order_by_id : ℤ → W → Result Order
  pub orders_by_account : ℤ → W → Result (List Order)
  pub update_order : Order → Action W (Unit {0})
  pub walk_in : Text → ℤ → Action W Order
  pub now : W → ℤ × W
  pub parse_int : Text → Option ℤ
  pub format_int : ℤ → Text

pub record Settings : Type 0 where
  pub transaction_timeout_millis : ℤ
  pub account_field : Text
  pub register_kind : Text
  pub auto_register_accounts : Bool

pub record CreateParams : Type 0 where
  pub id : Text
  pub time : ℤ
  pub amount : ℤ
  pub account : Dict Text Text

pub record CreateResult : Type 0 where
  pub create_time : ℤ
  pub transaction : Text
  pub state : State
  pub receivers : List Receiver

pub record PerformResult : Type 0 where
  pub transaction : Text
  pub perform_time : ℤ
  pub state : State

pub record CancelResult : Type 0 where
  pub transaction : Text
  pub cancel_time : ℤ
  pub state : State

pub record CheckResult : Type 0 where
  pub create_time : ℤ
  pub perform_time : ℤ
  pub cancel_time : ℤ
  pub transaction : Text
  pub state : State
  pub reason : Option Reason

pub record StatementEntry : Type 0 where
  pub id : Text
  pub time : ℤ
  pub amount : ℤ
  pub account : Dict Text Text
  pub create_time : ℤ
  pub perform_time : ℤ
  pub cancel_time : ℤ
  pub transaction : Text
  pub state : State
  pub reason : Option Reason
  pub receivers : List Receiver
