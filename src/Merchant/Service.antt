-- ===== src/Merchant/Service.antt =====
-- merchant/application/service.go: what the methods of the Merchant API share, and the methods
-- that only read.
use payme_mock.Base.{Bool, true, false, Option, none, some, List, map, if◌then◌else◌}
use payme_mock.Base.Int.{ℤ, pos, minus, eq_ℤ}
use payme_mock.Base.Text.{Text, text}
use payme_mock.Base.Dict.{Dict}
use payme_mock.Kernel.Errors.{Code, err_transaction_not_found}
use payme_mock.Kernel.Effect.{
  Result, ok, err, fail, Action, pure, read, lift, ignore, is_not_found, ◌>>=◌, ◌>>◌,
}
use payme_mock.Billing.Order.{check_amount}
use payme_mock.Merchant.Transaction.{State, Transaction}
use payme_mock.Merchant.Ports.{Ports, Settings, Event, CreateResult, CheckResult, StatementEntry}
use payme_mock.Merchant.Orders.{resolve_order}
use payme_mock.Merchant.Register.{register_usable}

-- `before == StateCreated` and the like, on the state type.
abbrev pub is_created : State → Bool
is_created State.created = true
is_created State.performed = false
is_created State.cancelled = false
is_created State.cancelled_after_do = false
is_created (State.undocumented n) = false

abbrev pub is_performed : State → Bool
is_performed State.performed = true
is_performed State.created = false
is_performed State.cancelled = false
is_performed State.cancelled_after_do = false
is_performed (State.undocumented n) = false

-- `a == b` on states, by the number of each.
abbrev pub state_number : State → ℤ
state_number State.created = pos 1
state_number State.performed = pos 2
state_number State.cancelled = minus 1
state_number State.cancelled_after_do = minus 2
state_number (State.undocumented n) = n

abbrev pub code_of : Code → Option Code
code_of c = if eq_ℤ c (pos 0) then none else some c

abbrev pub event : ℤ → Text → Option State → Option State → Bool → Code → Event
event id method from_state to_state replay code = record {
  transaction_id = id;
  method = method;
  from_state = from_state;
  to_state = to_state;
  idempotent_hit = replay;
  error_code = code_of code;
}

abbrev pub name_create : Text
name_create = text "CreateTransaction"

abbrev pub name_perform : Text
name_perform = text "PerformTransaction"

abbrev pub name_cancel : Text
name_cancel = text "CancelTransaction"

module _ {W : Type 0} (ports : Ports W) (settings : Settings) where
  -- `recordEvent`: a failure to record is dropped.
  unfoldable pub record_event :
      ℤ → Text → Option State → Option State → Bool → Code → Action W (Unit {0})
  record_event id method from_state to_state replay code =
      ignore (ports.record_event (event id method from_state to_state replay code))

  abbrev pub clock : Action W ℤ
  clock w = let (t, w') = ports.now w in (ok t, w')

  -- `transactionNumber`
  abbrev pub transaction_number : Transaction → Text
  transaction_number t = ports.format_int t.id

  abbrev pub create_result_of : Transaction → CreateResult
  create_result_of t = record {
    create_time = t.create_time;
    transaction = transaction_number t;
    state = t.state;
    receivers = t.receivers;
  }

  or_missing : Result Transaction → Result Transaction
  or_missing (ok t) = ok t
  or_missing (err e) = if is_not_found e then fail err_transaction_not_found else err e

  unfoldable pub load : Text → Action W Transaction
  unfolding or_missing
  load id = read (λ w. or_missing (ports.by_payme_id id w))

  -- `CheckPerformTransaction`; the result is `allow`.
  unfoldable pub check_perform_transaction : ℤ → Dict Text Text → Action W Bool
  check_perform_transaction amount account = do
    order ← resolve_order ports settings account amount
    lift (check_amount order amount)
    register_usable ports settings
    pure true

  -- `CheckTransaction`
  unfoldable pub check_transaction : Text → Action W CheckResult
  unfolding load
  check_transaction id = do
    tx ← load id
    pure (record {
      create_time = tx.create_time;
      perform_time = tx.perform_time;
      cancel_time = tx.cancel_time;
      transaction = transaction_number tx;
      state = tx.state;
      reason = tx.reason;
    })

  abbrev entry_of : Transaction → StatementEntry
  entry_of tx = record {
    id = tx.payme_id;
    time = tx.payme_time;
    amount = tx.amount;
    account = tx.account;
    create_time = tx.create_time;
    perform_time = tx.perform_time;
    cancel_time = tx.cancel_time;
    transaction = transaction_number tx;
    state = tx.state;
    reason = tx.reason;
    receivers = tx.receivers;
  }

  -- `GetStatement`
  unfoldable pub get_statement : ℤ → ℤ → Action W (List StatementEntry)
  get_statement from to = do found ← read (ports.statement from to); pure (map entry_of found)
