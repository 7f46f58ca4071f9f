-- ===== src/Merchant/Transaction.antt =====
-- merchant/domain/transaction.go: the transaction aggregate and its state machine.
pub mod Laws
use payme_mock.Base.{Bool, true, false, Option, none, some, List, [], if◌then◌else◌}
use payme_mock.Base.Int.{ℤ, pos, ltb_ℤ}
use payme_mock.Base.Int64.{sub64}
use payme_mock.Base.Text.{Text}
use payme_mock.Base.Dict.{Dict}
use payme_mock.Kernel.Errors.{err_cannot_perform}
use payme_mock.Kernel.Effect.{ok, fail, Action}

-- The type is an int; `undocumented` is any value but 1, 2, -1 and -2.
pub data State : Type 0 where
  created performed cancelled cancelled_after_do : State
  undocumented : ℤ → State

unfoldable pub state_valid : State → Bool
state_valid State.created = true
state_valid State.performed = true
state_valid State.cancelled = true
state_valid State.cancelled_after_do = true
state_valid (State.undocumented n) = false

unfoldable pub is_final : State → Bool
is_final State.cancelled = true
is_final State.cancelled_after_do = true
is_final State.created = false
is_final State.performed = false
is_final (State.undocumented n) = false

unfoldable pub is_active : State → Bool
is_active State.created = true
is_active State.performed = true
is_active State.cancelled = false
is_active State.cancelled_after_do = false
is_active (State.undocumented n) = false

-- An int that is carried through.
abbrev pub Reason : Type 0
Reason = ℤ

abbrev pub reason_timeout : Reason
reason_timeout = pos 4

pub record Receiver : Type 0 where
  pub id : Text
  pub amount : ℤ

pub record Transaction : Type 0 where
  pub id : ℤ
  pub sandbox_id : ℤ
  pub payme_id : Text
  pub order_id : ℤ
  pub account_id : ℤ
  pub account : Dict Text Text
  pub amount : ℤ
  pub state : State
  pub reason : Option Reason
  pub payme_time : ℤ
  pub create_time : ℤ
  pub perform_time : ℤ
  pub cancel_time : ℤ
  pub receivers : List Receiver

unfoldable pub new_transaction : ℤ → Text → ℤ → ℤ → Dict Text Text → ℤ → ℤ → ℤ → Transaction
new_transaction sandbox_id payme_id order_id account_id account amount payme_time now = record {
  id = pos 0;
  sandbox_id = sandbox_id;
  payme_id = payme_id;
  order_id = order_id;
  account_id = account_id;
  account = account;
  amount = amount;
  state = State.created;
  reason = none;
  payme_time = payme_time;
  create_time = now;
  perform_time = pos 0;
  cancel_time = pos 0;
  receivers = [];
}

abbrev expired_in : State → Transaction → ℤ → ℤ → Bool
expired_in State.created t now timeout = ltb_ℤ timeout (sub64 now t.create_time)
expired_in State.performed t now timeout = false
expired_in State.cancelled t now timeout = false
expired_in State.cancelled_after_do t now timeout = false
expired_in (State.undocumented n) t now timeout = false

unfoldable pub expired : Transaction → ℤ → ℤ → Bool
expired t now timeout = expired_in t.state t now timeout

abbrev cancelled_from : State → State
cancelled_from State.performed = State.cancelled_after_do
cancelled_from State.created = State.cancelled
cancelled_from State.cancelled = State.cancelled
cancelled_from State.cancelled_after_do = State.cancelled
cancelled_from (State.undocumented n) = State.cancelled

-- The unexported `cancel`, which does not check whether it is allowed.
unfoldable pub force_cancel : Reason → ℤ → Transaction → Transaction
force_cancel reason now t = record t {
  state = cancelled_from t.state;
  reason = some reason;
  cancel_time = now;
}

perform_in : State → ℤ → ℤ → Action Transaction (Unit {0})
unfolding expired force_cancel
perform_in State.performed now timeout t = (ok tt, t)
perform_in State.created now timeout t =
    if expired t now timeout
    then (fail err_cannot_perform, force_cancel reason_timeout now t)
    else (ok tt, record t { state = State.performed; perform_time = now })
perform_in State.cancelled now timeout t = (fail err_cannot_perform, t)
perform_in State.cancelled_after_do now timeout t = (fail err_cannot_perform, t)
perform_in (State.undocumented n) now timeout t = (fail err_cannot_perform, t)

-- `Transaction.Perform`: the aggregate comes back as the call left it, also with an error.
unfoldable pub perform : ℤ → ℤ → Action Transaction (Unit {0})
unfolding perform_in
perform now timeout t = perform_in t.state now timeout t

cancel_in : State → Reason → ℤ → Action Transaction (Unit {0})
unfolding force_cancel
cancel_in State.cancelled reason now t = (ok tt, t)
cancel_in State.cancelled_after_do reason now t = (ok tt, t)
cancel_in State.created reason now t = (ok tt, force_cancel reason now t)
cancel_in State.performed reason now t = (ok tt, force_cancel reason now t)
cancel_in (State.undocumented n) reason now t = (fail err_cannot_perform, t)

-- `Transaction.Cancel`
unfoldable pub cancel : Reason → ℤ → Action Transaction (Unit {0})
unfolding cancel_in
cancel reason now t = cancel_in t.state reason now t
