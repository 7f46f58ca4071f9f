-- ===== src/Programs/Stack.antt =====
-- The middleware.go of cmd/merchant and of cmd/paymemock, and cmd/paymemock/main.go's routes: what a
-- rule is matched on, and the layers round the handler.
use payme_mock.Base.{Option, none, some, List, [], ◌∷◌, if◌then◌else◌}
use payme_mock.Base.Int.{ℤ, pos}
use payme_mock.Base.Text.{Text, text}
use payme_mock.Base.Dict.{Dict}
use payme_mock.Kernel.Effect.{Action}
use payme_mock.Kernel.JsonRpc.{Json}
use payme_mock.Kernel.Http.{Request, Sandbox, Handler}
use payme_mock.Kernel.Http.Faults as Faults
use payme_mock.Kernel.Http.Idempotency as Idempotency
use payme_mock.Kernel.Http.Traffic as Traffic
use payme_mock.Simulation.Fault as Fault
use payme_mock.Simulation.Fault.{Rule}
use payme_mock.Simulation.Fault.Engine.{Engine, Decision, evaluate, faulted}

abbrev pub service_merchant : Fault.Service
service_merchant = text "merchant"

abbrev pub service_payme_mock : Fault.Service
service_payme_mock = text "paymemock"

-- What json.Unmarshal finds of a call: the method, and the id, amount and account of its params.
pub record Envelope : Type 0 where
  pub method : Text
  pub id : Text
  pub amount : ℤ
  pub account : Dict Text Text

abbrev stand_of : Option Sandbox → ℤ
stand_of none = pos 0
stand_of (some s) = s.id

abbrev described : Fault.Service → ℤ → Option Envelope → Fault.Request
described service sandbox none = record {
  service = service;
  method = [];
  sandbox_id = sandbox;
  account = [];
  payme_id = [];
  amount = pos 0;
}
described service sandbox (some e) = record {
  service = service;
  method = e.method;
  sandbox_id = sandbox;
  account = e.account;
  payme_id = e.id;
  amount = e.amount;
}

-- `describeRequest`, of either service.
unfoldable pub describe_request :
    (Text → Option Envelope) → Fault.Service → Request → Text → Fault.Request
describe_request envelope_of service r body =
    described service (stand_of r.sandbox) (envelope_of body)

-- `idempotentMethods`
abbrev pub idempotent_methods : List Text
idempotent_methods =
    text "transactions.create"
    ∷ text "receipts.create"
    ∷ text "receipts.pay"
    ∷ text "cards.create"
    ∷ []

-- The ports of the stack. `hit` counts a rule's applications, and an error of it is only logged.
pub record Deps (F W : Type 0) : Type 0 where
  pub engine : Engine F W
  pub hit : ℤ → Action W (Unit {0})
  pub sleep : ℤ → W → W
  pub report_fired : Rule F → W → W
  pub envelope_of : Text → Option Envelope
  pub traffic : Traffic.TrafficMiddleware W
  pub repeats : Idempotency.IdempotencyMiddleware W

module _ {F W : Type 0} (deps : Deps F W) where
  counted : Option (Rule F) → W → W
  counted none w = w
  counted (some rule) w = (deps.hit rule.id w).1

  -- The callback that `withMiddleware` registers: a decision that faults is counted.
  unfoldable pub count_hit : Decision F → W → W
  unfolding counted
  count_hit d w = if faulted d then counted d.rule w else w

  abbrev pub fault_layer : Fault.Service → Faults.FaultMiddleware F W
  fault_layer service = record {
    evaluate = evaluate deps.engine;
    describe = describe_request deps.envelope_of service;
    sleep = deps.sleep;
    on_decision = some count_hit;
    report_fired = deps.report_fired;
  }

  module _ {R : Type 0} (json : Json R) where
    -- `withMiddleware` of cmd/merchant.
    unfoldable pub with_merchant_layers : Handler W → Handler W
    unfolding Traffic.wrap Faults.wrap
    with_merchant_layers handler =
        Traffic.wrap deps.traffic (Faults.wrap json (fault_layer service_merchant) handler)

    -- `withMiddleware` of cmd/paymemock.
    unfoldable pub with_subscribe_layers : Handler W → Handler W
    unfolding Traffic.wrap Faults.wrap Idempotency.wrap
    with_subscribe_layers handler =
        Traffic.wrap deps.traffic (
          Faults.wrap json (fault_layer service_payme_mock) (Idempotency.wrap deps.repeats handler))
