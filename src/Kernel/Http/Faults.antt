-- ===== src/Kernel/Http/Faults.antt =====
-- internal/kernel/httpx/fault.go: the middleware that applies fault rules before the handler runs.
-- A response's encoding, the wait and the reports are arguments.
use payme_mock.Base.{Option, none, some, [], if◌then◌else◌}
use payme_mock.Base.Int.{ℤ, pos, eq_ℤ}
use payme_mock.Base.Int64.{mul64}
use payme_mock.Base.Text.{Text, text}
use payme_mock.Kernel.Effect.{Result, ok, err, Action as Call}
use payme_mock.Kernel.JsonRpc.{Json, new_error}
use payme_mock.Kernel.Http.{Request, Answer, Handler, status_ok, read_and_restore}
use payme_mock.Simulation.Fault as Fault
use payme_mock.Simulation.Fault.{Rule, protocol_error}
use payme_mock.Simulation.Fault.Engine.{Decision, faulted}

-- `on_decision` is optional; `report_fired` fills the slot that the traffic log reads; `sleep` takes
-- nanoseconds.
pub record FaultMiddleware (F W : Type 0) : Type 0 where
  pub evaluate : Fault.Request → Call W (Decision F)
  pub describe : Request → Text → Fault.Request
  pub sleep : ℤ → W → W
  pub on_decision : Option (Decision F → W → W)
  pub report_fired : Rule F → W → W

abbrev pub application_json : Text
application_json = text "application/json; charset=UTF-8"

abbrev pub status_or_internal : ℤ → ℤ
status_or_internal status = if eq_ℤ status (pos 0) then pos 500 else status

module _ {F W R : Type 0} (json : Json R) (m : FaultMiddleware F W) where
  -- The handler runs twice on one request, and the first answer is thrown away.
  abbrev pub run_twice : Handler W → Handler W
  run_twice next r w = let (first, r', w') = next r w in next r' w'

  abbrev pub apply_action : Fault.Action → Rule F → Handler W → Handler W
  apply_action Fault.Action.delay rule next r w = next r w
  apply_action Fault.Action.rpc_error rule next r w = (
    Answer.reply status_ok application_json (json.encode (new_error [] (protocol_error rule))),
    r,
    w,
  )
  apply_action Fault.Action.http_status rule next r w =
      (Answer.reply (status_or_internal rule.http_status) [] [], r, w)
  apply_action Fault.Action.malformed rule next r w =
      (Answer.reply status_ok application_json (text "{\"result\":"), r, w)
  apply_action Fault.Action.drop rule next r w = (Answer.closed, r, w)
  apply_action Fault.Action.duplicate rule next r w = run_twice next r w
  apply_action Fault.Action.passthrough rule next r w = next r w
  apply_action (Fault.Action.unknown s) rule next r w = next r w

  -- `apply`
  unfoldable pub apply : Rule F → Handler W → Handler W
  unfolding protocol_error
  apply rule next = apply_action rule.action rule next

  noticed : Option (Decision F → W → W) → Decision F → W → W
  noticed none d w = w
  noticed (some report) d w = report d w

  -- The slot is filled in by a decision that faults.
  fired : Decision F → Option (Rule F) → W → W
  fired d none w = w
  fired d (some rule) w = if faulted d then m.report_fired rule w else w

  applied : Decision F → Option (Rule F) → Handler W → Handler W
  unfolding apply
  applied d none next = next
  applied d (some rule) next = if faulted d then apply rule next else next

  act_on : Result (Decision F) → Handler W → Handler W
  unfolding noticed fired applied mul64
  act_on (err e) next r w = next r w
  act_on (ok d) next r w =
      let told = fired d d.rule (noticed m.on_decision d w) in
      applied d d.rule next r (m.sleep (mul64 d.delay_millis (pos 1000000)) told)

  evaluated : Option Text → Handler W → Handler W
  unfolding act_on
  evaluated none next r w = next r w
  evaluated (some body) next r w =
      let (decision, w') = m.evaluate (m.describe r body) w in act_on decision next r w'

  -- `Wrap`
  unfoldable pub wrap : Handler W → Handler W
  unfolding evaluated
  wrap next r w = let (body, r') = read_and_restore r in evaluated body next r' w
