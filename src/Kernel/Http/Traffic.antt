-- ===== src/Kernel/Http/Traffic.antt =====
-- internal/kernel/httpx/logging.go: the record of every call, and the entry that
-- simulation/traffic/domain keeps.
use payme_mock.Base.{◌+◌, ◌/◌, Option, none, some, [], ◌∷◌, reverse, ◌==◌, ltb, if◌then◌else◌}
use payme_mock.Base.Int.{ℤ, pos, negsuc, minus, ◌-ℤ◌, ltb_ℤ}
use payme_mock.Base.Text.{Text, text, length, take}
use payme_mock.Base.Dict.{Dict}
use payme_mock.Kernel.Errors.{Code}
use payme_mock.Kernel.Effect.{Error, Result, ok, err, Action}
use payme_mock.Kernel.Http.{Request, Sandbox, Answer, Handler, read_and_restore}
use payme_mock.Kernel.Http.Capture.{captured_status, captured_body, max_recorded_body}

pub data Direction : Type 0 where
  inward outward : Direction

pub record Entry : Type 0 where
  pub id : ℤ
  pub sandbox_id : Option ℤ
  pub service : Text
  pub direction : Direction
  pub method : Text
  pub rpc_id : Text
  pub http_status : ℤ
  pub request_headers : Dict Text Text
  pub response_headers : Dict Text Text
  pub request_body : Text
  pub response_body : Text
  pub duration_ms : ℤ
  pub fault_rule_id : Option ℤ
  pub error_code : Option Code
  pub remote_addr : Text

-- `call_probe` unmarshals a body's method and id, `error_probe` the code of a response's error
-- (`none` where there is none); the clock gives nanoseconds. `open_slot` puts a fresh slot for the
-- fired rule into the request's context, and `fired_rule` is the rule reported into it. A header of
-- the model has one value, so flattening leaves the headers as they are.
pub record TrafficMiddleware (W : Type 0) : Type 0 where
  pub record_entry : Entry → Action W (Unit {0})
  pub service : Text
  pub now : W → ℤ × W
  pub on_error : Option (Error → W → W)
  pub open_slot : W → W
  pub fired_rule : W → Option ℤ
  pub call_probe : Text → Option (Text × Text)
  pub error_probe : Text → Option Code

drop_quotes : Text → Text
drop_quotes [] = []
drop_quotes (x ∷ s) = if x == 34 then drop_quotes s else x ∷ s

-- `bytes.Trim(s, "\"")`
trim_quotes : Text → Text
unfolding drop_quotes
trim_quotes s = reverse (drop_quotes (reverse (drop_quotes s)))

abbrev described : Option (Text × Text) → Text × Text
described none = ([], [])
described (some (method, id)) = (method, trim_quotes id)

-- `truncate`
unfoldable pub truncate : Text → Text
truncate body = if ltb max_recorded_body (length body) then take max_recorded_body body else body

-- `took.Milliseconds()`
unfoldable pub milliseconds : ℤ → ℤ
milliseconds (pos n) = pos (n / 1000000)
milliseconds (negsuc n) = minus ((n + 1) / 1000000)

abbrev content_type : Answer → Dict Text Text
content_type (Answer.reply status [] body) = []
content_type (Answer.reply status (x ∷ kind) body) = (text "Content-Type", x ∷ kind) ∷ []
content_type Answer.closed = []

abbrev id_of_sandbox : Option Sandbox → Option ℤ
id_of_sandbox none = none
id_of_sandbox (some s) = some s.id

module _ {W : Type 0} (m : TrafficMiddleware W) where
  -- The entry that `record` writes.
  unfoldable pub entry_of : Request → Text → Answer → ℤ → Option ℤ → Entry
  unfolding trim_quotes truncate milliseconds
  entry_of r body answer took rule =
      let (method, rpc_id) = described (m.call_probe body) in
      record {
        id = pos 0;
        sandbox_id = id_of_sandbox r.sandbox;
        service = m.service;
        direction = Direction.inward;
        method = method;
        rpc_id = rpc_id;
        http_status = captured_status answer;
        request_headers = r.headers;
        response_headers = content_type answer;
        request_body = truncate body;
        response_body = truncate (captured_body answer);
        duration_ms = milliseconds took;
        fault_rule_id = rule;
        error_code = m.error_probe (captured_body answer);
        remote_addr = r.remote_addr;
      }

  reported : Option (Error → W → W) → Result (Unit {0}) → W → W
  reported none r w = w
  reported (some report) (ok u) w = w
  reported (some report) (err e) w = report e w

  -- `record`
  unfoldable pub record_call : Request → Text → Answer → ℤ → W → W
  unfolding entry_of reported
  record_call r body answer took w =
      let (result, w') = m.record_entry (entry_of r body answer took (m.fired_rule w)) w in
      reported m.on_error result w'

  -- `Time.Sub`, which stops at the ends of int64.
  elapsed : ℤ → ℤ → ℤ
  elapsed ended started =
      let d = ended -ℤ started in
      if ltb_ℤ (pos 9223372036854775807) d
      then pos 9223372036854775807
      else if ltb_ℤ d (negsuc 9223372036854775807)
      then negsuc 9223372036854775807
      else d

  timed : Option Text → Handler W → Handler W
  unfolding record_call elapsed
  timed none next r w = next r w
  timed (some body) next r w =
      let (started, w1) = m.now w in
      let (answer, r', w2) = next r (m.open_slot w1) in
      let (ended, w3) = m.now w2 in
      (answer, r', record_call r body answer (elapsed ended started) w3)

  -- `Wrap`
  unfoldable pub wrap : Handler W → Handler W
  unfolding timed
  wrap next r w = let (body, r') = read_and_restore r in timed body next r' w
