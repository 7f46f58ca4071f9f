-- ===== src/Kernel/Http/Idempotency.antt =====
-- internal/kernel/httpx/idempotency.go: a repeated call is answered with the answer that the first
-- one got. The store, the hash and encoding/json's probes are arguments.
pub mod Replay
use payme_mock.Base.{
  Bool, true, false, not, ◌&&◌, ◌||◌, Option, none, some, List, [], ◌∷◌, if◌then◌else◌,
}
use payme_mock.Base.Int.{ℤ, pos, eq_ℤ, leb_ℤ}
use payme_mock.Base.Text.{Text, text, is_empty, eq_text}
use payme_mock.Kernel.Effect.{Result, ok, err, Action}
use payme_mock.Kernel.Http.{Request, Answer, Handler, status_ok, read_and_restore}
use payme_mock.Kernel.Http.Capture.{captured_status, captured_body}

pub record CallKey : Type 0 where
  pub sandbox_id : ℤ
  pub method : Text
  pub request_id : Text
  pub body_hash : Text

-- `call_probe` unmarshals a body's id and method, `result_probe` a response's result (`none` is an
-- error); `hash` is SHA-256 in hexadecimal; `sandbox` is the stand that a request is for.
pub record IdempotencyMiddleware (W : Type 0) : Type 0 where
  pub recall : CallKey → ℤ → W → Result (Option Text)
  pub remember : CallKey → Text → Action W (Unit {0})
  pub methods : List Text
  pub window : ℤ
  pub sandbox : Request → Option ℤ
  pub call_probe : Text → Option (Text × Text)
  pub result_probe : Text → Option Text
  pub hash : Text → Text

abbrev pub text_json : Text
text_json = text "text/json; charset=UTF-8"

listed : Text → List Text → Bool
unfolding eq_text
listed method [] = false
listed method (m ∷ ms) = eq_text m method || listed method ms

abbrev probed : Option Text → Bool
probed none = false
probed (some result) = not (is_empty result)

module _ {W : Type 0} (m : IdempotencyMiddleware W) where
  key_in : Option ℤ → Text → Text → Text → Option CallKey
  key_in none method id body = none
  key_in (some sandbox) method id body =
      some
        (record { sandbox_id = sandbox; method = method; request_id = id; body_hash = m.hash body })

  key_of_call : Request → Text → Option (Text × Text) → Option CallKey
  unfolding key_in listed
  key_of_call r body none = none
  key_of_call r body (some (id, method)) =
      if not (listed method m.methods) || is_empty id
      then none
      else key_in (m.sandbox r) method id body

  key_of_body : Option Text → Request → Option CallKey
  unfolding key_of_call
  key_of_body none r = none
  key_of_body (some body) r = if is_empty body then none else key_of_call r body (m.call_probe body)

  abbrev no_methods : List Text → Bool
  no_methods [] = true
  no_methods (x ∷ xs) = false

  -- `keyOf`, which reads the body where the middleware is on, and puts it back.
  unfoldable pub key_of : Request → Option CallKey × Request
  unfolding key_of_body
  key_of r =
      if leb_ℤ m.window (pos 0) || no_methods m.methods
      then (none, r)
      else (let (body, r') = read_and_restore r in (key_of_body body r', r'))

  -- `hasResult`
  unfoldable pub has_result : Text → Bool
  has_result body = probed (m.result_probe body)

  unfoldable pub remember_answer : CallKey → Answer → W → W
  unfolding has_result
  remember_answer key answer w =
      if eq_ℤ (captured_status answer) status_ok && has_result (captured_body answer)
      then (m.remember key (captured_body answer) w).1
      else w

  unfoldable pub first_attempt : CallKey → Handler W → Handler W
  unfolding remember_answer
  first_attempt key next r w =
      let (answer, r', w') = next r w in (answer, r', remember_answer key answer w')

  -- An error of the store counts as a call that is not known.
  unfoldable pub recalled : CallKey → Result (Option Text) → Handler W → Handler W
  unfolding first_attempt
  recalled key (ok (some stored)) next r w = (Answer.reply status_ok text_json stored, r, w)
  recalled key (ok none) next r w = first_attempt key next r w
  recalled key (err e) next r w = first_attempt key next r w

  unfoldable pub keyed : Option CallKey → Handler W → Handler W
  unfolding recalled
  keyed none next r w = next r w
  keyed (some key) next r w = recalled key (m.recall key m.window w) next r w

  -- `Wrap`
  unfoldable pub wrap : Handler W → Handler W
  unfolding keyed
  wrap next r w = let (key, r') = key_of r in keyed key next r' w
