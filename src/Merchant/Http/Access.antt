-- ===== src/Merchant/Http/Access.antt =====
-- Who reaches the Merchant API through merchant/interfaces/http/handler.go, and how often.
use payme_mock.Base.{◌≡◌, ◌∙◌, ap, ◌≤◌, none, [], if◌then◌else◌, arith, Bool-cases, inl, inr}
use payme_mock.Base.Text.{Text, text, length, eq_text, eq_text_refl}
use payme_mock.Kernel.Errors.{err_parse, err_unauthorized}
use payme_mock.Kernel.Effect.{Result, ok}
use payme_mock.Kernel.JsonRpc.{Json, Response, Router, new_error, dispatch}
use payme_mock.Kernel.Http.{Request, Answer, Handler, header, method_post}
use payme_mock.Kernel.Http.Reading.{whole, read_limited-whole, header_body, is_post}
use payme_mock.Kernel.Base64.Laws.{IsBytes}
use payme_mock.Kernel.Http.Auth.{merchant_auth_header}
use payme_mock.Kernel.Http.Auth.Laws.{check_merchant_auth-merchant_auth_header}
use payme_mock.Kernel.Http.Faults.{FaultMiddleware, apply, apply_action}
use payme_mock.Simulation.Fault as Fault
use payme_mock.Simulation.Fault.{Rule}
use payme_mock.Merchant.Http.{serve, write_response, max_body_bytes, admitted, with_key}

module _ {W R : Type 0} (json : Json R) (methods : Router W R)
    (resolve_key : Request → W → Result Text) where
  -- The answer of the router to a body, with nothing of it left to read.
  abbrev pub dispatched : Text → Handler W
  dispatched bytes r w =
      let (resp, w') = dispatch json methods bytes w in
      (write_response json resp, record r { body = whole [] }, w')

  admitted-whole :
      (r : Request) (bytes : Text) (w : W)
      → length bytes ≤ max_body_bytes
      → admitted json methods resolve_key (record r { body = whole bytes }) w ≡ dispatched bytes r w
  unfolding admitted
  admitted-whole r bytes w h = rw (read_limited-whole max_body_bytes bytes h)

  abbrev pub unauthorized : Handler W
  unauthorized r w = (write_response json (new_error [] err_unauthorized), r, w)

  with_key_signed :
      (r : Request) (key expected bytes : Text) (w : W)
      → header (text "Authorization") r ≡ merchant_auth_header key
      → IsBytes key
      → length bytes ≤ max_body_bytes
      → with_key json methods resolve_key (ok expected) (record r { body = whole bytes }) w ≡ (
          if eq_text key expected
          then dispatched bytes r w
          else unauthorized (record r { body = whole bytes }) w)
  unfolding with_key
  with_key_signed r key expected bytes w signed valid fits =
      rw
        (
          header_body (text "Authorization") r (whole bytes),
          signed,
          check_merchant_auth-merchant_auth_header key expected valid,
        )
        (elim (Bool-cases (eq_text key expected)) [
          | inl e ↦ rw e (admitted-whole r bytes w fits)
          | inr e ↦ rw e
        ])

  -- A POST that carries the header built for a key reaches the method that its body names, once,
  -- exactly when that key is the stand's; with any other key the answer is the protocol's
  -- unauthorized error and nothing is written. The body is within the limit and reads to its end.
  pub serve-merchant_auth_header :
      (r : Request) (key expected bytes : Text) (w : W)
      → r.method ≡ method_post
      → header (text "Authorization") r ≡ merchant_auth_header key
      → IsBytes key
      → length bytes ≤ max_body_bytes
      → resolve_key (record r { body = whole bytes }) w ≡ ok expected
      → serve json methods resolve_key (record r { body = whole bytes }) w ≡ (
          if eq_text key expected
          then dispatched bytes r w
          else unauthorized (record r { body = whole bytes }) w)
  unfolding serve
  serve-merchant_auth_header r key expected bytes w post signed valid fits resolved =
      rw (is_post r post, resolved) (with_key_signed r key expected bytes w signed valid fits)

  pub serve_signed :
      (r : Request) (key bytes : Text) (w : W)
      → r.method ≡ method_post
      → header (text "Authorization") r ≡ merchant_auth_header key
      → IsBytes key
      → length bytes ≤ max_body_bytes
      → resolve_key (record r { body = whole bytes }) w ≡ ok key
      → serve json methods resolve_key (record r { body = whole bytes }) w ≡ dispatched bytes r w
  serve_signed r key bytes w post signed valid fits resolved =
      serve-merchant_auth_header r key key bytes w post signed valid fits resolved
      ∙ rw (eq_text_refl key)

  dispatch_empty :
      (w : W) → json.request_of [] ≡ none → dispatch json methods [] w ≡ (new_error [] err_parse, w)
  unfolding dispatch
  dispatch_empty w empty = rw (empty, dispatch)

  -- The fault action that delivers a call twice does not reach the method twice: the first delivery
  -- takes the body, so the second finds none, and where an empty body does not parse the caller gets
  -- the parse error, with id and all else of the call lost, though the method ran once and wrote
  -- what it writes. The call is a POST signed with the stand's key, which resolves to the same after
  -- the method ran.
  pub run_twice-serve :
      (r : Request) (key bytes : Text) (w : W)
      → r.method ≡ method_post
      → header (text "Authorization") r ≡ merchant_auth_header key
      → IsBytes key
      → length bytes ≤ max_body_bytes
      → resolve_key (record r { body = whole bytes }) w ≡ ok key
      → resolve_key (record r { body = whole [] }) (dispatch json methods bytes w).1 ≡ ok key
      → json.request_of [] ≡ none
      → {F : Type 0} (m : FaultMiddleware F W) (rule : Rule F)
      → rule.action ≡ Fault.Action.duplicate
      → apply json m rule (serve json methods resolve_key) (record r { body = whole bytes }) w ≡ (
        write_response json (new_error [] err_parse),
        record r { body = whole [] },
        (dispatch json methods bytes w).1,
      )
  unfolding apply
  run_twice-serve r key bytes w post signed valid fits resolved again empty m rule twice =
      let next : Handler W = serve json methods resolve_key in
      let delivered : Request = record r { body = whole bytes } in
      let w' : W = (dispatch json methods bytes w).1 in
      ap (λ a. apply_action json m a rule next delivered w) twice
      ∙ ap (λ (x : Answer × Request × W). next x.1 x.2)
          (serve_signed r key bytes w post signed valid fits resolved)
      ∙ serve_signed r key [] w' post signed valid (omega arith) again
      ∙ ap (λ (x : Response R × W). (write_response json x.0, record r { body = whole [] }, x.1))
          (dispatch_empty w' empty)
