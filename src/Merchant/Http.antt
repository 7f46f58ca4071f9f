-- ===== src/Merchant/Http.antt =====
-- merchant/interfaces/http/handler.go: the endpoint POST /payme/merchant over the Merchant API.
pub mod Access
use payme_mock.Base.{ℕ, Bool, not, Option, none, some, List, [], if◌then◌else◌}
use payme_mock.Base.Int.{ℤ}
use payme_mock.Base.Text.{Text, text, eq_text}
use payme_mock.Base.Dict.{Dict}
use payme_mock.Kernel.Errors.{err_invalid_http_method, err_unauthorized, err_transport}
use payme_mock.Kernel.Effect.{Result, ok, err, Action, pure, lift, ◌>>=◌}
use payme_mock.Kernel.JsonRpc as JsonRpc
use payme_mock.Kernel.JsonRpc.{Json, Response, Router, new_error, decode_params, register, dispatch}
use payme_mock.Kernel.Http.{Request, Answer, Handler, status_ok, method_post, header, read_limited}
use payme_mock.Kernel.Http.Auth.{check_merchant_auth}
use payme_mock.Merchant.Transaction.{Reason}
use payme_mock.Merchant.Ports.{
  Ports, Settings, CreateParams, CreateResult, PerformResult, CancelResult, CheckResult,
  StatementEntry,
}
use payme_mock.Merchant.Service.{
  check_perform_transaction, check_transaction, get_statement, name_create, name_perform,
  name_cancel,
}
use payme_mock.Merchant.Create.{create_transaction}
use payme_mock.Merchant.Perform.{perform_transaction}
use payme_mock.Merchant.Cancel.{cancel_transaction}

-- What a method answers with, as the router's `any`.
pub data Reply : Type 0 where
  allowed : Bool → Reply
  created : CreateResult → Reply
  performed : PerformResult → Reply
  cancelled : CancelResult → Reply
  checked : CheckResult → Reply
  statement : List StatementEntry → Reply

-- json.Unmarshal into the parameters of each method; `id` is that of the methods that take no more.
pub record Decoders : Type 0 where
  pub check_perform : Text → Option (ℤ × Dict Text Text)
  pub create : Text → Option CreateParams
  pub id : Text → Option Text
  pub cancel : Text → Option (Text × Reason)
  pub statement : Text → Option (ℤ × ℤ)

abbrev pub max_body_bytes : ℕ
max_body_bytes = 1048576

module _ {W P A R : Type 0} where
  -- `register`: the handler that decodes, calls the method and wraps its result.
  abbrev pub adapted : (Text → Option P) → (P → Action W A) → (A → R) → JsonRpc.Handler W R
  adapted unmarshal method wrap raw = do
    params ← lift (decode_params unmarshal raw)
    result ← method params
    pure (wrap result)

-- `writeResponse`
abbrev pub write_response : {R : Type 0} → Json R → Response R → Answer
write_response json resp =
    Answer.reply status_ok (text "text/json; charset=UTF-8") (json.encode resp)

module _ {W : Type 0} (ports : Ports W) (settings : Settings) (decoders : Decoders) where
  -- The router that `NewHandler` registers the six methods with.
  unfoldable pub router : Router W Reply
  router =
      register (text "GetStatement")
        (adapted decoders.statement (λ p. get_statement ports settings p.0 p.1) Reply.statement)
        (register (text "CheckTransaction")
          (adapted decoders.id (check_transaction ports settings) Reply.checked)
          (register name_cancel
            (adapted decoders.cancel (λ p. cancel_transaction ports settings p.0 p.1)
              Reply.cancelled)
            (register name_perform
              (adapted decoders.id (perform_transaction ports settings) Reply.performed)
              (register name_create
                (adapted decoders.create (create_transaction ports settings) Reply.created)
                (register (text "CheckPerformTransaction")
                  (adapted decoders.check_perform
                    (λ p. check_perform_transaction ports settings p.0 p.1) Reply.allowed)
                  [])))))

module _ {W R : Type 0} (json : Json R) (methods : Router W R)
    (resolve_key : Request → W → Result Text) where
  dispatch_read : Option Text → Request → W → Answer × Request × W
  unfolding dispatch
  dispatch_read none r w = (write_response json (new_error [] err_transport), r, w)
  dispatch_read (some body) r w =
      let (resp, w') = dispatch json methods body w in (write_response json resp, r, w')

  admitted : Handler W
  unfolding dispatch_read
  admitted r w =
      let (body, rest) = read_limited max_body_bytes r.body in
      dispatch_read body (record r { body = rest }) w

  with_key : Result Text → Handler W
  unfolding admitted check_merchant_auth
  with_key (err e) r w = (write_response json (new_error [] err_unauthorized), r, w)
  with_key (ok key) r w =
      if not (check_merchant_auth (header (text "Authorization") r) key)
      then (write_response json (new_error [] err_unauthorized), r, w)
      else admitted r w

  -- `ServeHTTP`
  unfoldable pub serve : Handler W
  unfolding with_key eq_text
  serve r w =
      if not (eq_text r.method method_post)
      then (write_response json (new_error [] err_invalid_http_method), r, w)
      else with_key (resolve_key r w) r w
