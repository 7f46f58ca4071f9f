-- ===== src/Subscribe/Client/InProcess.antt =====
-- The client of subscribe/infrastructure/merchantclient.go against the endpoint of
-- merchant/interfaces/http/handler.go.
use payme_mock.Base.{◌≡◌, refl, ap, ◌∙◌, ◌≤◌, true, false, Option, none, some, []}
use payme_mock.Base.Int.{ℤ}
use payme_mock.Base.Text.{Text, text, length, eq_text, is_empty}
use payme_mock.Base.Dict.{lookup, text_eq}
use payme_mock.Kernel.Errors.{err_transport}
use payme_mock.Kernel.Effect.{Error, Result, ok, err, fail}
use payme_mock.Kernel.JsonRpc as JsonRpc
use payme_mock.Kernel.JsonRpc.{Json, Response, Router, ErrorObject, dispatch, new_error, error_from}
use payme_mock.Kernel.Http.{Request, Answer, Handler, Body, header}
use payme_mock.Kernel.Http.Reading.{whole}
use payme_mock.Kernel.Http.Auth.{merchant_auth_header}
use payme_mock.Kernel.Base64.Laws.{IsBytes}
use payme_mock.Merchant.Http.{serve, write_response, max_body_bytes}
use payme_mock.Merchant.Http.Access.{serve_signed}
use payme_mock.Subscribe.Client.{
  MerchantClient, Sent, Envelope, Params, call, sent, limited, max_response_bytes, answered, heard,
}

-- What a server sees of a request that was sent to it.
abbrev pub received : Text → Sent → Request
received remote s = record {
  method = s.method;
  headers = s.headers;
  remote_addr = remote;
  sandbox = none;
  body = whole s.body;
}

abbrev pub response : Answer → Option (ℤ × Body)
response (Answer.reply status content body) = some (status, whole body)
response Answer.closed = none

-- The transport to a handler of the same process.
abbrev pub in_process : {W : Type 0} → Text → Handler W → Sent → W → Option (ℤ × Body) × W
in_process remote handler s w =
    let (answer, r, w') = handler (received remote s) w in (response answer, w')

-- The envelope of an answer, by what its result is in JSON.
abbrev raw_result : {R : Type 0} → (R → Text) → Option R → Text
raw_result raw none = []
raw_result raw (some r) = raw r

abbrev pub envelope_of : {R : Type 0} → (R → Text) → Response R → Envelope
envelope_of raw r = record { result = raw_result raw r.result; error = r.error }

-- What the caller gets of the outcome of a method: a protocol error as it is, any other one as a
-- transport error.
abbrev pub told : {R : Type 0} → (R → Text) → Result R → Result Text
told raw (ok r) = ok (raw r)
told raw (err (Error.protocol e)) = err (Error.protocol e)
told raw (err e) = fail err_transport

module _ {W R : Type 0} (json : Json R) (methods : Router W R)
    (resolve_key : Request → W → Result Text) (remote : Text) (raw : R → Text)
    (client : MerchantClient W) where
  abbrev merchant : Handler W
  merchant = serve json methods resolve_key

  -- The client is connected to the endpoint, and its key can stand in a header.
  pub record Connected : Type 0 where
    pub reachable : client.http.valid_endpoint client.endpoint ≡ true
    pub local : (s : Sent) (w : W) → client.http.send s w ≡ in_process remote merchant s w
    pub readable : IsBytes client.key

  abbrev pub body_of : Text → Params → W → Text
  body_of method params w = client.http.encode (client.next_id w).0 method params

  -- The answer fits, and its JSON reads as it was written.
  abbrev pub Legible : Response R → Type 0
  Legible resp =
      client.http.envelope (limited max_response_bytes (whole (json.encode resp)))
      ≡ some (envelope_of raw resp)

  -- One call: its body fits, reads as the request, and names a stand that has the client's key.
  pub record Carried (method : Text) (params : Params) (w : W) (req : JsonRpc.Request)
      : Type 0 where
    pub fits : length (body_of method params w) ≤ max_body_bytes
    pub known :
        resolve_key (received remote (sent client (body_of method params w))) (client.next_id w).1
        ≡ ok client.key
    pub parsed : json.request_of (body_of method params w) ≡ some req
    pub legible : Legible (dispatch json methods (body_of method params w) (client.next_id w).1).0

  said : Response R → Result Text
  said resp = heard resp.error (raw_result raw resp.result)

  answered-Legible :
      (resp : Response R)
      → Legible resp
      → answered client (response (write_response json resp)) ≡ said resp
  unfolding said
  answered-Legible resp h = rw h refl

  said-told : (id : Text) (r : Result R) → said (JsonRpc.answered id r) ≡ told raw r
  unfolding said error_from
  said-told id (ok r) = refl
  said-told id (err (Error.protocol e)) = refl
  said-told id (err Error.not_found) = refl
  said-told id (err Error.duplicate) = refl
  said-told id (err (Error.other s)) = refl

  sent_header :
      (body : Text)
      → header (text "Authorization") (received remote (sent client body))
        ≡ merchant_auth_header client.key
  unfolding header lookup eq_text
  sent_header body = refl

  served :
      (body : Text) (w : W)
      → Connected
      → length body ≤ max_body_bytes
      → resolve_key (received remote (sent client body)) w ≡ ok client.key
      → client.http.send (sent client body) w ≡ (
          let (resp, w') = dispatch json methods body w in
          (response (write_response json resp), w'))
  served body w c fits known =
      c.local (sent client body) w
      ∙ ap (λ (x : Answer × Request × W). (response x.0, x.2))
          (serve_signed json methods resolve_key (received remote (sent client [])) client.key body
            w refl (sent_header []) c.readable fits known)

  dispatched_call :
      (body : Text) (w : W) (req : JsonRpc.Request) (handler : JsonRpc.Handler W R)
      → json.request_of body ≡ some req
      → is_empty req.method ≡ false
      → lookup req.method methods ≡ some handler
      → dispatch json methods body w
        ≡ (let (r, w') = handler req.params w in (JsonRpc.answered req.id r, w'))
  unfolding dispatch
  dispatched_call body w req handler parsed named found = rw (parsed, named, found) refl

  call_served :
      (method : Text) (params : Params) (w : W) (req : JsonRpc.Request)
      → Connected
      → Carried method params w req
      → call client method params w ≡ (
          let (resp, w') = dispatch json methods (body_of method params w) (client.next_id w).1 in
          (said resp, w'))
  unfolding call
  call_served method params w req c x = rw c.reachable (
      ap (λ (s : Option (ℤ × Body) × W). (answered client s.0, s.1))
        (served (body_of method params w) (client.next_id w).1 c x.fits x.known)
      ∙ ap (λ a. (a, (dispatch json methods (body_of method params w) (client.next_id w).1).1))
          (answered-Legible _ x.legible))

  -- A call of the client to an endpoint of the same process comes to its method with the parameters
  -- that it was made with, once, and comes back with what the method answers: its result, its own
  -- protocol error, or a transport error in place of any other. The endpoint knows the key, the call
  -- reads as the request that it was made from, and the answer can be read.
  pub call-serve :
      (method : Text) (params : Params) (w : W) (req : JsonRpc.Request)
      (handler : JsonRpc.Handler W R)
      → Connected
      → Carried method params w req
      → is_empty req.method ≡ false
      → lookup req.method methods ≡ some handler
      → call client method params w
        ≡ (let (r, w') = handler req.params (client.next_id w).1 in (told raw r, w'))
  call-serve method params w req handler c x named found =
      call_served method params w req c x
      ∙ ap (λ (s : Response R × W). (said s.0, s.1))
          (dispatched_call (body_of method params w) (client.next_id w).1 req handler x.parsed named
            found)
      ∙ ap (λ a. (a, (handler req.params (client.next_id w).1).1))
          (said-told req.id (handler req.params (client.next_id w).1).0)
