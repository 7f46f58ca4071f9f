-- ===== src/Subscribe/Client.antt =====
-- subscribe/infrastructure/merchantclient.go: the client that calls a merchant's Merchant API.
pub mod InProcess
pub mod Keys
pub mod Payment
use payme_mock.Base.{ℕ, Bool, ◌&&◌, not, Option, none, some, List, [], ◌∷◌, ltb, if◌then◌else◌}
use payme_mock.Base.Int.{ℤ, eq_ℤ}
use payme_mock.Base.Text.{Text, text, length, take}
use payme_mock.Base.Dict.{Dict}
use payme_mock.Kernel.Errors.{new_error, err_transport}
use payme_mock.Kernel.Effect.{Error, Result, ok, err, fail, Action, pure, lift, ◌>>=◌, ◌>>◌}
use payme_mock.Kernel.JsonRpc.{ErrorObject}
use payme_mock.Kernel.Http.{Body, status_ok, method_post}
use payme_mock.Kernel.Http.Auth.{merchant_auth_header}

-- A value of the parameters, which Go holds as `any`.
pub data Value : Type 0 where
  number : ℤ → Value
  string : Text → Value
  object : Dict Text Text → Value

abbrev pub Params : Type 0
Params = Dict Text Value

-- The request that is sent.
pub record Sent : Type 0 where
  pub method : Text
  pub endpoint : Text
  pub headers : Dict Text Text
  pub body : Text

pub record Envelope : Type 0 where
  pub result : Text
  pub error : Option ErrorObject

-- The library behind the client: `encode` is json.Marshal of the envelope of a call, by its id, its
-- method and its parameters; `envelope` the decoder of an answer, which stops behind the first value;
-- `transaction` json.Unmarshal of the result of CreateTransaction; `valid_endpoint` tells whether
-- NewRequest takes the address. `send` gives the status and the body, or nothing where the merchant
-- does not answer.
pub record Wire (W : Type 0) : Type 0 where
  pub encode : ℤ → Text → Params → Text
  pub envelope : Body → Option Envelope
  pub transaction : Text → Option Text
  pub valid_endpoint : Text → Bool
  pub send : Sent → W → Option (ℤ × Body) × W

pub record MerchantClient (W : Type 0) : Type 0 where
  pub endpoint : Text
  pub key : Text
  pub http : Wire W
  pub next_id : W → ℤ × W

abbrev pub max_response_bytes : ℕ
max_response_bytes = 1048576

-- `io.LimitReader`
abbrev pub limited : ℕ → Body → Body
limited limit b = record {
  bytes = take limit b.bytes;
  broken = b.broken && ltb (length b.bytes) limit;
}

abbrev pub heard : Option ErrorObject → Text → Result Text
heard none result = ok result
heard (some e) result = fail (new_error e.code e.message e.field)

abbrev pub opened : Option Envelope → Result Text
opened none = fail err_transport
opened (some envelope) = heard envelope.error envelope.result

abbrev pub created : Option Text → Result Text
created none = fail err_transport
created (some transaction) = ok transaction

module _ {W : Type 0} (client : MerchantClient W) where
  abbrev pub answered : Option (ℤ × Body) → Result Text
  answered none = fail err_transport
  answered (some (status, body)) =
      if not (eq_ℤ status status_ok)
      then fail err_transport
      else opened (client.http.envelope (limited max_response_bytes body))

  abbrev pub sent : Text → Sent
  sent body = record {
    method = method_post;
    endpoint = client.endpoint;
    headers =
        (text "Content-Type", text "application/json")
        ∷ (text "Authorization", merchant_auth_header client.key)
        ∷ [];
    body = body;
  }

  -- `call`
  unfoldable pub call : Text → Params → Action W Text
  call method params w =
      let (id, w') = client.next_id w in
      let body = client.http.encode id method params in
      if not (client.http.valid_endpoint client.endpoint)
      then (err (Error.other "build request"), w')
      else let (response, w'') = client.http.send (sent body) w' in (answered response, w'')

  abbrev pub check_params : ℤ → Dict Text Text → Params
  check_params amount account =
      (text "amount", Value.number amount) ∷ (text "account", Value.object account) ∷ []

  abbrev pub create_params : Text → ℤ → ℤ → Dict Text Text → Params
  create_params id time amount account =
      (text "id", Value.string id)
      ∷ (text "time", Value.number time)
      ∷ (text "amount", Value.number amount)
      ∷ (text "account", Value.object account)
      ∷ []

  abbrev pub id_params : Text → Params
  id_params id = (text "id", Value.string id) ∷ []

  abbrev pub cancel_params : Text → ℤ → Params
  cancel_params id reason = (text "id", Value.string id) ∷ (text "reason", Value.number reason) ∷ []

  -- `CheckPerformTransaction`
  unfoldable pub check_perform_transaction : ℤ → Dict Text Text → Action W (Unit {0})
  check_perform_transaction amount account = do
    raw ← call (text "CheckPerformTransaction") (check_params amount account)
    pure tt

  -- `CreateTransaction`
  unfoldable pub create_transaction : Text → ℤ → ℤ → Dict Text Text → Action W Text
  create_transaction id time amount account = do
    raw ← call (text "CreateTransaction") (create_params id time amount account)
    lift (created (client.http.transaction raw))

  -- `PerformTransaction`
  unfoldable pub perform_transaction : Text → Action W (Unit {0})
  perform_transaction id = do raw ← call (text "PerformTransaction") (id_params id); pure tt

  -- `CancelTransaction`
  unfoldable pub cancel_transaction : Text → ℤ → Action W (Unit {0})
  cancel_transaction id reason = do
    raw ← call (text "CancelTransaction") (cancel_params id reason)
    pure tt
