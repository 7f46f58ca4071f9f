-- ===== src/Kernel/JsonRpc.antt =====
-- internal/kernel/jsonrpc: the envelopes (message.go) and the router (server.go). encoding/json is
-- a record of arguments; a raw message that is missing is the empty text.
pub mod Dispatch
use payme_mock.Base.{Option, none, some, List, [], ◌∷◌, if◌then◌else◌}
use payme_mock.Base.Text.{Text, text, is_empty}
use payme_mock.Base.Dict.{Dict, lookup, insert, text_eq}
use payme_mock.Kernel.Errors.{
  Code, Message, ProtocolError, err_parse, err_invalid_request, err_method_not_found, err_transport,
}
use payme_mock.Kernel.Effect.{Error, Result, ok, err, fail, Action}

pub record Request : Type 0 where
  pub method : Text
  pub params : Text
  pub id : Text

pub record ErrorObject : Type 0 where
  pub code : Code
  pub message : Message
  pub field : Text

-- `R` is what the methods of the service answer with.
pub record Response (R : Type 0) : Type 0 where
  pub version : Text
  pub result : Option R
  pub error : Option ErrorObject
  pub id : Text

abbrev pub version : Text
version = text "2.0"

-- json.Unmarshal into a request, into the probes for its id and for its method (whose error is
-- dropped, so that an unreadable body gives the empty name), and into the probe of a response for
-- its result; `none` is an error. `encode` is the encoder's Encode of a response.
pub record Json (R : Type 0) : Type 0 where
  pub request_of : Text → Option Request
  pub id_probe : Text → Option Text
  pub method_probe : Text → Text
  pub result_probe : Text → Option Text
  pub encode : Response R → Text

abbrev id_or_none : Option Text → Text
id_or_none none = []
id_or_none (some id) = id

module _ {R : Type 0} where
  -- `WithVersion`
  abbrev pub with_version : Response R → Response R
  with_version r = record r { version = version; id = if is_empty r.id then text "null" else r.id }

  -- `IDOf`
  unfoldable pub id_of : Json R → Text → Text
  id_of json body = id_or_none (json.id_probe body)

  abbrev pub new_result : Text → R → Response R
  new_result id result = record { version = []; result = some result; error = none; id = id }

  abbrev pub new_error : Text → ProtocolError → Response R
  new_error id e = record {
    version = [];
    result = none;
    error = some (record { code = e.code; message = e.message; field = e.field });
    id = id;
  }

  -- `ErrorFrom`
  unfoldable pub error_from : Text → Error → Response R
  error_from id (Error.protocol e) = new_error id e
  error_from id _ = new_error id err_transport

  abbrev pub answered : Text → Result R → Response R
  answered id (ok result) = new_result id result
  answered id (err e) = error_from id e

-- `R` is what the methods of the service answer with, and `W` the world that they work on.
abbrev pub Handler : Type 0 → Type 0 → Type 0
Handler W R = Text → Action W R

abbrev pub Router : Type 0 → Type 0 → Type 0
Router W R = Dict Text (Handler W R)

-- `DecodeParams`, for the unmarshalling of one type of parameters.
unfoldable pub decode_params : {P : Type 0} → (Text → Option P) → Text → Result P
decode_params unmarshal raw =
    if is_empty raw
    then fail err_invalid_request
    else elim (unmarshal raw) [ some p ↦ ok p | none ↦ fail err_invalid_request ]

module _ {W R : Type 0} where
  -- `Register`
  abbrev pub register : Text → Handler W R → Router W R → Router W R
  register method h router = insert method h router

  abbrev run_handler : Request → Option (Handler W R) → W → Response R × W
  run_handler req none w = (new_error req.id err_method_not_found, w)
  run_handler req (some handler) w = let (r, w') = handler req.params w in (answered req.id r, w')

  abbrev dispatch_request : Router W R → Option Request → W → Response R × W
  dispatch_request router none w = (new_error [] err_parse, w)
  dispatch_request router (some req) w =
      if is_empty req.method
      then (new_error req.id err_invalid_request, w)
      else run_handler req (lookup req.method router) w

  -- `Dispatch`
  unfoldable pub dispatch : Json R → Router W R → Text → W → Response R × W
  unfolding lookup
  dispatch json router body w = dispatch_request router (json.request_of body) w
