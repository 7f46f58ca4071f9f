-- ===== src/Programs/Resolve.antt =====
-- The sandbox.go of cmd/merchant and of cmd/paymemock: which stand a call is for, and the
-- credentials that it must match.
pub mod Isolation
use payme_mock.Base.{Bool, true, false, Option, none, some, List, [], if◌then◌else◌}
use payme_mock.Base.Int.{ℤ, pos}
use payme_mock.Base.Text.{Text, text}
use payme_mock.Kernel.Errors.{err_unauthorized}
use payme_mock.Kernel.Effect.{Error, Result, ok, err, is_not_found}
use payme_mock.Kernel.JsonRpc.{Json, new_error, with_version}
use payme_mock.Kernel.Http as Http
use payme_mock.Kernel.Http.{Request, Answer, Handler, header, http_error, internal_error, status_ok}
use payme_mock.Kernel.Http.Auth.{SubscribeAuth, parse_subscribe_auth}
use payme_mock.Simulation.Sandbox.{Sandbox}
use payme_mock.Subscribe.Http.{Credentials}

pub record SandboxLookup (W : Type 0) : Type 0 where
  pub by_slug : Text → W → Result Sandbox
  pub by_merchant_id : Text → W → Result Sandbox

-- `configID`
abbrev pub config_id : Option ℤ → ℤ
config_id none = pos 0
config_id (some id) = id

-- `scoped` of cmd/paymemock, which leaves the kind out.
unfoldable pub scoped : Sandbox → Http.Sandbox
scoped s = record {
  id = s.id;
  slug = s.slug;
  merchant_id = s.merchant_id;
  merchant_name = s.merchant_name;
  key = s.key;
  test_key = s.test_key;
  config_id = config_id s.config_id;
  kind = [];
}

-- The context of cmd/merchant's `resolveSandbox`, which leaves the merchant's name out.
unfoldable pub scoped_merchant : Sandbox → Http.Sandbox
scoped_merchant s = record {
  id = s.id;
  slug = s.slug;
  merchant_id = s.merchant_id;
  merchant_name = [];
  key = s.key;
  test_key = s.test_key;
  config_id = config_id s.config_id;
  kind = s.kind;
}

-- `writeResolveError`
abbrev pub resolve_error : Error → Answer
resolve_error e = if is_not_found e then http_error (pos 404) (text "Not Found") else internal_error

module _ {W : Type 0} (lookup : SandboxLookup W) where
  entered : (Sandbox → Http.Sandbox) → Result Sandbox → Handler W → Handler W
  entered scope (err e) next r w = (resolve_error e, r, w)
  entered scope (ok s) next r w = next (record r { sandbox = some (scope s) }) w

  -- `resolveSandbox` of cmd/merchant and of cmd/paymemock; the slug is the path's.
  unfoldable pub resolve_merchant : Text → Handler W → Handler W
  unfolding entered scoped_merchant
  resolve_merchant slug next r w = entered scoped_merchant (lookup.by_slug slug w) next r w

  unfoldable pub resolve_sandbox : Text → Handler W → Handler W
  unfolding entered scoped
  resolve_sandbox slug next r w = entered scoped (lookup.by_slug slug w) next r w

  module _ {R : Type 0} (json : Json R) where
    -- `writeUnauthorized`, whose body is marshalled without the encoder's line end; `encode` stands
    -- for both.
    abbrev pub write_unauthorized : Answer
    write_unauthorized =
        Answer.reply status_ok (text "application/json")
          (json.encode (with_version (new_error [] err_unauthorized)))

    unfoldable pub entered_by_id : Result Sandbox → Handler W → Handler W
    unfolding scoped
    entered_by_id (err e) next r w =
        if is_not_found e then (write_unauthorized, r, w) else (resolve_error e, r, w)
    entered_by_id (ok s) next r w = next (record r { sandbox = some (scoped s) }) w

    unfoldable pub by_auth : Option SubscribeAuth → Handler W → Handler W
    unfolding entered_by_id
    by_auth none next r w = (write_unauthorized, r, w)
    by_auth (some auth) next r w = entered_by_id (lookup.by_merchant_id auth.merchant_id w) next r w

    -- `resolveSandboxByAuth`
    unfoldable pub resolve_sandbox_by_auth : Handler W → Handler W
    unfolding by_auth
    resolve_sandbox_by_auth next r w =
        by_auth (parse_subscribe_auth (header (text "X-Auth") r)) next r w

-- sandboxctx.ErrNoSandbox
abbrev pub err_no_sandbox : Error
err_no_sandbox = Error.other "no sandbox in context"

abbrev pub credentials_of : Option Http.Sandbox → Result Credentials
credentials_of none = err err_no_sandbox
credentials_of (some s) = ok (record { merchant_id = s.merchant_id; key = s.test_key })

abbrev pub key_of : Option Http.Sandbox → Result Text
key_of none = err err_no_sandbox
key_of (some s) = ok s.key

-- `resolveCredentials`
abbrev pub resolve_credentials : {W : Type 0} → Request → W → Result Credentials
resolve_credentials r w = credentials_of r.sandbox

-- `resolveKey`
abbrev pub resolve_key : {W : Type 0} → Request → W → Result Text
resolve_key r w = key_of r.sandbox
