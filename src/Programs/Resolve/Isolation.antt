-- ===== src/Programs/Resolve/Isolation.antt =====
-- One address for every stand: resolveSandboxByAuth of cmd/paymemock/sandbox.go in front of the
-- handler of subscribe/interfaces/http.
use payme_mock.Base.{◌≡◌, refl, ◌∙◌, ◌≤◌, Option, some, [], if◌then◌else◌}
use payme_mock.Base.Text.{Text, text, length}
use payme_mock.Kernel.Effect.{ok}
use payme_mock.Kernel.JsonRpc.{Json, Router}
use payme_mock.Kernel.Http as Http
use payme_mock.Kernel.Http.{Request, Answer, Handler, header, method_post}
use payme_mock.Kernel.Http.Reading.{whole, header_body}
use payme_mock.Simulation.Sandbox.{Sandbox}
use payme_mock.Subscribe.Http.{Credentials, serve, max_body_bytes, unauthorized}
use payme_mock.Subscribe.Http.Access.{
  Caller, x_auth, IsClean, may_call, auth_for, dispatched, serve-x_auth, parse-x_auth,
}
use payme_mock.Programs.Resolve.{
  SandboxLookup, scoped, entered_by_id, by_auth, resolve_sandbox_by_auth, resolve_credentials,
}

-- What a caller names as the register's id, which is all that picks the stand.
abbrev pub id_of : Caller → Text
id_of (Caller.browser id) = id
id_of (Caller.server id key) = id

abbrev pub credentials : Sandbox → Credentials
credentials s = record { merchant_id = s.merchant_id; key = s.test_key }

abbrev pub in_stand : Sandbox → Request → Request
in_stand s r = record r { sandbox = some (scoped s) }

auth_for-id_of : (c : Caller) → (auth_for c).merchant_id ≡ id_of c
auth_for-id_of (Caller.browser id) = refl
auth_for-id_of (Caller.server id key) = refl

header-in_stand :
    (name : Text) (r : Request) (s : Sandbox) → header name (in_stand s r) ≡ header name r
unfolding header
header-in_stand name r s = refl

module _ {W R : Type 0} (lookup : SandboxLookup W) (json : Json R)
    (methods : Option Http.Sandbox → Router W R) where
  -- The handler of the stand in the request's context.
  abbrev pub stand_handler : Handler W
  stand_handler r w = serve json (methods r.sandbox) resolve_credentials r w

  -- The address that all stands share picks the stand by the id in the X-Auth header and then holds
  -- the call to that stand's own credentials, its id and its test key: a POST reaches the methods
  -- of that stand, with the stand in its context, exactly when the caller may call the method that
  -- the body names. Any other call is answered with the unauthorized error and writes nothing. The
  -- header is clean, the stand is found, and the body is within the limit and reads to its end.
  pub resolve-x_auth :
      (r : Request) (c : Caller) (bytes : Text) (s : Sandbox) (w : W)
      → r.method ≡ method_post
      → header (text "X-Auth") r ≡ x_auth c
      → IsClean c
      → length bytes ≤ max_body_bytes
      → lookup.by_merchant_id (id_of c) w ≡ ok s
      → resolve_sandbox_by_auth lookup json stand_handler (record r { body = whole bytes }) w ≡ (
          if may_call (credentials s) c (json.method_probe bytes)
          then dispatched json
              (methods (some (scoped s)))
              resolve_credentials
              bytes
              (in_stand s r)
              w
          else (
            unauthorized json (methods (some (scoped s))) resolve_credentials bytes,
            record (in_stand s r) { body = whole [] },
            w,
          ))
  unfolding resolve_sandbox_by_auth by_auth entered_by_id scoped
  resolve-x_auth r c bytes s w post sent clean fits found =
      rw
        (
          header_body (text "X-Auth") r (whole bytes),
          sent,
          parse-x_auth c clean,
          auth_for-id_of c,
          found,
        )
        (serve-x_auth json (methods (some (scoped s))) resolve_credentials (in_stand s r) c
          (credentials s) bytes w post (header-in_stand (text "X-Auth") r s ∙ sent) clean fits refl)
