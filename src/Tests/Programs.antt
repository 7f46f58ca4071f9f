-- ===== src/Tests/Programs.antt =====
-- A call to the address that two stands share.
use payme_mock.Base.{◌≡◌, refl, true, false, none, [], ◌∷◌, arith, if◌then◌else◌}
use payme_mock.Base.Int.{pos}
use payme_mock.Base.Text.{Text, text, eq_text}
use payme_mock.Base.Dict.{lookup}
use payme_mock.Kernel.Effect.{ok, err, Error}
use payme_mock.Kernel.Http.{Request, header}
use payme_mock.Kernel.Http.Reading.{whole}
use payme_mock.Simulation.Sandbox.{Sandbox}
use payme_mock.Subscribe.Inmem.{Stand}
use payme_mock.Subscribe.Http as SubscribeHttp
use payme_mock.Subscribe.Http.Access.{Caller, x_auth, may_call, dispatched}
use payme_mock.Programs.Resolve.{SandboxLookup, resolve_sandbox_by_auth, resolve_credentials}
use payme_mock.Programs.Resolve.Isolation.{stand_handler, credentials, in_stand, resolve-x_auth}
use payme_mock.Tests.Subscribe.{stand}
use payme_mock.Tests.Http.{views, subscribe_methods, from_page}

abbrev stand_named : Text → Sandbox
stand_named id = record {
  id = pos 1;
  slug = text "demo";
  name = text "demo";
  merchant_id = id;
  key = text "production";
  test_key = text "test";
  config_id = none;
  archived = false;
  kind = [];
  merchant_name = [];
  merchant_group = [];
}

-- The register m1 is here, and so is every other.
abbrev stands : SandboxLookup Stand
stands = record {
  by_slug = λ slug w. err Error.not_found;
  by_merchant_id = λ id w. ok (stand_named id);
}

abbrev backend : Caller
backend = Caller.server (text "m1") (text "test")

abbrev from_backend : Request
from_backend = record from_page { headers = (text "X-Auth", text "m1:test") ∷ [] }

header-from_backend : header (text "X-Auth") from_backend ≡ x_auth backend
unfolding header lookup eq_text
header-from_backend = refl

abbrev m1 : Sandbox
m1 = stand_named (text "m1")

resolve-x_auth_example :
    resolve_sandbox_by_auth stands views
      (stand_handler stands views (λ s. subscribe_methods))
      (record from_backend { body = whole (text "receipts.get") })
      stand
    ≡ (if may_call (credentials m1) backend (text "receipts.get")
        then dispatched views subscribe_methods resolve_credentials
            (text "receipts.get")
            (in_stand m1 from_backend)
            stand
        else (
          SubscribeHttp.unauthorized views subscribe_methods resolve_credentials
              (text "receipts.get"),
          record (in_stand m1 from_backend) { body = whole [] },
          stand,
        ))
resolve-x_auth_example =
    resolve-x_auth stands views (λ s. subscribe_methods) from_backend backend (text "receipts.get")
      m1 stand refl header-from_backend (refl, omega arith, omega arith, omega arith) (omega arith)
      refl

backend_enters : may_call (credentials m1) backend (text "receipts.get") ≡ true
unfolding eq_text
backend_enters = refl

-- The production key does not open the Subscribe API.
production_key_refused :
    may_call (credentials m1) (Caller.server (text "m1") (text "production")) (text "receipts.get")
    ≡ false
unfolding eq_text
production_key_refused = refl
