-- ===== src/Programs/Stands.antt =====
-- cmd/paymemock/handler.go: the cache of handlers, one for each stand and profile, and the scheduler's
-- step, which each handler that is built attaches.
use payme_mock.Base.{◌≡◌, ◌↔◌, true, Bool, ◌&&◌, Option, none, some, ◌++◌, arith}
use payme_mock.Base.Int.{ℤ, eq_ℤ, eq_ℤ_iff}
use payme_mock.Base.Text.{Text, text}
use payme_mock.Base.Strings.{trim_suffix}
use payme_mock.Base.Dict.{Dict, Eq, lookup, insert}
use payme_mock.Kernel.Effect.{Result, ok, err, Action}
use payme_mock.Kernel.JsonRpc.{Json}
use payme_mock.Kernel.Http.{Request, Answer, Handler, Sandbox, internal_error}
use payme_mock.Simulation.Config as Config
use payme_mock.Subscribe.Ports.{Ports, Settings}
use payme_mock.Subscribe.Receipts.{advance_receipt}
use payme_mock.Subscribe.Http.{Reply, Decoders, router, serve}
use payme_mock.Programs.Resolve.{resolve_credentials}
use payme_mock.Programs.Handlers.{Profiles, load_settings}

pub record CacheKey : Type 0 where
  pub sandbox_id : ℤ
  pub config_id : ℤ

abbrev pub same_key : CacheKey → CacheKey → Bool
same_key a b = eq_ℤ a.sandbox_id b.sandbox_id && eq_ℤ a.config_id b.config_id

pub same_key_iff : (a b : CacheKey) → (same_key a b ≡ true) ↔ (a ≡ b)
same_key_iff a b =
    ground (arith, eq_ℤ_iff a.sandbox_id b.sandbox_id, eq_ℤ_iff a.config_id b.config_id)

instance abbrev pub cache_key_eq : Eq CacheKey
cache_key_eq = record { beq = same_key; beq_iff = same_key_iff }

-- What a handler is wired to: the ports of a service whose merchant client has an endpoint and a key,
-- for a call in the stand of its context.
pub record Dependencies (W : Type 0) : Type 0 where
  pub ports : Text → Text → Option Sandbox → Ports W
  pub json : Json Reply
  pub decoders : Decoders
  pub profiles : Profiles W
  pub merchant_base : Text

-- A step of a receipt, in the stand of its context.
abbrev pub Advance : Type 0 → Type 0
Advance W = Option Sandbox → Text → Action W (Unit {0})

-- The handlers that were built, and the step that the scheduler runs, of which there is one for all.
pub record Program (W : Type 0) : Type 0 where
  pub built : Dict CacheKey (Handler W)
  pub advance : Option (Advance W)

module _ {W : Type 0} (deps : Dependencies W) where
  -- `merchantEndpoint`
  abbrev pub merchant_endpoint : Text → Text
  merchant_endpoint slug =
      trim_suffix b'/' deps.merchant_base ++ (text "/s/" ++ (slug ++ text "/payme/merchant"))

  abbrev pub service_settings : Config.Settings → Sandbox → Settings
  service_settings t s = record {
    sandbox_id = s.id;
    merchant_id = s.merchant_id;
    merchant_name = s.merchant_name;
    verify_code = t.card_verify_code;
    verify_wait_millis = t.card_verify_wait_millis;
    step_delay_millis = t.step_delay_millis;
    hold_window_millis = t.hold_window_millis;
    card_balance = t.card_balance;
  }

  abbrev pub service_ports : Sandbox → Option Sandbox → Ports W
  service_ports s scope = deps.ports (merchant_endpoint s.slug) s.key scope

  -- `NewHandler` of the `NewService`
  unfoldable pub build : Config.Settings → Sandbox → Handler W
  build t s r w =
      serve deps.json (router (service_ports s r.sandbox) (service_settings t s) deps.decoders)
        resolve_credentials r w

  -- `service.AdvanceReceipt`
  abbrev pub step : Config.Settings → Sandbox → Advance W
  step t s scope id = advance_receipt (service_ports s scope) (service_settings t s) id

  abbrev pub key_of : Sandbox → CacheKey
  key_of s = record { sandbox_id = s.id; config_id = s.config_id }

  abbrev pub built_for :
      Sandbox → Result Config.Settings → Program W → Result (Handler W) × Program W
  built_for s (err e) p = (err e, p)
  built_for s (ok t) p = (
    ok (build t s),
    record { built = insert (key_of s) (build t s) p.built; advance = some (step t s) },
  )

  abbrev pub found_for :
      Sandbox → Option (Handler W) → Program W → W → Result (Handler W) × Program W
  found_for s (some handler) p w = (ok handler, p)
  found_for s none p w = built_for s (load_settings deps.profiles s.config_id w) p

  -- `forSandbox`
  unfoldable pub for_sandbox : Sandbox → Program W → W → Result (Handler W) × Program W
  for_sandbox s p w = found_for s (lookup (key_of s) p.built) p w

  abbrev pub delegated : Result (Handler W) → Handler W
  delegated (err e) r w = (internal_error, r, w)
  delegated (ok handler) r w = handler r w

  abbrev pub serve_scoped :
      Option Sandbox → Program W → Request → W → (Answer × Request × W) × Program W
  serve_scoped none p r w = ((internal_error, r, w), p)
  serve_scoped (some s) p r w = let (handler, p') = for_sandbox s p w in (delegated handler r w, p')

  -- `ServeHTTP`; the second part of the result is the program behind the call.
  unfoldable pub serve_stand : Program W → Request → W → (Answer × Request × W) × Program W
  serve_stand p r w = serve_scoped r.sandbox p r w

-- A step that waits for its time: the function that was attached when it was queued, and the stand
-- and the receipt that it was queued for.
pub record Queued (W : Type 0) : Type 0 where
  pub advance : Advance W
  pub scope : Option Sandbox
  pub receipt_id : Text

abbrev pub queued : {W : Type 0} → Option (Advance W) → Option Sandbox → Text → Option (Queued W)
queued none scope id = none
queued (some advance) scope id = some (record { advance = advance; scope = scope; receipt_id = id })

-- `ScheduleAdvance`; with nothing attached the step is dropped.
unfoldable pub schedule_advance :
    {W : Type 0} → Program W → Option Sandbox → Text → Option (Queued W)
schedule_advance p scope id = queued p.advance scope id

-- The queued step, when its time comes; its error is only logged.
unfoldable pub run_step : {W : Type 0} → Queued W → W → W
run_step q w = (q.advance q.scope q.receipt_id w).1
