-- ===== src/Programs/Handlers.antt =====
-- cmd/merchant/handler.go: the cache of handlers, one for each profile and kind of register.
pub mod Cached
use payme_mock.Base.{
  ◌≡◌, ◌↔◌, true, Bool, ◌&&◌, Option, none, some, List, [], ◌∷◌, arith, if◌then◌else◌,
}
use payme_mock.Base.Int.{ℤ, pos, eq_ℤ, eq_ℤ_iff}
use payme_mock.Base.Text.{Text, eq_text, eq_text_iff}
use payme_mock.Base.Dict.{Dict, Eq, lookup, insert}
use payme_mock.Kernel.Effect.{Error, Result, ok, err}
use payme_mock.Kernel.JsonRpc.{Json}
use payme_mock.Kernel.Http.{Request, Answer, Handler, Sandbox, internal_error}
use payme_mock.Simulation.Config as Config
use payme_mock.Simulation.Config.{default_settings}
use payme_mock.Merchant.Ports.{Ports, Settings}
use payme_mock.Merchant.Http.{Reply, Decoders, router, serve}
use payme_mock.Programs.Resolve.{resolve_key}

pub record RegisterKey : Type 0 where
  pub config_id : ℤ
  pub kind : Text

abbrev pub key_of : ℤ → Text → RegisterKey
key_of config kind = record { config_id = config; kind = kind }

abbrev pub same_key : RegisterKey → RegisterKey → Bool
same_key a b = eq_ℤ a.config_id b.config_id && eq_text a.kind b.kind

pub same_key_iff : (a b : RegisterKey) → (same_key a b ≡ true) ↔ (a ≡ b)
same_key_iff a b = ground (arith, eq_ℤ_iff a.config_id b.config_id, eq_text_iff a.kind b.kind)

instance abbrev pub register_key_eq : Eq RegisterKey
register_key_eq = record { beq = same_key; beq_iff = same_key_iff }

-- `raw` is the query for a profile's settings, and `unmarshal` json.Unmarshal onto given ones.
pub record Profiles (W : Type 0) : Type 0 where
  pub raw : ℤ → W → Result Text
  pub unmarshal : Config.Settings → Text → Option Config.Settings

-- What a handler is wired to. The repositories scope themselves by the stand of the request.
pub record Dependencies (W : Type 0) : Type 0 where
  pub ports : Option Sandbox → Ports W
  pub json : Json Reply
  pub decoders : Decoders
  pub profiles : Profiles W

-- The handlers that were built.
abbrev pub Built : Type 0 → Type 0
Built W = Dict RegisterKey (Handler W)

module _ {W : Type 0} (profiles : Profiles W) where
  abbrev unmarshalled : Option Config.Settings → Result Config.Settings
  unmarshalled none = err (Error.other "decode profile")
  unmarshalled (some s) = ok s

  abbrev decoded : Result Text → Result Config.Settings
  decoded (err e) = err (Error.other "load profile")
  decoded (ok raw) = unmarshalled (profiles.unmarshal default_settings raw)

  -- `loadSettings`
  unfoldable pub load_settings : ℤ → W → Result Config.Settings
  load_settings id w = if eq_ℤ id (pos 0) then ok default_settings else decoded (profiles.raw id w)

module _ {W : Type 0} (deps : Dependencies W) where
  abbrev pub service_settings : Config.Settings → Text → Settings
  service_settings s kind = record {
    transaction_timeout_millis = s.transaction_timeout_millis;
    account_field = s.account_field;
    register_kind = kind;
    auto_register_accounts = s.auto_register_accounts;
  }

  -- `NewHandler` of the `NewService`
  unfoldable pub build : Config.Settings → Text → Handler W
  build s kind r w =
      serve deps.json (router (deps.ports r.sandbox) (service_settings s kind) deps.decoders)
        resolve_key r w

  abbrev pub built_for : ℤ → Text → Result Config.Settings → Built W → Result (Handler W) × Built W
  built_for config kind (err e) built = (err e, built)
  built_for config kind (ok s) built =
      (ok (build s kind), insert (key_of config kind) (build s kind) built)

  abbrev pub found_for : ℤ → Text → Option (Handler W) → Built W → W → Result (Handler W) × Built W
  found_for config kind (some handler) built w = (ok handler, built)
  found_for config kind none built w =
      built_for config kind (load_settings deps.profiles config w) built

  -- `forRegister`
  unfoldable pub for_register : ℤ → Text → Built W → W → Result (Handler W) × Built W
  for_register config kind built w =
      found_for config kind (lookup (key_of config kind) built) built w

  abbrev pub delegated : Result (Handler W) → Handler W
  delegated (err e) r w = (internal_error, r, w)
  delegated (ok handler) r w = handler r w

  abbrev pub serve_scoped :
      Option Sandbox → Built W → Request → W → (Answer × Request × W) × Built W
  serve_scoped none built r w = ((internal_error, r, w), built)
  serve_scoped (some s) built r w =
      let (handler, built') = for_register s.config_id s.kind built w in
      (delegated handler r w, built')

  -- `ServeHTTP`; the second part of the result is the cache behind the call.
  unfoldable pub serve_cached : Built W → Request → W → (Answer × Request × W) × Built W
  serve_cached built r w = serve_scoped r.sandbox built r w
