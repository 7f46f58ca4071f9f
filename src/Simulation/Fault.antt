-- ===== src/Simulation/Fault.antt =====
-- simulation/fault/domain/rule.go: the fault rules and what they match. Float64 is a type `F`, and
-- path.Match is an argument: `none` is its error on a malformed pattern.
pub mod Engine
use payme_mock.Base.{
  String, Bool, true, false, not, ◌&&◌, ◌||◌, Option, none, some, List, [], ◌∷◌, if◌then◌else◌,
}
use payme_mock.Base.Int.{ℤ, pos, ltb_ℤ, leb_ℤ, eq_ℤ}
use payme_mock.Base.Text.{Text, text, eq_text, is_empty}
use payme_mock.Base.Dict.{Dict, lookup, text_eq}
use payme_mock.Kernel.Errors.{
  Code, Message, ProtocolError, complete, new_error, by_code, with_data, err_transport,
}

-- The type is a string.
abbrev pub Service : Type 0
Service = Text

abbrev pub service_any : Service
service_any = text "*"

-- The type is a string; `unknown` is any text but the seven.
pub data Action : Type 0 where
  delay rpc_error http_status malformed drop duplicate passthrough : Action
  unknown : Text → Action

unfoldable pub action_valid : Action → Bool
action_valid (Action.unknown s) = false
action_valid _ = true

pub record Rule (F : Type 0) : Type 0 where
  pub id : ℤ
  pub name : Text
  pub enabled : Bool
  pub priority : ℤ
  pub config_id : ℤ
  pub sandbox_id : Option ℤ
  pub service : Service
  pub method : Text
  pub match_account : Dict Text Text
  pub match_payme_id : Text
  pub amount_min : Option ℤ
  pub amount_max : Option ℤ
  pub action : Action
  pub delay_millis : ℤ
  pub error_code : Code
  pub error_message : Message
  pub error_data : Text
  pub http_status : ℤ
  pub probability : F
  pub times_left : Option ℤ
  pub hit_count : ℤ
  pub note : Text

pub record Request : Type 0 where
  pub service : Service
  pub method : Text
  pub sandbox_id : ℤ
  pub account : Dict Text Text
  pub payme_id : Text
  pub amount : ℤ

abbrev no_error : Option Bool → Bool
no_error none = false
no_error (some b) = b

abbrev same_sandbox : Option ℤ → ℤ → Bool
same_sandbox none id = true
same_sandbox (some n) id = eq_ℤ n id

abbrev not_below : Option ℤ → ℤ → Bool
not_below none n = true
not_below (some low) n = not (ltb_ℤ n low)

abbrev not_above : Option ℤ → ℤ → Bool
not_above none n = true
not_above (some high) n = not (ltb_ℤ high n)

-- `Exhausted`
abbrev spent : Option ℤ → Bool
spent none = false
spent (some left) = leb_ℤ left (pos 0)

-- What stands for the error where the rule has no complete message of its own.
abbrev known_error : Option ProtocolError → Code → Text → ProtocolError
known_error (some e) code d = if is_empty d then e else with_data e d
known_error none code d = new_error code err_transport.message d

module _ {F : Type 0} where
  unfoldable pub exhausted : Rule F → Bool
  exhausted r = spent r.times_left

  -- `Rule.ProtocolError`
  unfoldable pub protocol_error : Rule F → ProtocolError
  unfolding complete by_code
  protocol_error r =
      if complete r.error_message
      then new_error r.error_code r.error_message r.error_data
      else known_error (by_code r.error_code) r.error_code r.error_data

module _ (path_match : Text → Text → Option Bool) where
  unfoldable pub match_glob : Text → Text → Bool
  unfolding eq_text
  match_glob pattern value =
      if is_empty pattern || eq_text pattern (text "*")
      then true
      else no_error (path_match pattern value)

  field_matches : Option Text → Text → Bool
  unfolding match_glob
  field_matches none pattern = false
  field_matches (some value) pattern = match_glob pattern value

  -- `matchesAccount`: the order of the map is not fixed, and does not matter to a conjunction.
  unfoldable pub matches_account : Dict Text Text → Dict Text Text → Bool
  unfolding field_matches lookup
  matches_account [] account = true
  matches_account ((field, wanted) ∷ rest) account =
      field_matches (lookup field account) wanted && matches_account rest account

  unfoldable pub matches : {F : Type 0} → Rule F → Request → Bool
  unfolding match_glob matches_account eq_text
  matches r req =
      r.enabled
      && (same_sandbox r.sandbox_id req.sandbox_id
          && ((eq_text r.service service_any || eq_text r.service req.service)
              && (match_glob r.method req.method
                  && ((is_empty r.match_payme_id || match_glob r.match_payme_id req.payme_id)
                      && (not_below r.amount_min req.amount
                          && (not_above r.amount_max req.amount
                              && matches_account r.match_account req.account))))))
