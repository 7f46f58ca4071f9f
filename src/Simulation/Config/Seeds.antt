-- ===== src/Simulation/Config/Seeds.antt =====
-- internal/context/simulation/config/domain/seed.go: the built-in profiles, each with the fault
-- rules that define its behaviour.
use payme_mock.Base.{true, none, List, [], ◌∷◌}
use payme_mock.Base.Int.{ℤ, pos}
use payme_mock.Base.Text.{Text, text}
use payme_mock.Kernel.Errors.{
  Code, new_message, code_cannot_perform, code_order_completed, code_transaction_not_fnd,
  code_invalid_amount,
}
use payme_mock.Simulation.Fault.{Action, Rule, service_any}
use payme_mock.Simulation.Config.{Settings, default_settings, Profile}

pub record Seed (F : Type 0) : Type 0 where
  pub profile : Profile
  pub rules : List (Rule F)

abbrev builtin : Text → Text → Settings → Profile
builtin name description settings = record {
  id = pos 0;
  name = name;
  description = description;
  settings = settings;
  builtin = true;
}

-- The two probabilities of the rules, 1 and 0.15.
module _ {F : Type 0} (certain seldom : F) where
  -- A rule with the fields that a Go literal leaves out at zero.
  abbrev pub seeded : Text → ℤ → Text → Action → F → Rule F
  seeded name priority method action probability = record {
    id = pos 0;
    name = name;
    enabled = true;
    priority = priority;
    config_id = pos 0;
    sandbox_id = none;
    service = service_any;
    method = method;
    match_account = [];
    match_payme_id = [];
    amount_min = none;
    amount_max = none;
    action = action;
    delay_millis = pos 0;
    error_code = pos 0;
    error_message = new_message "" "" "";
    error_data = [];
    http_status = pos 0;
    probability = probability;
    times_left = none;
    hit_count = pos 0;
    note = [];
  }

  -- `errorRule`
  abbrev pub error_rule : Text → ℤ → Text → Code → Rule F
  error_rule name priority method code =
      record (seeded name priority method Action.rpc_error certain) { error_code = code }

  abbrev pub walk_in_seed : Seed F
  walk_in_seed = record {
    profile =
        builtin (text "walkin")
          (text
            "Like clean, but a payer the merchant has never seen is registered as the payment arrives.")
          (record default_settings { auto_register_accounts = true });
    rules = [];
  }

  abbrev pub clean_seed : Seed F
  clean_seed = record {
    profile =
        builtin (text "clean") (text "Nothing injected; the stand behaves like a healthy provider.")
          default_settings;
    rules = [];
  }

  abbrev pub slow_rule : Rule F
  slow_rule = record (seeded (text "two minute delay") (pos 100) (text "*") Action.delay certain) {
    delay_millis = pos 120000;
  }

  abbrev pub slow_seed : Seed F
  slow_seed = record {
    profile = builtin (text "slow") (text "Every call answers after two minutes.") default_settings;
    rules = slow_rule ∷ [];
  }

  abbrev pub flaky_rules : List (Rule F)
  flaky_rules =
      record (seeded (text "intermittent transport failure") (pos 100) (text "*") Action.http_status
        seldom) { http_status = pos 500 }
      ∷ seeded (text "intermittent duplicate delivery") (pos 110) (text "*") Action.duplicate seldom
      ∷ []

  abbrev pub flaky_seed : Seed F
  flaky_seed = record {
    profile =
        builtin (text "flaky") (text "Roughly a third of calls fail at random.") default_settings;
    rules = flaky_rules;
  }

  abbrev pub errors_rules : List (Rule F)
  errors_rules =
      error_rule (text "create refuses") (pos 100) (text "CreateTransaction") code_cannot_perform
      ∷ error_rule (text "perform refuses") (pos 110) (text "PerformTransaction")
          code_cannot_perform
      ∷ error_rule (text "cancel reports a completed order") (pos 120) (text "CancelTransaction")
          code_order_completed
      ∷ error_rule (text "check reports a missing transaction") (pos 130) (text "CheckTransaction")
          code_transaction_not_fnd
      ∷ error_rule (text "check perform rejects the amount") (pos 140)
          (text "CheckPerformTransaction") code_invalid_amount
      ∷ error_rule (text "receipts refuse") (pos 150) (text "receipts.*") code_cannot_perform
      ∷ []

  abbrev pub errors_seed : Seed F
  errors_seed = record {
    profile =
        builtin (text "errors") (text "Each method answers with its most likely protocol error.")
          default_settings;
    rules = errors_rules;
  }

  abbrev pub timeout_seed : Seed F
  timeout_seed = record {
    profile =
        builtin (text "timeout") (text "Connections are closed without a response.")
          default_settings;
    rules = seeded (text "drop the connection") (pos 100) (text "*") Action.drop certain ∷ [];
  }

  abbrev pub strict_settings : Settings
  strict_settings = record default_settings {
    transaction_timeout_millis = pos 5000;
    card_verify_wait_millis = pos 5000;
    step_delay_millis = pos 0;
  }

  abbrev pub strict_seed : Seed F
  strict_seed = record {
    profile =
        builtin (text "strict")
          (text
            "Short deadlines and duplicated writes, to surface ordering and idempotency mistakes.")
          strict_settings;
    rules =
        seeded (text "duplicate every write") (pos 100) (text "*Transaction") Action.duplicate
          certain
        ∷ [];
  }

  -- `SeedProfiles`
  unfoldable pub seed_profiles : List (Seed F)
  seed_profiles =
      clean_seed ∷ slow_seed ∷ flaky_seed ∷ errors_seed ∷ timeout_seed ∷ strict_seed ∷ walk_in_seed
      ∷ []
