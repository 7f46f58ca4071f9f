-- ===== src/Simulation/Config.antt =====
-- internal/context/simulation/config/domain/profile.go: the settings of a stand and the profile that
-- holds them. An error is `none`; all are ErrInvalid.
pub mod Seeds
use payme_mock.Base.{
  Bool, true, false, not, ◌&&◌, ◌||◌, Option, none, some, List, [], ◌∷◌, map, if◌then◌else◌,
}
use payme_mock.Base.Int.{ℤ, pos, leb_ℤ, ltb_ℤ}
use payme_mock.Base.Text.{Text, text, is_empty, eq_text}
use payme_mock.Base.Strings.{trim_space, to_lower}

pub record Settings : Type 0 where
  pub transaction_timeout_millis : ℤ
  pub account_field : Text
  pub card_verify_code : Text
  pub card_verify_wait_millis : ℤ
  pub step_delay_millis : ℤ
  pub default_delay_millis : ℤ
  pub hold_window_millis : ℤ
  pub statement_page_size : ℤ
  pub card_balance : ℤ
  pub state5_meaning : Text
  pub auto_register_accounts : Bool
  pub ip_allowlist : List Text

abbrev pub state5_hold : Text
state5_hold = text "hold"

abbrev pub state5_archived : Text
state5_archived = text "archived"

-- `DefaultSettings`
abbrev pub default_settings : Settings
default_settings = record {
  transaction_timeout_millis = pos 43200000;
  account_field = text "order_id";
  card_verify_code = text "666666";
  card_verify_wait_millis = pos 60000;
  step_delay_millis = pos 250;
  default_delay_millis = pos 0;
  hold_window_millis = pos 2592000000;
  statement_page_size = pos 1000;
  card_balance = pos 100000000;
  state5_meaning = state5_hold;
  auto_register_accounts = false;
  ip_allowlist = [];
}

-- `Settings.Validate`
unfoldable pub validate : Settings → Bool
unfolding eq_text
validate s =
    not (leb_ℤ s.transaction_timeout_millis (pos 0))
    && not (is_empty s.account_field)
    && not (is_empty s.card_verify_code)
    && not (ltb_ℤ s.step_delay_millis (pos 0))
    && not (ltb_ℤ s.default_delay_millis (pos 0))
    && not (leb_ℤ s.statement_page_size (pos 0))
    && (eq_text s.state5_meaning state5_hold || eq_text s.state5_meaning state5_archived)

pub record Profile : Type 0 where
  pub id : ℤ
  pub name : Text
  pub description : Text
  pub settings : Settings
  pub builtin : Bool

-- `NewProfile`
unfoldable pub new_profile : Text → Text → Settings → Option Profile
unfolding validate trim_space
new_profile name description settings =
    let plain = trim_space (map to_lower name) in
    if is_empty plain
    then none
    else if not (validate settings)
    then none
    else some (record {
      id = pos 0;
      name = plain;
      description = description;
      settings = settings;
      builtin = false;
    })

-- `Deletable`
abbrev pub deletable : Profile → Bool
deletable p = not p.builtin
