-- ===== src/Subscribe/Card.antt =====
-- subscribe/domain/card.go: the tokenized card, its verification and its balance.
pub mod Laws
pub mod Texts
use payme_mock.Base.{
  ℕ, ◌-◌, Bool, true, false, not, ◌&&◌, ◌||◌, Option, none, some, List, [], ◌∷◌, ◌++◌, ltb, ◌==◌,
  if◌then◌else◌,
}
use payme_mock.Base.Int.{ℤ, pos, ltb_ℤ, leb_ℤ}
use payme_mock.Base.Int64.{add64, sub64}
use payme_mock.Base.Text.{
  Text, text, length, take, drop, replicate, eq_text, is_empty, remove_all, has_prefix,
}
use payme_mock.Base.Dict.{Dict}
use payme_mock.Kernel.Errors.{ProtocolError, err_cannot_perform, with_message, new_message}
use payme_mock.Kernel.Effect.{Result, ok, err, fail, Action, ◌>>=◌, ◌>>◌, lift}
use payme_mock.Subscribe.Outcome.{
  Outcome, outcome_err, blocks_everything, is_verify_failed, Source, from_console,
}

-- `CardSystem` of receipt.go: a string, of which the program makes these two.
pub data CardSystem : Type 0 where
  uzcard humo : CardSystem

pub record Card : Type 0 where
  pub id : ℤ
  pub sandbox_id : ℤ
  pub token : Text
  pub number_full : Text
  pub expire : Text
  pub recurrent : Bool
  pub verify : Bool
  pub verify_code : Text
  pub phone : Text
  pub balance : ℤ
  pub removed : Bool
  pub outcome : Outcome
  pub source : Source
  pub sms_enabled : Bool
  pub frozen : Bool
  pub delay_millis : ℤ
  pub account : Dict Text Text
  pub customer : Text
  pub verify_code_sent_at : ℤ
  pub verify_wait_millis : ℤ
  pub registered_at : ℤ

-- `Card.Register`
unfoldable pub register : ℤ → Card → Card
register now c = record c { registered_at = now }

abbrev pub default_verify_wait_millis : ℤ
default_verify_wait_millis = pos 60000

unfoldable pub mask_number : Text → Text
mask_number number =
    if ltb (length number) 10
    then number
    else take 6 number ++ (replicate (length number - 10) b'*' ++ drop (length number - 4) number)

unfoldable pub plain_expire : Text → Text
unfolding remove_all
plain_expire expire = remove_all b'/' expire

unfoldable pub format_expire : Text → Text
format_expire expire =
    if not (length expire == 4) then expire else take 2 expire ++ (b'/' ∷ drop 2 expire)

unfoldable pub detect_system : Text → CardSystem
unfolding has_prefix
detect_system number =
    if has_prefix number (text "9860") then CardSystem.humo else CardSystem.uzcard

unfoldable pub number_mask : Card → Text
unfolding mask_number
number_mask c = mask_number c.number_full

unfoldable pub system : Card → CardSystem
unfolding detect_system
system c = detect_system c.number_full

abbrev pub default_verify_code : Text
default_verify_code = text "666666"

unfoldable pub expiry_code : Text → Text
unfolding remove_all
expiry_code expire =
    let digits = remove_all b'/' expire in
    if not (length digits == 4) then [] else digits ++ drop 2 digits

-- `ExpectedVerifyCode`
unfoldable pub expected_verify_code : Text → Card → Text
unfolding from_console expiry_code
expected_verify_code shared c =
    if from_console c.source && not (is_empty shared)
    then shared
    else if not (is_empty (expiry_code c.expire))
    then expiry_code c.expire
    else shared

unfoldable pub send_verify_code : Text → ℤ → ℤ → Card → Card
send_verify_code code now wait_millis c = record c {
  verify_code = code;
  verify_code_sent_at = now;
  verify_wait_millis = wait_millis;
}

-- A nil error is success.
abbrev pub of_error : Option ProtocolError → Result (Unit {0})
of_error none = ok tt
of_error (some e) = fail e

unfoldable pub operable : Card → Result (Unit {0})
unfolding blocks_everything outcome_err
operable c =
    if c.removed
    then fail err_cannot_perform
    else if blocks_everything c.outcome
    then of_error (outcome_err c.outcome)
    else ok tt

unfoldable pub verify_expired : ℤ → Card → Bool
verify_expired now c =
    if leb_ℤ c.verify_wait_millis (pos 0)
    then false
    else ltb_ℤ c.verify_wait_millis (sub64 now c.verify_code_sent_at)

-- The part of `VerifyWith` after the card was found operable.
check_code : Text → ℤ → Action Card (Unit {0})
unfolding outcome_err verify_expired
check_code code now c =
    if is_verify_failed c.outcome
    then (of_error (outcome_err c.outcome), c)
    else if is_empty c.verify_code
        || (not (eq_text code c.verify_code) && not (eq_text code default_verify_code))
    then (fail err_cannot_perform, c)
    else if verify_expired now c
    then (fail err_cannot_perform, c)
    else (ok tt, record c { verify = true; verify_code = [] })

-- `VerifyWith`: the card comes back as the call left it.
unfoldable pub verify_with : Text → ℤ → Action Card (Unit {0})
unfolding operable check_code ◌>>=◌
verify_with code now c = (lift (operable c) >> check_code code now) c

-- A chain of checks: the first that fails answers.
abbrev pub and_then : Result (Unit {0}) → Result (Unit {0}) → Result (Unit {0})
and_then (ok u) k = k
and_then (err e) k = err e

-- `Card.Usable`
unfoldable pub usable : ℤ → Card → Result (Unit {0})
unfolding operable outcome_err
usable amount c = and_then (operable c) (
    and_then (of_error (outcome_err c.outcome)) (
      if not c.verify
      then fail err_cannot_perform
      else if ltb_ℤ c.balance amount
      then fail err_cannot_perform
      else ok tt))

unfoldable pub sms_reachable : Card → Result (Unit {0})
sms_reachable c =
    if c.sms_enabled
    then ok tt
    else fail (
        with_message err_cannot_perform (
          new_message "СМС-информирование не подключено" "SMS-xabarnoma ulanmagan"
            "SMS notification is not enabled"))

unfoldable pub charge : ℤ → Card → Card
charge amount c = if c.frozen then c else record c { balance = sub64 c.balance amount }

-- The unexported `credit`.
unfoldable pub credit : ℤ → Card → Card
credit amount c = if c.frozen then c else record c { balance = add64 c.balance amount }

unfoldable pub refund : ℤ → Card → Card
unfolding credit
refund amount c = credit amount c

unfoldable pub receive : ℤ → Card → Card
unfolding credit
receive amount c = credit amount c
