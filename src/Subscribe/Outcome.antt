-- ===== src/Subscribe/Outcome.antt =====
-- subscribe/domain/outcome.go: what a card is rigged to do, and where it came from.
use payme_mock.Base.{String, Bool, true, false, Option, none, some}
use payme_mock.Base.Text.{Text}
use payme_mock.Kernel.Errors.{
  ProtocolError, with_message, new_message, err_cannot_perform, err_transport,
}

-- The type is a string; `other` is any text but the six.
pub data Outcome : Type 0 where
  success insufficient_funds blocked expired verify_failed system_error : Outcome
  other : Text → Outcome

unfoldable pub outcome_valid : Outcome → Bool
outcome_valid (Outcome.other s) = false
outcome_valid Outcome.success = true
outcome_valid Outcome.insufficient_funds = true
outcome_valid Outcome.blocked = true
outcome_valid Outcome.expired = true
outcome_valid Outcome.verify_failed = true
outcome_valid Outcome.system_error = true

unfoldable pub label : Outcome → String
label Outcome.insufficient_funds = "insufficient funds"
label Outcome.blocked = "blocked"
label Outcome.expired = "expired"
label Outcome.verify_failed = "verification fails"
label Outcome.system_error = "system error"
label Outcome.success = "success"
label (Outcome.other s) = "success"

-- `Outcome.Err`; `none` is nil.
unfoldable pub outcome_err : Outcome → Option ProtocolError
outcome_err Outcome.insufficient_funds = some (
    with_message err_cannot_perform (
      new_message "На карте недостаточно средств" "Kartada mablag' yetarli emas"
        "Insufficient funds on the card"))
outcome_err Outcome.blocked = some (
    with_message err_cannot_perform
      (new_message "Карта заблокирована" "Karta bloklangan" "The card is blocked"))
outcome_err Outcome.expired = some (
    with_message err_cannot_perform (
      new_message "Срок действия карты истёк" "Kartaning amal qilish muddati tugagan"
        "The card has expired"))
outcome_err Outcome.verify_failed = some (
    with_message err_cannot_perform (
      new_message "Не удалось подтвердить карту" "Kartani tasdiqlab bo'lmadi"
        "The card could not be verified"))
outcome_err Outcome.system_error = some (
    with_message err_transport
      (new_message "Неизвестная системная ошибка" "Noma'lum tizim xatosi" "Unknown system error"))
outcome_err Outcome.success = none
outcome_err (Outcome.other s) = none

unfoldable pub blocks_everything : Outcome → Bool
blocks_everything Outcome.blocked = true
blocks_everything Outcome.expired = true
blocks_everything Outcome.system_error = true
blocks_everything Outcome.success = false
blocks_everything Outcome.insufficient_funds = false
blocks_everything Outcome.verify_failed = false
blocks_everything (Outcome.other s) = false

abbrev pub is_verify_failed : Outcome → Bool
is_verify_failed Outcome.verify_failed = true
is_verify_failed Outcome.success = false
is_verify_failed Outcome.insufficient_funds = false
is_verify_failed Outcome.blocked = false
is_verify_failed Outcome.expired = false
is_verify_failed Outcome.system_error = false
is_verify_failed (Outcome.other s) = false

-- The type is a string; `other` is any text but the two.
pub data Source : Type 0 where
  api console : Source
  other : Text → Source

unfoldable pub from_console : Source → Bool
from_console Source.console = true
from_console Source.api = false
from_console (Source.other s) = false
