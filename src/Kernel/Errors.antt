-- ===== src/Kernel/Errors.antt =====
-- internal/kernel/errors: the protocol's error codes, the three-language message, the error that
-- carries both, and the catalog of documented errors.
use payme_mock.Base.{String, Bool, Option, none, some, List, [], ◌∷◌, not, ◌&&◌, if◌then◌else◌}
use payme_mock.Base.Int.{ℤ, minus, eq_ℤ, leb_ℤ}
use payme_mock.Base.Text.{Text}
use text.Mathlib.Text.{◌==◌ as str_eq}

-- An `int` of Go.
abbrev pub Code : Type 0
Code = ℤ

abbrev pub code_parse : Code
code_parse = minus 32700

abbrev pub code_invalid_request : Code
code_invalid_request = minus 32600

abbrev pub code_method_not_found : Code
code_method_not_found = minus 32601

abbrev pub code_unauthorized : Code
code_unauthorized = minus 32504

abbrev pub code_transport : Code
code_transport = minus 32400

abbrev pub code_invalid_http : Code
code_invalid_http = minus 32300

abbrev pub code_invalid_amount : Code
code_invalid_amount = minus 31001

abbrev pub code_transaction_not_fnd : Code
code_transaction_not_fnd = minus 31003

abbrev pub code_order_completed : Code
code_order_completed = minus 31007

abbrev pub code_cannot_perform : Code
code_cannot_perform = minus 31008

abbrev pub code_account_min : Code
code_account_min = minus 31099

abbrev pub code_account_max : Code
code_account_max = minus 31050

unfoldable pub is_account_code : Code → Bool
is_account_code c = leb_ℤ code_account_min c && leb_ℤ c code_account_max

pub record Message : Type 0 where
  pub ru : String
  pub uz : String
  pub en : String

abbrev pub new_message : String → String → String → Message
new_message ru uz en = record { ru = ru; uz = uz; en = en }

-- The language tag is text from the caller; any tag but the two falls back to Russian.
unfoldable pub localize : Message → String → String
localize m lang = if str_eq lang "uz" then m.uz else if str_eq lang "en" then m.en else m.ru

abbrev is_blank : String → Bool
is_blank s = str_eq s ""

unfoldable pub complete : Message → Bool
complete m = not (is_blank m.ru) && (not (is_blank m.uz) && not (is_blank m.en))

-- `data` names the account field at fault, and is empty otherwise.
pub record ProtocolError : Type 0 where
  pub code : Code
  pub message : Message
  pub field : Text

abbrev pub new_error : Code → Message → Text → ProtocolError
new_error c m d = record { code = c; message = m; field = d }

abbrev pub with_data : ProtocolError → Text → ProtocolError
with_data e f = record e { field = f }

abbrev pub with_message : ProtocolError → Message → ProtocolError
with_message e m = record e { message = m }

-- `ProtocolError.Is`, against another protocol error.
abbrev pub same_code : ProtocolError → ProtocolError → Bool
same_code e f = eq_ℤ e.code f.code

abbrev pub err_parse : ProtocolError
err_parse =
    new_error code_parse
      (new_message "Ошибка парсинга JSON" "JSON tahlil qilishda xatolik" "JSON parsing error") []

abbrev pub err_invalid_request : ProtocolError
err_invalid_request =
    new_error code_invalid_request
      (new_message "Отсутствует обязательное поле" "Majburiy maydon yo'q"
        "Required field is missing")
      []

abbrev pub err_method_not_found : ProtocolError
err_method_not_found =
    new_error code_method_not_found
      (new_message "Запрашиваемый метод не найден" "So'ralgan metod topilmadi"
        "Requested method was not found")
      []

abbrev pub err_unauthorized : ProtocolError
err_unauthorized =
    new_error code_unauthorized
      (new_message "Недостаточно привилегий для выполнения метода"
        "Metodni bajarish uchun huquqlar yetarli emas"
        "Insufficient privileges to execute the method")
      []

abbrev pub err_transport : ProtocolError
err_transport =
    new_error code_transport (new_message "Системная ошибка" "Tizim xatosi" "System error") []

abbrev pub err_invalid_http_method : ProtocolError
err_invalid_http_method =
    new_error code_invalid_http
      (new_message "Неверный HTTP метод" "Noto'g'ri HTTP metod" "Invalid HTTP method") []

abbrev pub err_invalid_amount : ProtocolError
err_invalid_amount =
    new_error code_invalid_amount (new_message "Неверная сумма" "Noto'g'ri summa" "Invalid amount")
      []

abbrev pub err_transaction_not_found : ProtocolError
err_transaction_not_found =
    new_error code_transaction_not_fnd
      (new_message "Транзакция не найдена" "Tranzaksiya topilmadi" "Transaction not found") []

abbrev pub err_order_completed : ProtocolError
err_order_completed =
    new_error code_order_completed
      (new_message "Заказ выполнен. Невозможно отменить транзакцию"
        "Buyurtma bajarilgan. Tranzaksiyani bekor qilib bo'lmaydi"
        "Order completed. Cannot cancel transaction")
      []

abbrev pub err_cannot_perform : ProtocolError
err_cannot_perform =
    new_error code_cannot_perform
      (new_message "Невозможно выполнить данную операцию" "Ushbu operatsiyani bajarib bo'lmaydi"
        "Unable to perform this operation")
      []

abbrev pub err_account_not_found : ProtocolError
err_account_not_found =
    new_error code_account_max
      (new_message "Неверный код заказа" "Buyurtma kodi noto'g'ri" "Invalid order code") []

unfoldable pub catalog : List ProtocolError
catalog =
    err_parse ∷ err_invalid_request ∷ err_method_not_found ∷ err_unauthorized ∷ err_transport
    ∷ err_invalid_http_method ∷ err_invalid_amount ∷ err_transaction_not_found ∷ err_order_completed
    ∷ err_cannot_perform ∷ err_account_not_found ∷ []

-- The loop of `ByCode` over a catalog.
unfoldable pub find_code : Code → List ProtocolError → Option ProtocolError
find_code c [] = none
find_code c (e ∷ es) = if eq_ℤ e.code c then some e else find_code c es

unfoldable pub by_code : Code → Option ProtocolError
unfolding find_code catalog
by_code c = find_code c catalog
