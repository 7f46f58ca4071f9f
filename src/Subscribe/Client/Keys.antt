-- ===== src/Subscribe/Client/Keys.antt =====
-- merchant/application/dto.go: the keys that json.Unmarshal reads of the parameters of a call.
use payme_mock.Base.{◌≡◌, refl, Option, none, some, []}
use payme_mock.Base.Int.{ℤ, pos}
use payme_mock.Base.Text.{Text, text, eq_text}
use payme_mock.Base.Dict.{Dict, lookup, text_eq}
use payme_mock.Merchant.Ports.{CreateParams}
use payme_mock.Subscribe.Client.{MerchantClient, Params, Value, id_params, create_params}

-- What json.Unmarshal makes of a key of an object: the zero value where it is missing, and an error
-- where the value has another type.
abbrev text_at : Option Value → Option Text
text_at none = some []
text_at (some (Value.string s)) = some s
text_at (some _) = none

abbrev number_at : Option Value → Option ℤ
number_at none = some (pos 0)
number_at (some (Value.number n)) = some n
number_at (some _) = none

abbrev object_at : Option Value → Option (Dict Text Text)
object_at none = some []
object_at (some (Value.object o)) = some o
object_at (some _) = none

abbrev create_of : Option Text → Option ℤ → Option ℤ → Option (Dict Text Text) → Option CreateParams
create_of (some id) (some time) (some amount) (some account) =
    some (record { id = id; time = time; amount = amount; account = account })
create_of _ _ _ _ = none

-- The keys of `CreateParams`.
abbrev pub read_create : Params → Option CreateParams
read_create params =
    create_of (text_at (lookup (text "id") params)) (number_at (lookup (text "time") params))
      (number_at (lookup (text "amount") params)) (object_at (lookup (text "account") params))

-- The key of `IDParams`.
abbrev pub read_id : Params → Option Text
read_id params = text_at (lookup (text "id") params)

module _ {W : Type 0} (client : MerchantClient W) where
  pub read_create-create_params :
      (p : CreateParams)
      → read_create (create_params client p.id p.time p.amount p.account) ≡ some p
  unfolding lookup eq_text
  read_create-create_params p = refl

  pub read_id-id_params : (id : Text) → read_id (id_params client id) ≡ some id
  unfolding lookup eq_text
  read_id-id_params id = refl
