-- ===== src/Kernel/Http/Auth.antt =====
-- internal/kernel/httpx/auth.go: the Basic credential of the Merchant API and the X-Auth credential
-- of the Subscribe API. A comparison in constant time is an equality.
pub mod Laws
use payme_mock.Base.{
  Bool, true, false, ◌&&◌, ◌||◌, not, Option, none, some, List, [], ◌∷◌, ◌++◌, ltb, if◌then◌else◌,
  ℕ,
}
use payme_mock.Base.Text.{Text, text, length, take, drop, eq_text, is_empty}
use payme_mock.Base.Strings.{cut, trim_space, equal_fold}
use payme_mock.Kernel.Base64.{encode, decode}

abbrev pub merchant_login : Text
merchant_login = text "Paycom"

abbrev pub basic_prefix : Text
basic_prefix = text "Basic "

abbrev pub colon : ℕ
colon = 58

pair_matches : Option (Text × Text) → Text → Bool
unfolding eq_text
pair_matches none expected = false
pair_matches (some (login, key)) expected = eq_text login merchant_login && eq_text key expected

decoded_matches : Option Text → Text → Bool
unfolding pair_matches
decoded_matches none expected = false
decoded_matches (some raw) expected = pair_matches (cut colon raw) expected

-- `CheckMerchantAuth`
unfoldable pub check_merchant_auth : Text → Text → Bool
unfolding decoded_matches
check_merchant_auth header expected =
    if not (ltb (length basic_prefix) (length header))
      || not (equal_fold (take (length basic_prefix) header) basic_prefix)
    then false
    else decoded_matches (decode (trim_space (drop (length basic_prefix) header))) expected

-- `MerchantAuthHeader`
unfoldable pub merchant_auth_header : Text → Text
merchant_auth_header key = basic_prefix ++ encode (merchant_login ++ (colon ∷ key))

-- `backend`: a key was supplied, so the call is made by a server.
pub record SubscribeAuth : Type 0 where
  pub merchant_id : Text
  pub key : Text
  pub backend : Bool

unfoldable pub auth_of : Text → Option (Text × Text) → Option SubscribeAuth
auth_of header none = some (record { merchant_id = header; key = []; backend = false })
auth_of header (some (id, key)) =
    if is_empty id then none else some (record { merchant_id = id; key = key; backend = true })

-- `ParseSubscribeAuth`
unfoldable pub parse_subscribe_auth : Text → Option SubscribeAuth
unfolding auth_of
parse_subscribe_auth header =
    let trimmed = trim_space header in
    if is_empty trimmed then none else auth_of trimmed (cut colon trimmed)

-- `Authorize`
unfoldable pub authorize : SubscribeAuth → Text → Text → Bool
unfolding eq_text
authorize a merchant_id key =
    if not (eq_text a.merchant_id merchant_id)
    then false
    else if not a.backend
    then true
    else eq_text a.key key
