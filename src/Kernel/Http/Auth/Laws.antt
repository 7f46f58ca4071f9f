-- ===== src/Kernel/Http/Auth/Laws.antt =====
-- Which credentials internal/kernel/httpx/auth.go lets through.
use payme_mock.Base.{◌≡◌, ◌<◌, some, [], ◌∷◌, ◌++◌, ℕ, arith}
use payme_mock.Base.Text.{Text, length, drop, eq_text, eq_text_refl}
use payme_mock.Base.Strings.{equal_fold}
use payme_mock.Base.Strings.Laws.{cut-append, Lacks}
use payme_mock.Kernel.Base64.{encode}
use payme_mock.Kernel.Base64.Laws.{IsBytes, decode-encode, encode-Plain, trim_space-Plain}
use payme_mock.Kernel.Http.Auth.{
  merchant_login, colon, check_merchant_auth, merchant_auth_header, decoded_matches,
}

abbrev credential : Text → Text
credential key = merchant_login ++ (colon ∷ key)

credential-IsBytes : (key : Text) → IsBytes key → IsBytes (credential key)
credential-IsBytes key h = (
  omega arith,
  (omega arith, (omega arith, (omega arith, (omega arith, (omega arith, (omega arith, h)))))),
)

login-Lacks : Lacks colon merchant_login
login-Lacks = omega arith

decoded_matches-credential :
    (key expected : Text) → decoded_matches (some (credential key)) expected ≡ eq_text key expected
unfolding decoded_matches
decoded_matches-credential key expected =
    rw (cut-append colon merchant_login key login-Lacks)
      (ground (arith, eq_text_refl merchant_login))

encode-Nonempty : (a : ℕ) (s : Text) → 0 < length (encode (a ∷ s))
unfolding encode
encode-Nonempty a [] = omega arith
encode-Nonempty a (b ∷ []) = omega arith
encode-Nonempty a (b ∷ c ∷ s) = omega arith

-- The header that is built for a key is accepted where that key is expected, and nowhere else.
pub check_merchant_auth-merchant_auth_header :
    (key expected : Text)
    → IsBytes key
    → check_merchant_auth (merchant_auth_header key) expected ≡ eq_text key expected
unfolding check_merchant_auth merchant_auth_header equal_fold
check_merchant_auth-merchant_auth_header key expected h =
    let valid = credential-IsBytes key h in
    rw
      (
        trim_space-Plain (encode (credential key)) (encode-Plain (credential key) valid),
        decode-encode (credential key) valid,
      )
      (ground (
        arith,
        encode-Nonempty 80 (drop 1 (credential key)),
        decoded_matches-credential key expected,
      ))
