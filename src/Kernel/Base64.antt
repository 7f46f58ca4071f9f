-- ===== src/Kernel/Base64.antt =====
-- encoding/base64's StdEncoding: the alphabet, EncodeToString, and DecodeString, which skips line
-- ends and wants the padding.
pub mod Laws
use payme_mock.Base.{
  ℕ, ◌+◌, ◌-◌, ◌*◌, ◌/◌, ◌%◌, ◌<◌, ◌≤◌, ◌≡◌, refl, Bool, true, false, ◌&&◌, ◌||◌, Option, none,
  some, List, [], ◌∷◌, ◌==◌, ltb, leb, if◌then◌else◌, arith,
}
use payme_mock.Base.Text.{Text, text, remove_all}

-- The sextet's letter.
unfoldable pub letter : ℕ → ℕ
letter n =
    if ltb n 26
    then n + 65
    else if ltb n 52
    then n + 71
    else if ltb n 62
    then n - 4
    else if n == 62
    then 43
    else 47

unfoldable pub sextet : ℕ → Option ℕ
sextet c =
    if leb 65 c && leb c 90
    then some (c - 65)
    else if leb 97 c && leb c 122
    then some (c - 71)
    else if leb 48 c && leb c 57
    then some (c + 4)
    else if c == 43
    then some 62
    else if c == 47
    then some 63
    else none

pub sextet-letter : (n : ℕ) → n < 64 → sextet (letter n) ≡ some n
unfolding sextet letter
sextet-letter n h = ground arith

unfoldable pub encode : Text → Text
unfolding letter
encode [] = []
encode (a ∷ []) = letter (a / 4) ∷ letter (a % 4 * 16) ∷ 61 ∷ 61 ∷ []
encode (a ∷ b ∷ []) = letter (a / 4) ∷ letter (a % 4 * 16 + b / 16) ∷ letter (b % 16 * 4) ∷ 61 ∷ []
encode (a ∷ b ∷ c ∷ rest) =
    letter (a / 4)
    ∷ letter (a % 4 * 16 + b / 16)
    ∷ letter (b % 16 * 4 + c / 64)
    ∷ letter (c % 64)
    ∷ encode rest

-- The bytes of a full group, before those of the rest.
abbrev before_rest : ℕ → ℕ → ℕ → ℕ → Option Text → Option Text
before_rest p q r s none = none
before_rest p q r s (some rest) =
    some ((p * 4 + q / 16) ∷ (q % 16 * 16 + r / 4) ∷ (r % 4 * 64 + s) ∷ rest)

abbrev full_group : Option ℕ → Option ℕ → Option ℕ → Option ℕ → Option Text → Option Text
full_group (some p) (some q) (some r) (some s) rest = before_rest p q r s rest
full_group _ _ _ _ rest = none

abbrev two_bytes : Option ℕ → Option ℕ → Option ℕ → Option Text
two_bytes (some p) (some q) (some r) = some ((p * 4 + q / 16) ∷ (q % 16 * 16 + r / 4) ∷ [])
two_bytes _ _ _ = none

abbrev one_byte : Option ℕ → Option ℕ → Option Text
one_byte (some p) (some q) = some ((p * 4 + q / 16) ∷ [])
one_byte _ _ = none

abbrev is_nil : Text → Bool
is_nil [] = true
is_nil (x ∷ s) = false

-- A last group may be padded to one or two bytes; the bits behind them are not looked at.
unfoldable pub decode_groups : Text → Option Text
unfolding sextet
decode_groups [] = some []
decode_groups (a ∷ []) = none
decode_groups (a ∷ b ∷ []) = none
decode_groups (a ∷ b ∷ c ∷ []) = none
decode_groups (a ∷ b ∷ c ∷ d ∷ rest) =
    let later = decode_groups rest in
    if d == 61 && is_nil rest
    then (if c == 61
        then one_byte (sextet a) (sextet b)
        else two_bytes (sextet a) (sextet b) (sextet c))
    else full_group (sextet a) (sextet b) (sextet c) (sextet d) later

unfoldable pub decode : Text → Option Text
unfolding decode_groups remove_all
decode s = decode_groups (remove_all 10 (remove_all 13 s))
