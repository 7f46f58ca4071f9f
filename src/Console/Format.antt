-- ===== src/Console/Format.antt =====
-- cmd/console/format.go: amounts as the screens show them.
use payme_mock.Base.{ℕ, ◌+◌, ◌/◌, ◌%◌, [], ◌∷◌, ◌++◌, leb, ◌==◌, if◌then◌else◌}
use payme_mock.Base.Int.{ℤ, pos, negsuc, ltb_ℤ, minus}
use payme_mock.Base.Int64.{sub64}
use payme_mock.Base.Text.{Text, text, length, take, drop}
use payme_mock.Base.Decimal.{format_int}

-- The digits from the leading group on, three at a time, behind what was written.
unfoldable pub grouped : Text → Text → Text
grouped out [] = out
grouped out (a ∷ []) = out
grouped out (a ∷ b ∷ []) = out
grouped out (a ∷ b ∷ c ∷ rest) =
    let gap = if length out == 0 then [] else text " " in
    grouped (out ++ (gap ++ (a ∷ b ∷ c ∷ []))) rest

-- `group`
unfoldable pub group : Text → Text
unfolding grouped
group digits =
    if leb (length digits) 3
    then digits
    else (let lead = length digits % 3 in grouped (take lead digits) (drop lead digits))

-- Division and remainder of Go, which round towards zero.
abbrev pub quotient : ℤ → ℕ → ℤ
quotient (pos n) d = pos (n / d)
quotient (negsuc n) d = minus ((n + 1) / d)

abbrev pub remainder : ℤ → ℕ → ℤ
remainder (pos n) d = pos (n % d)
remainder (negsuc n) d = minus ((n + 1) % d)

-- The cents in two digits.
abbrev pub two_digits : Text → Text
two_digits [] = []
two_digits (c ∷ []) = b'0' ∷ c ∷ []
two_digits (c ∷ d ∷ s) = c ∷ d ∷ s

unfoldable pub format_magnitude : ℤ → Text
unfolding group
format_magnitude tiyin =
    group (format_int (quotient tiyin 100))
    ++ (text "." ++ two_digits (format_int (remainder tiyin 100)))

-- `formatSum`; the least int64 stays negative under its own negation.
unfoldable pub format_sum : ℤ → Text
unfolding format_magnitude
format_sum tiyin =
    if ltb_ℤ tiyin (pos 0)
    then text "-" ++ format_magnitude (sub64 (pos 0) tiyin)
    else format_magnitude tiyin

-- `formatSigned`
unfoldable pub format_signed : ℤ → Text
unfolding format_sum
format_signed tiyin = if ltb_ℤ (pos 0) tiyin then text "+" ++ format_sum tiyin else format_sum tiyin
