-- ===== src/Base/Decimal.antt =====
-- strconv to base 10: FormatInt and Itoa, and ParseInt and Atoi of 64 bits.
pub mod Laws
use Prim.Native.Nat.{ℕ, zero, suc, ◌+◌, ◌-◌, ◌*◌, ◌/◌, ◌%◌, ◌^◌}
use mathlib.Core.Bool.{Bool, true, false, ◌&&◌}
use mathlib.Core.Option.{Option, none, some}
use mathlib.Core.List.{List, [], ◌∷◌, ◌++◌}
use payme_mock.Base.Tests.{◌==◌, ltb, leb, if◌then◌else◌}
use payme_mock.Base.Int.{ℤ, pos, negsuc, minus}
use payme_mock.Base.Text.{Text}

-- The digits of a number, at most as many as the fuel.
unfoldable pub digits : ℕ → ℕ → Text
digits zero n = []
digits (suc fuel) n =
    let rest = digits fuel (n / 10) in
    if ltb n 10 then (n + 48) ∷ [] else rest ++ ((n % 10 + 48) ∷ [])

-- An int64 has at most nineteen digits.
unfoldable pub format_int : ℤ → Text
unfolding digits
format_int (pos n) = digits 20 n
format_int (negsuc n) = 45 ∷ digits 20 (n + 1)

-- The number that the digits stand for, behind those that were read; `none` is a byte that is no
-- digit.
unfoldable pub digits_value : ℕ → Text → Option ℕ
digits_value read [] = some read
digits_value read (x ∷ s) =
    let rest = digits_value (read * 10 + (x - 48)) s in if leb 48 x && leb x 57 then rest else none

-- A magnitude within the range, for either sign.
abbrev in_range : Bool → Option ℕ → Option ℤ
in_range negative none = none
in_range true (some n) = if leb n (2 ^ 63) then some (minus n) else none
in_range false (some n) = if ltb n (2 ^ 63) then some (pos n) else none

unsigned : Bool → Text → Option ℤ
unfolding digits_value
unsigned negative [] = none
unsigned negative (x ∷ s) = in_range negative (digits_value 0 (x ∷ s))

-- `strconv.ParseInt(s, 10, 64)` and `strconv.Atoi(s)`: `none` is an error.
unfoldable pub parse_int : Text → Option ℤ
unfolding unsigned
parse_int [] = none
parse_int (x ∷ s) =
    if x == 45
    then unsigned true s
    else if x == 43
    then unsigned false s
    else unsigned false (x ∷ s)
