-- ===== src/Base/Decimal/Laws.antt =====
-- A number that is not negative comes back from its decimal form.
use Prim.Native.Nat.{ℕ, zero, suc, ◌+◌, ◌-◌, ◌*◌, ◌/◌, ◌%◌, ◌^◌, ◌<◌, ◌≤◌}
use mathlib.Core.Path.{◌≡◌, refl, ap, ◌∙◌}
use mathlib.Core.Option.{some}
use mathlib.Core.List.{[], ◌∷◌, ◌++◌}
use mathlib.Core.Logic.{inl, inr}
use native.Mathlib.Omega.{arith}
use payme_mock.Base.Tests.{ltb, Bool-cases}
use payme_mock.Base.Int.{pos}
use payme_mock.Base.Text.{Text}
use payme_mock.Base.Decimal.{digits, format_int, digits_value, unsigned, parse_int}

abbrev pub AllDigits : Text → Type 0
AllDigits [] = Unit {0}
AllDigits (x ∷ s) = (48 ≤ x) × (x ≤ 57) × AllDigits s

AllDigits-append : (s t : Text) → AllDigits s → AllDigits t → AllDigits (s ++ t)
AllDigits-append [] t h k = k
AllDigits-append (x ∷ s) t h k = (h.0, h.1, AllDigits-append s t h.2 k)

pub digits-AllDigits : (fuel n : ℕ) → AllDigits (digits fuel n)
unfolding digits
digits-AllDigits zero n = tt
digits-AllDigits (suc fuel) n = elim (Bool-cases (ltb n 10)) [
  | inl e ↦ rw e (ground arith)
  | inr e ↦
      rw e
        (AllDigits-append (digits fuel (n / 10)) _ (digits-AllDigits fuel (n / 10)) (omega arith))
]

value-append :
    (read : ℕ) (s : Text) (d n : ℕ)
    → digits_value read s ≡ some n
    → d < 10
    → digits_value read (s ++ ((d + 48) ∷ [])) ≡ some (n * 10 + d)
unfolding digits_value
value-append read [] d n e h = ground arith
value-append read (x ∷ s) d n e h = ground (arith, value-append (read * 10 + (x - 48)) s d n)

abbrev tens : ℕ → ℕ
tens zero = 1
tens (suc n) = 10 * tens n

digit_value : (n : ℕ) → n < 10 → digits_value 0 ((n + 48) ∷ []) ≡ some n
unfolding digits_value
digit_value n h = ground arith

value-digits : (fuel n : ℕ) → n < tens (suc fuel) → digits_value 0 (digits (suc fuel) n) ≡ some n
unfolding digits
value-digits zero n h = ground (arith, digit_value n)
value-digits (suc fuel) n h = elim (Bool-cases (ltb n 10)) [
  | inl e ↦ rw e (digit_value n (ground arith))
  | inr e ↦ rw e (
      value-append 0 (digits (suc fuel) (n / 10)) (n % 10) (n / 10)
        (value-digits fuel (n / 10) (ground arith)) (omega arith)
      ∙ ap some (omega arith))
]

append-Nonempty : (s : Text) (x : ℕ) → (y : ℕ) × (t : Text) × (s ++ (x ∷ []) ≡ y ∷ t)
append-Nonempty [] x = (x, [], refl)
append-Nonempty (y ∷ s) x = (y, s ++ (x ∷ []), refl)

digits-Nonempty : (fuel n : ℕ) → (y : ℕ) × (t : Text) × (digits (suc fuel) n ≡ y ∷ t)
unfolding digits
digits-Nonempty fuel n = elim (Bool-cases (ltb n 10)) [
  | inl e ↦ (n + 48, [], rw e refl)
  | inr e ↦ rw e (append-Nonempty (digits fuel (n / 10)) (n % 10 + 48))
]

parse_digits :
    (s : Text) (x : ℕ) (t : Text) (n : ℕ)
    → s ≡ x ∷ t
    → AllDigits s
    → digits_value 0 s ≡ some n
    → n < 2 ^ 63
    → parse_int s ≡ some (pos n)
unfolding parse_int unsigned
parse_digits [] x t n e h v small = cc
parse_digits (y ∷ s) x t n e h v small = ground arith

pub parse-format_int : (n : ℕ) → n < 2 ^ 63 → parse_int (format_int (pos n)) ≡ some (pos n)
unfolding format_int
parse-format_int n small =
    let (x, t, e) = digits-Nonempty 19 n in
    parse_digits (digits 20 n) x t n e (digits-AllDigits 20 n) (value-digits 19 n (omega arith))
      small
