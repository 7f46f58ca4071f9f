-- ===== src/Base/Int64.antt =====
-- Go's int64: an integer in two's complement, with the wrap-around of `+` and `-` written out.
use Prim.Native.Nat.{ℕ, ◌+◌, ◌-◌, ◌*◌, ◌%◌, ◌^◌, ◌≤◌, ◌<◌}
use mathlib.Core.Path.{◌≡◌}
use native.Mathlib.Omega.{arith}
use payme_mock.Base.Tests.{ltb, if◌then◌else◌}
use payme_mock.Base.Int.{ℤ, pos, negsuc, minus, pos_part, neg_part, ◌+ℤ◌, ◌-ℤ◌}

-- The bit pattern of an integer, and the integer that a pattern stands for.
abbrev pub to_bits : ℤ → ℕ
to_bits z = (pos_part z + (2 ^ 64 - neg_part z % 2 ^ 64)) % 2 ^ 64

abbrev pub of_bits : ℕ → ℤ
of_bits u = if ltb u (2 ^ 63) then pos u else negsuc (2 ^ 64 - 1 - u)

pub wrap64 : ℤ → ℤ
wrap64 z = of_bits (to_bits z)

unfoldable pub add64 : ℤ → ℤ → ℤ
unfolding wrap64 ◌+ℤ◌
add64 a b = wrap64 (a +ℤ b)

unfoldable pub sub64 : ℤ → ℤ → ℤ
unfolding wrap64 ◌-ℤ◌
sub64 a b = wrap64 (a -ℤ b)

abbrev times : ℤ → ℤ → ℤ
times (pos a) (pos b) = pos (a * b)
times (pos a) (negsuc b) = minus (a * (b + 1))
times (negsuc a) (pos b) = minus ((a + 1) * b)
times (negsuc a) (negsuc b) = pos ((a + 1) * (b + 1))

unfoldable pub mul64 : ℤ → ℤ → ℤ
unfolding wrap64
mul64 a b = wrap64 (times a b)

abbrev pub IsInt64 : ℤ → Type 0
IsInt64 z = (pos_part z < 2 ^ 63) × (neg_part z ≤ 2 ^ 63)

pub wrap64-IsInt64 : (z : ℤ) → IsInt64 (wrap64 z)
unfolding wrap64
wrap64-IsInt64 z = ground arith

pub wrap64_id : (z : ℤ) → IsInt64 z → wrap64 z ≡ z
unfolding wrap64
wrap64_id z h = ground arith

pub add64-sub64 : (a b : ℤ) → IsInt64 b → add64 (sub64 b a) a ≡ b
unfolding add64 sub64
add64-sub64 a b h = ground arith

pub sub64-add64 : (a b : ℤ) → IsInt64 b → sub64 (add64 b a) a ≡ b
unfolding add64 sub64
sub64-add64 a b h = ground arith
