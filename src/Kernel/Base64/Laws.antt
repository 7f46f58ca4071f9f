-- ===== src/Kernel/Base64/Laws.antt =====
-- Decoding what encoding/base64 encoded, and the texts that it makes.
use mathlib.Core.List.{reverse-reverse, reverse-cons}
use payme_mock.Base.{
  ℕ, ◌+◌, ◌*◌, ◌/◌, ◌%◌, ◌<◌, ◌≤◌, ◌≡◌, ◌≢◌, refl, false, some, [], ◌∷◌, ◌++◌, reverse, ◌==◌, arith,
}
use payme_mock.Base.Text.{Text, remove_all}
use payme_mock.Base.Strings.{trim_left, trim_space}
use payme_mock.Kernel.Base64.{letter, sextet-letter, encode, decode_groups, decode}

abbrev pub IsBytes : Text → Type 0
IsBytes [] = Unit {0}
IsBytes (x ∷ s) = (x < 256) × IsBytes s

-- No control character and no space.
abbrev pub Plain : Text → Type 0
Plain [] = Unit {0}
Plain (x ∷ s) = (33 ≤ x) × Plain s

letter_plain : (n : ℕ) → n < 64 → (33 ≤ letter n) × (letter n ≢ 61)
unfolding letter
letter_plain n h = ground arith

letter_low : (n : ℕ) → n < 64 → 33 ≤ letter n
letter_low n h = (letter_plain n h).0

not_pad : (n : ℕ) → n < 64 → (letter n == 61) ≡ false
not_pad n h = ground (arith, letter_plain n)

pub encode-Plain : (s : Text) → IsBytes s → Plain (encode s)
unfolding encode
encode-Plain [] h = tt
encode-Plain (a ∷ []) h = (
  letter_low (a / 4) (omega arith),
  (letter_low (a % 4 * 16) (omega arith), (omega arith, (omega arith, tt))),
)
encode-Plain (a ∷ b ∷ []) h = (
  letter_low (a / 4) (omega arith),
  (
    letter_low (a % 4 * 16 + b / 16) (omega arith),
    (letter_low (b % 16 * 4) (omega arith), (omega arith, tt)),
  ),
)
encode-Plain (a ∷ b ∷ c ∷ rest) h = (
  letter_low (a / 4) (omega arith),
  (
    letter_low (a % 4 * 16 + b / 16) (omega arith),
    (
      letter_low (b % 16 * 4 + c / 64) (omega arith),
      (letter_low (c % 64) (omega arith), encode-Plain rest h.1.1.1),
    ),
  ),
)

remove_all-Plain : (c : ℕ) (s : Text) → c < 33 → Plain s → remove_all c s ≡ s
unfolding remove_all
remove_all-Plain c [] k h = refl
remove_all-Plain c (x ∷ s) k h = ground (arith, remove_all-Plain c s k h.1)

trim_left-Plain : (s : Text) → Plain s → trim_left s ≡ s
unfolding trim_left
trim_left-Plain [] h = refl
trim_left-Plain (x ∷ s) h = ground arith

pub Plain-append : (s t : Text) → Plain s → Plain t → Plain (s ++ t)
Plain-append [] t h k = k
Plain-append (x ∷ s) t h k = (h.0, Plain-append s t h.1 k)

decode_groups-encode : (s : Text) → IsBytes s → decode_groups (encode s) ≡ some s
unfolding encode decode_groups
decode_groups-encode [] h = refl
decode_groups-encode (a ∷ []) h =
    rw (sextet-letter (a / 4) (omega arith), sextet-letter (a % 4 * 16) (omega arith))
      (ground arith)
decode_groups-encode (a ∷ b ∷ []) h =
    rw
      (
        not_pad (b % 16 * 4) (omega arith),
        sextet-letter (a / 4) (omega arith),
        sextet-letter (a % 4 * 16 + b / 16) (omega arith),
        sextet-letter (b % 16 * 4) (omega arith),
      )
      (ground arith)
decode_groups-encode (a ∷ b ∷ c ∷ rest) h =
    rw
      (
        not_pad (c % 64) (omega arith),
        sextet-letter (a / 4) (omega arith),
        sextet-letter (a % 4 * 16 + b / 16) (omega arith),
        sextet-letter (b % 16 * 4 + c / 64) (omega arith),
        sextet-letter (c % 64) (omega arith),
        decode_groups-encode rest h.1.1.1,
      )
      (ground arith)

-- Any bytes come back from their encoding.
pub decode-encode : (s : Text) → IsBytes s → decode (encode s) ≡ some s
unfolding decode
decode-encode s h =
    rw
      (
        remove_all-Plain 13 (encode s) (omega arith) (encode-Plain s h),
        remove_all-Plain 10 (encode s) (omega arith) (encode-Plain s h),
      )
      (decode_groups-encode s h)

Plain-reverse : (s : Text) → Plain s → Plain (reverse s)
Plain-reverse [] h = tt
Plain-reverse (x ∷ s) h =
    rw (reverse-cons x s) (Plain-append (reverse s) (x ∷ []) (Plain-reverse s h.1) (h.0, tt))

pub trim_space-Plain : (s : Text) → Plain s → trim_space s ≡ s
unfolding trim_space
trim_space-Plain s h =
    rw (trim_left-Plain s h, trim_left-Plain (reverse s) (Plain-reverse s h)) (reverse-reverse s)
