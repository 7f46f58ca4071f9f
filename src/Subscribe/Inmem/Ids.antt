-- ===== src/Subscribe/Inmem/Ids.antt =====
-- subscribe/infrastructure/inmem/inmem.go: `Tokens.pad`, the identifiers of the stand.
use payme_mock.Base.{ℕ, ◌↔◌, ◌+◌, ◌-◌, ◌/◌, ◌%◌, ◌≤◌, ◌≡◌, refl, ap, ◌∙◌, sym, [], ◌∷◌, ◌++◌, arith}
use payme_mock.Base.Lengths.{length-take, length-replicate}
use payme_mock.Base.Text.{Text, length, take, drop, replicate, length-append}

abbrev digit : ℕ → ℕ
digit n = b'0' + n % 10

-- `fmt.Sprintf("%04d", n%10000)`
unfoldable pub four_digits : ℕ → Text
four_digits n =
    digit (n % 10000 / 1000) ∷ digit (n % 10000 / 100) ∷ digit (n % 10000 / 10) ∷ digit n ∷ []

-- `tail` is four bytes, so `width-len(tail)` is not negative where the width is at least four.
unfoldable pub pad : Text → ℕ → ℕ → Text
unfolding four_digits
pad prefix width n =
    let body = prefix ++ replicate width b'0' in
    take (width - length (four_digits n)) body ++ four_digits n

body_covers : (prefix : Text) (width : ℕ) → width - 4 ≤ length (prefix ++ replicate width b'0')
body_covers prefix width =
    omega (arith, length-append {0} prefix (replicate width b'0'), length-replicate width b'0')

-- Every identifier has exactly the width that was asked for.
pub length-pad : (prefix : Text) (width n : ℕ) → 4 ≤ width → length (pad prefix width n) ≡ width
unfolding pad
length-pad prefix width n h = omega (
  arith,
  length-append {0} (take (width - 4) (prefix ++ replicate width b'0')) (four_digits n),
  length-take (width - 4) _ (body_covers prefix width),
)

drop-length_append : (xs ys : Text) → drop (length xs) (xs ++ ys) ≡ ys
drop-length_append [] ys = refl
drop-length_append (x ∷ xs) ys = drop-length_append xs ys

four_digits_injective : (m n : ℕ) → four_digits m ≡ four_digits n → m % 10000 ≡ n % 10000
unfolding four_digits
four_digits_injective m n e = ground arith

four_digits_of_mod : (m n : ℕ) → m % 10000 ≡ n % 10000 → four_digits m ≡ four_digits n
unfolding four_digits
four_digits_of_mod m n e = ground arith

-- Two identifiers of one kind are the same exactly when their counters agree modulo ten thousand:
-- those issued within ten thousand of one another differ, and later ones repeat.
pub pad_iff :
    (prefix : Text) (width m n : ℕ)
    → (pad prefix width m ≡ pad prefix width n) ↔ (m % 10000 ≡ n % 10000)
unfolding pad
pad_iff prefix width m n =
    let body : Text = take (width - 4) (prefix ++ replicate width b'0') in
    (
      λ e. four_digits_injective m n (
          sym (drop-length_append body (four_digits m))
          ∙ ap (drop (length body)) e
          ∙ drop-length_append body (four_digits n)),
      λ e. ap (λ t. body ++ t) (four_digits_of_mod m n e),
    )
