-- ===== src/Subscribe/Card/Texts.antt =====
-- subscribe/domain/card.go: the texts made of a card's number and expiry.
use payme_mock.Base.{◌≡◌, ◌≢◌, ℕ, ◌-◌, [], ◌∷◌, ◌++◌, arith}
use payme_mock.Base.Text.{Text, length, take, drop, replicate, remove_all, length-append}
use payme_mock.Base.Lengths.{length-take, length-drop, length-replicate}
use payme_mock.Subscribe.Card.{mask_number, plain_expire, format_expire, expiry_code}

-- A masked number is as long as the number itself.
pub length-mask_number : (number : Text) → length (mask_number number) ≡ length number
unfolding mask_number
length-mask_number number = ground (
  arith,
  length-append {0} (take 6 number)
      (replicate (length number - 10) b'*' ++ drop (length number - 4) number),
  length-append {0} (replicate (length number - 10) b'*') (drop (length number - 4) number),
  length-take 6 number,
  length-drop (length number - 4) number,
  length-replicate (length number - 10) b'*',
)

-- An expiry of four bytes, none of them a slash, is read back from the form with the slash, and
-- the code that it makes is the expiry followed by its year.
pub plain_expire-format_expire :
    (a b c d : ℕ)
    → a ≢ b'/'
    → b ≢ b'/'
    → c ≢ b'/'
    → d ≢ b'/'
    → (plain_expire (format_expire (a ∷ b ∷ c ∷ d ∷ [])) ≡ a ∷ b ∷ c ∷ d ∷ [])
      × (expiry_code (format_expire (a ∷ b ∷ c ∷ d ∷ [])) ≡ a ∷ b ∷ c ∷ d ∷ c ∷ d ∷ [])
unfolding plain_expire format_expire expiry_code remove_all
plain_expire-format_expire a b c d ha hb hc hd = (ground arith, ground arith)
