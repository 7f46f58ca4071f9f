-- ===== src/Checkout/Pairs.antt =====
-- How ParseGET of internal/context/payment/checkout/domain/parse.go reads the pairs that EncodeGET
-- writes.
use payme_mock.Base.{
  ◌+◌, ◌≡◌, refl, true, false, Option, none, some, List, [], ◌∷◌, ◌++◌, if◌then◌else◌, arith,
}
use payme_mock.Base.Int.{ℤ, pos, negsuc, ltb_ℤ}
use payme_mock.Base.Int64.{IsInt64}
use payme_mock.Base.Text.{Text, is_empty}
use payme_mock.Base.Strings.Laws.{Lacks, AllLack, Lacks-append, cut-append}
use payme_mock.Base.Dict.{Dict, insert, text_eq}
use payme_mock.Base.Decimal.{format_int, parse_int, digits}
use payme_mock.Base.Decimal.Laws.{AllDigits, digits-AllDigits, parse-format_int}
use payme_mock.Checkout.{Receipt, semicolon, equals, pair, value_at, account_prefix, account_pairs}
use payme_mock.Checkout.Account.{inserted, AllOf}
use payme_mock.Checkout.Parse.{apply_get_key, apply_pair, apply_pairs, then_apply}

-- The field has a name, which no `=` and no `;` cuts, and its value holds no `;`.
abbrev pub GoodField : Dict Text Text → Text → Type 0
GoodField account field =
    (is_empty field ≡ false)
    × Lacks equals field
    × Lacks semicolon field
    × Lacks semicolon (value_at field account)

then_apply-then_apply :
    (o : Option Receipt) (f g h : Receipt → Option Receipt)
    → ((r : Receipt) → h r ≡ then_apply (f r) g)
    → then_apply o h ≡ then_apply (then_apply o f) g
then_apply-then_apply none f g h e = refl
then_apply-then_apply (some r) f g h e = e r

pub apply_pairs-append :
    (ps qs : List Text) (r : Receipt)
    → apply_pairs (ps ++ qs) r ≡ then_apply (apply_pairs ps r) (apply_pairs qs)
unfolding apply_pairs
apply_pairs-append [] qs r = refl
apply_pairs-append (p ∷ ps) qs r =
    then_apply-then_apply (apply_pair p r) (apply_pairs ps) (apply_pairs qs)
      (apply_pairs (ps ++ qs)) (λ r'. apply_pairs-append ps qs r')

pair-Nonempty : (key value : Text) → is_empty (pair key value) ≡ false
pair-Nonempty [] value = refl
pair-Nonempty (x ∷ key) value = refl

pub apply_pair-pair :
    (key value : Text) (r : Receipt)
    → Lacks equals key
    → apply_pair (pair key value) r ≡ apply_get_key key value r
unfolding apply_pair
apply_pair-pair key value r h = rw (pair-Nonempty key value, cut-append equals key value h)

apply_account :
    (field value : Text) (r : Receipt)
    → is_empty field ≡ false
    → apply_get_key (account_prefix ++ field) value r
      ≡ some (record r { account = insert field value r.account })
unfolding apply_get_key
apply_account field value r h = rw h

-- The account's pairs are collected in turn.
pub apply_pairs-account :
    (ks : List Text) (account collected : Dict Text Text) (r : Receipt)
    → AllOf (GoodField account) ks
    → apply_pairs (account_pairs ks account) (record r { account = collected })
      ≡ some (record r { account = inserted ks account collected })
unfolding account_pairs apply_pairs inserted
apply_pairs-account [] account collected r h = refl
apply_pairs-account (k ∷ ks) account collected r h =
    rw
      (
        apply_pair-pair (account_prefix ++ k) (value_at k account)
            (record r { account = collected }) (omega arith, (omega arith, (omega arith, h.0.1))),
        apply_account k (value_at k account) (record r { account = collected }) h.0.0,
      )
      (apply_pairs-account ks account (insert k (value_at k account) collected) r h.1)

pub account_pairs-AllLack :
    (ks : List Text) (account : Dict Text Text)
    → AllOf (GoodField account) ks
    → AllLack semicolon (account_pairs ks account)
unfolding account_pairs
account_pairs-AllLack [] account h = tt
account_pairs-AllLack (k ∷ ks) account h = (
  (
    omega arith,
    (
      omega arith,
      (
        omega arith,
        Lacks-append semicolon k (equals ∷ value_at k account) h.0.2 (omega arith, h.0.3),
      ),
    ),
  ),
  account_pairs-AllLack ks account h.1,
)

pub AllLack-append :
    (ss ts : List Text) → AllLack semicolon ss → AllLack semicolon ts → AllLack semicolon (ss ++ ts)
AllLack-append [] ts h k = k
AllLack-append (s ∷ ss) ts h k = (h.0, AllLack-append ss ts h.1 k)

digits_lack : (s : Text) → AllDigits s → Lacks semicolon s
digits_lack [] h = tt
digits_lack (x ∷ s) h = (omega arith, digits_lack s h.2)

pub format_int-Lacks : (z : ℤ) → Lacks semicolon (format_int z)
unfolding format_int
format_int-Lacks (pos n) = digits_lack (digits 20 n) (digits-AllDigits 20 n)
format_int-Lacks (negsuc n) =
    (omega arith, digits_lack (digits 20 (n + 1)) (digits-AllDigits 20 (n + 1)))

-- A number above zero is read back.
pub parse-format_positive :
    (z : ℤ) → IsInt64 z → ltb_ℤ (pos 0) z ≡ true → parse_int (format_int z) ≡ some z
parse-format_positive (pos n) range h = parse-format_int n range.0
parse-format_positive (negsuc n) range h = absurd (ground arith)

-- A number that is not above zero is not written, and read as zero.
abbrev pub positive : ℤ → ℤ
positive z = if ltb_ℤ (pos 0) z then z else pos 0
