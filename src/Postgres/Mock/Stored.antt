-- ===== src/Postgres/Mock/Stored.antt =====
-- subscribe/infrastructure/cards.go and receipts.go: what is loaded after it was stored.
use payme_mock.Base.{
  ◌≡◌, refl, ap, ◌∙◌, sym, subst, true, false, Option, none, some, [], ◌∷◌, arith, if◌then◌else◌,
  Bool-cases, if_true, if_false, inl, inr,
}
use payme_mock.Base.Int.{ℤ, eq_ℤ, eq_ℤ_iff}
use payme_mock.Base.Text.{Text}
use payme_mock.Base.Dict.{Dict}
use payme_mock.Kernel.Effect.{Result, ok, err}
use payme_mock.Kernel.Effect.Ensures.{ok_injective}
use payme_mock.Subscribe.Card.{Card}
use payme_mock.Subscribe.Outcome.{Outcome, outcome_valid}
use payme_mock.Postgres.{first_row, update_rows}
use payme_mock.Postgres.Rows.{mapped, first_row-update_rows, first_row_holds}
use payme_mock.Postgres.Accounts.{coalesce}
use payme_mock.Postgres.Mock.{Vault, CardRow}
use payme_mock.Postgres.Mock.Cards.{seen, card_at, in_scope, by_id, scan_card, account_or_nil}
use payme_mock.Postgres.Mock.Tokenizing.{
  nullable_text, nullable_account, outcome_or_default, updated, card_key, update,
}

pub coalesce-nullable_text : (s : Text) → coalesce (nullable_text s) ≡ s
coalesce-nullable_text [] = refl
coalesce-nullable_text (x ∷ s) = refl

account_or_nil-nullable_account : (m : Dict Text Text) → account_or_nil (nullable_account m) ≡ m
account_or_nil-nullable_account [] = refl
account_or_nil-nullable_account (x ∷ m) = refl

outcome_or_default_valid : (o : Outcome) → outcome_valid o ≡ true → outcome_or_default o ≡ o
unfolding outcome_valid
outcome_or_default_valid (Outcome.other []) h = cc
outcome_or_default_valid (Outcome.other (x ∷ s)) h = refl
outcome_or_default_valid Outcome.success h = refl
outcome_or_default_valid Outcome.insufficient_funds h = refl
outcome_or_default_valid Outcome.blocked h = refl
outcome_or_default_valid Outcome.expired h = refl
outcome_or_default_valid Outcome.verify_failed h = refl
outcome_or_default_valid Outcome.system_error h = refl

-- `d` differs from `c` only in the columns that `Update` writes, and in its token.
abbrev pub SameCard : Card → Card → Type 0
SameCard c d = d ≡ record c {
  token = d.token;
  verify = d.verify;
  verify_code = d.verify_code;
  verify_code_sent_at = d.verify_code_sent_at;
  verify_wait_millis = d.verify_wait_millis;
  phone = d.phone;
  balance = d.balance;
  removed = d.removed;
  outcome = d.outcome;
  recurrent = d.recurrent;
  account = d.account;
  customer = d.customer;
  registered_at = d.registered_at;
}

-- The card that a row, as it stands after `d` was stored, holds.
seen-updated :
    (sandbox : ℤ) (v : Vault) (row : CardRow) (d : Card)
    → outcome_valid d.outcome ≡ true
    → SameCard (seen sandbox v row) d
    → seen sandbox v (updated d row) ≡ record d { token = (seen sandbox v row).token }
unfolding seen
seen-updated sandbox v row d valid same =
    rw
      (
        coalesce-nullable_text d.verify_code,
        coalesce-nullable_text d.phone,
        coalesce-nullable_text d.customer,
        account_or_nil-nullable_account d.account,
        outcome_or_default_valid d.outcome valid,
      )
      (ap (λ (x : Card). record x { token = (seen sandbox v row).token }) (sym same))

-- The primary key: the card that a stand sees under a key is the one that the table has there.
abbrev pub Keyed : Vault → Type 0
Keyed v =
    (sandbox id : ℤ) (row : CardRow)
    → first_row (card_at sandbox id v) v.cards ≡ some row
    → first_row (card_key id) v.cards ≡ some row

abbrev written : Card → CardRow → CardRow
written d x = if card_key d.id x then updated d x else x

abbrev stored : Card → Vault → Vault
stored d v = record v { cards = update_rows (card_key d.id) (updated d) v.cards }

update_stored :
    (d : Card) (row : CardRow) (v : Vault)
    → outcome_valid d.outcome ≡ true
    → first_row (card_key d.id) v.cards ≡ some row
    → update d v ≡ (ok tt, stored d v)
unfolding update
update_stored d row v valid found = rw (found, outcome_or_default_valid d.outcome valid, valid) refl

card_at-written :
    (sandbox id : ℤ) (d : Card) (v : Vault) (x : CardRow)
    → card_at sandbox id (stored d v) (written d x) ≡ card_at sandbox id v x
unfolding in_scope
card_at-written sandbox id d v x = elim (Bool-cases (card_key d.id x)) [
  | inl e ↦ rw e refl
  | inr e ↦ rw e refl
]

scan_stored :
    (sandbox : ℤ) (d : Card) (v : Vault) (o : Option CardRow)
    → scan_card sandbox (stored d v) o ≡ scan_card sandbox v o
unfolding seen
scan_stored sandbox d v none = refl
scan_stored sandbox d v (some row) = refl

by_id-stored :
    (sandbox id : ℤ) (d : Card) (v : Vault)
    → by_id sandbox id (stored d v)
      ≡ scan_card sandbox v (mapped (written d) (first_row (card_at sandbox id v) v.cards))
unfolding by_id
by_id-stored sandbox id d v =
    scan_stored sandbox d v _
    ∙ ap (scan_card sandbox v) (
        first_row-update_rows (card_at sandbox id v) (card_at sandbox id (stored d v))
          (card_key d.id) (updated d) v.cards (card_at-written sandbox id d v))

-- A row that is not the card's stays as it is.
scan_other :
    (sandbox id : ℤ) (d : Card) (v : Vault) (o : Option CardRow)
    → eq_ℤ id d.id ≡ false
    → ((row : CardRow) → o ≡ some row → card_at sandbox id v row ≡ true)
    → scan_card sandbox v (mapped (written d) o) ≡ scan_card sandbox v o
scan_other sandbox id d v none other h = refl
scan_other sandbox id d v (some row) other h =
    let hit = h row refl in
    ap (λ r. scan_card sandbox v (some r))
      (if_false (card_key d.id row) (updated d row) row
        (ground (arith, eq_ℤ_iff row.id id, eq_ℤ_iff row.id d.id, eq_ℤ_iff id d.id)))

-- The card `d` under the token that a stand holds for it, where the stand can load it at all.
abbrev pub retokened : Card → Result Card → Result Card
retokened d (ok e) = ok (record d { token = e.token })
retokened d (err x) = err x

scan_own :
    (sandbox : ℤ) (d : Card) (v : Vault) (own : CardRow) (o : Option CardRow)
    → outcome_valid d.outcome ≡ true
    → own.id ≡ d.id
    → SameCard (seen sandbox v own) d
    → ((r : CardRow) → o ≡ some r → r ≡ own)
    → scan_card sandbox v (mapped (written d) o) ≡ retokened d (scan_card sandbox v o)
scan_own sandbox d v own none valid id same h = refl
scan_own sandbox d v own (some r) valid id same h =
    let at = h r refl in
    ap ok (
      ap (seen sandbox v) (
        if_true (card_key d.id r) (updated d r) r
          ((eq_ℤ_iff r.id d.id).1 (ap (λ (x : CardRow). x.id) at ∙ id)))
      ∙ seen-updated sandbox v r d valid (subst (λ x. SameCard (seen sandbox v x) d) (sym at) same))

-- The token apart, all stands see one card in a row.
seen_everywhere :
    (a b : ℤ) (d : Card) (v : Vault) (row : CardRow)
    → SameCard (seen a v row) d
    → SameCard (seen b v row) d
unfolding seen
seen_everywhere a b d v row same = same

loaded_row :
    (sandbox : ℤ) (v : Vault) (c : Card) (o : Option CardRow)
    → scan_card sandbox v o ≡ ok c
    → (row : CardRow) × (o ≡ some row) × (seen sandbox v row ≡ c)
loaded_row sandbox v c none h = cc
loaded_row sandbox v c (some row) h = (row, refl, ok_injective h)

one_row : {o : Option CardRow} {a b : CardRow} → o ≡ some a → o ≡ some b → a ≡ b
one_row h k = cc

-- A card that a stand loaded is stored with other values in the columns that are written. Then every
-- stand that could load it loads it so, under its own token: one card, with one balance, however many
-- registers its merchant has; a stand that could not still cannot. Every other card is loaded as
-- before. Keys are unique.
pub update-by_id :
    (sandbox other id : ℤ) (c d : Card) (v : Vault)
    → Keyed v
    → by_id sandbox d.id v ≡ ok c
    → SameCard c d
    → outcome_valid d.outcome ≡ true
    → ((update d v).0 ≡ ok tt)
      × (by_id other id (update d v).1
          ≡ (if eq_ℤ id d.id then retokened d (by_id other id v) else by_id other id v))
unfolding by_id
update-by_id sandbox other id c d v keyed loaded same valid =
    let (own, at, is) =
      loaded_row sandbox v c (first_row (card_at sandbox d.id v) v.cards) loaded in
    let kept = keyed sandbox d.id own at in
    let done = update_stored d own v valid kept in
    let own_id : own.id ≡ d.id =
      (eq_ℤ_iff own.id d.id).0 (first_row_holds (card_key d.id) v.cards own kept) in
    let rows = first_row (card_at other id v) v.cards in
    (
      ap (λ (x : Result (Unit {0}) × Vault). x.0) done,
      ap (λ (x : Result (Unit {0}) × Vault). by_id other id x.1) done
          ∙ by_id-stored other id d v
          ∙ elim (Bool-cases (eq_ℤ id d.id)) [
            | inl e ↦
                let here : id ≡ d.id = (eq_ℤ_iff id d.id).0 e in
                scan_own other d v own rows valid own_id
                  (seen_everywhere sandbox other d v own (subst (λ x. SameCard x d) (sym is) same))
                  (λ r found.
                    one_row
                      (subst (λ i. first_row (card_key i) v.cards ≡ some r) here
                        (keyed other id r found))
                      kept)
                ∙ sym (
                    if_true (eq_ℤ id d.id) (retokened d (scan_card other v rows))
                      (scan_card other v rows) e)
            | inr e ↦
                scan_other other id d v rows e (first_row_holds (card_at other id v) v.cards)
                ∙ sym (
                    if_false (eq_ℤ id d.id) (retokened d (scan_card other v rows))
                      (scan_card other v rows) e)
          ],
    )
