-- ===== src/Postgres/Mock/Scope.antt =====
-- subscribe/infrastructure/cards.go: the cards that a stand can load.
use payme_mock.Base.{
  ◌≡◌, refl, ap, ◌∙◌, sym, subst, Bool, true, false, not, ◌&&◌, ◌||◌, Option, none, some, List, [],
  ◌∷◌, arith, if◌then◌else◌, inl, inr, ◌⊎◌,
}
use payme_mock.Base.Int.{ℤ, eq_ℤ, eq_ℤ_iff}
use payme_mock.Base.Text.{Text, eq_text, eq_text_iff}
use payme_mock.Kernel.Effect.{Result, ok, err}
use payme_mock.Subscribe.Card.{Card}
use payme_mock.Postgres.{first_row}
use payme_mock.Postgres.Rows.{first_row_holds}
use payme_mock.Postgres.Mock.{Vault, StandRow, CardRow, TokenRow, any_row, stand_key}
use payme_mock.Postgres.Mock.Cards.{
  seen, card_at, in_scope, shares, same_group, block_at, by_id, by_token, with_token, holder,
  scan_card, preferred, first_numbered, by_number,
}

-- The stands are there, and are one or of one group.
abbrev pub OneMerchant : Vault → ℤ → ℤ → Type 0
OneMerchant v a b =
    (me : StandRow) × (other : StandRow) × (first_row (stand_key a) v.stands ≡ some me)
    × (first_row (stand_key b) v.stands ≡ some other)
    × ((b ≡ a)
        ⊎ ((group : Text) × (me.merchant_group ≡ some group) × (other.merchant_group ≡ some group)))

-- The card is one of the stand's merchant, and the stand did not block it.
abbrev pub Visible : ℤ → Vault → Card → Type 0
Visible sandbox v c =
    OneMerchant v sandbox c.sandbox_id × (any_row (block_at c.id sandbox) v.blocks ≡ false)

same_group_lem :
    (a b : Option Text)
    → same_group a b ≡ true
    → (group : Text) × (a ≡ some group) × (b ≡ some group)
unfolding same_group
same_group_lem none b h = cc
same_group_lem (some g) none h = cc
same_group_lem (some g) (some k) h = (g, refl, ap some ((eq_text_iff k g).0 h))

or_true : (a b : Bool) → (a || b) ≡ true → (a ≡ true) ⊎ (b ≡ true)
or_true true b h = inl refl
or_true false b h = inr h

and_true : (a b : Bool) → (a && b) ≡ true → (a ≡ true) × (b ≡ true)
and_true a b h = ground arith

not_true_lem : (b : Bool) → not b ≡ true → b ≡ false
not_true_lem b h = ground arith

shares-OneMerchant :
    (v : Vault) (a b : ℤ) (x y : Option StandRow)
    → first_row (stand_key a) v.stands ≡ x
    → first_row (stand_key b) v.stands ≡ y
    → shares x y ≡ true
    → OneMerchant v a b
unfolding shares
shares-OneMerchant v a b none y p q h = cc
shares-OneMerchant v a b (some me) none p q h = cc
shares-OneMerchant v a b (some me) (some other) p q h = (
  me,
  other,
  p,
  q,
  elim (or_true (eq_ℤ other.id me.id) (same_group me.merchant_group other.merchant_group) h) [
    | inl e ↦ inl (
        sym ((eq_ℤ_iff other.id b).0 (first_row_holds (stand_key b) v.stands other q))
        ∙ (eq_ℤ_iff other.id me.id).0 e
        ∙ (eq_ℤ_iff me.id a).0 (first_row_holds (stand_key a) v.stands me p))
    | inr e ↦ inr (same_group_lem me.merchant_group other.merchant_group e)
  ],
)

seen-Visible :
    (sandbox : ℤ) (v : Vault) (row : CardRow)
    → in_scope sandbox v row ≡ true
    → Visible sandbox v (seen sandbox v row)
unfolding in_scope seen
seen-Visible sandbox v row h =
    let (shared, free) =
      and_true
        (shares (first_row (stand_key sandbox) v.stands)
          (first_row (stand_key row.sandbox_id) v.stands))
        (not (any_row (block_at row.id sandbox) v.blocks)) h in
    (
      shares-OneMerchant v sandbox row.sandbox_id _ _ refl refl shared,
      not_true_lem (any_row (block_at row.id sandbox) v.blocks) free,
    )

scan-Visible :
    (sandbox : ℤ) (v : Vault) (c : Card) (o : Option CardRow)
    → ((row : CardRow) → o ≡ some row → in_scope sandbox v row ≡ true)
    → scan_card sandbox v o ≡ ok c
    → Visible sandbox v c
scan-Visible sandbox v c none h e = cc
scan-Visible sandbox v c (some row) h e =
    subst (λ r. elim r [ ok x ↦ Visible sandbox v x | err x ↦ Unit {0} ]) e
      (seen-Visible sandbox v row (h row refl))

at_scope :
    (sandbox id : ℤ) (v : Vault) (row : CardRow)
    → first_row (card_at sandbox id v) v.cards ≡ some row
    → in_scope sandbox v row ≡ true
at_scope sandbox id v row h =
    (and_true (in_scope sandbox v row) (eq_ℤ row.id id)
      (first_row_holds (card_at sandbox id v) v.cards row h)).0

holder_scope :
    (sandbox : ℤ) (o : Option TokenRow) (v : Vault) (row : CardRow)
    → holder sandbox o v ≡ some row
    → in_scope sandbox v row ≡ true
holder_scope sandbox none v row h = cc
holder_scope sandbox (some used) v row h = at_scope sandbox used.card_id v row h

with_token-Visible :
    (sandbox : ℤ) (v : Vault) (token : Text) (c : Card) (r : Result Card)
    → ((d : Card) → r ≡ ok d → Visible sandbox v d)
    → with_token token r ≡ ok c
    → Visible sandbox v c × (c.token ≡ token)
with_token-Visible sandbox v token c (err e) h k = cc
with_token-Visible sandbox v token c (ok d) h k =
    subst (λ r. elim r [ ok x ↦ Visible sandbox v x × (x.token ≡ token) | err x ↦ Unit {0} ]) k
      (h d refl, refl)

-- What the search by number asks of a row.
abbrev Numbered : ℤ → Text → Vault → CardRow → Type 0
Numbered sandbox number v row =
    (in_scope sandbox v row ≡ true) × (row.number_full ≡ number) × (row.removed ≡ false)

from_preferred :
    (P : CardRow → Type 0) (row x : CardRow) (o : Option CardRow)
    → P row
    → ((a : CardRow) → o ≡ some a → P a)
    → preferred row o ≡ some x
    → P x
from_preferred P row x none here rest h = ground arith
from_preferred P row x (some other) here rest h = ground (arith, rest other refl)

test_lem :
    (sandbox : ℤ) (number : Text) (v : Vault) (row : CardRow)
    → (in_scope sandbox v row && eq_text row.number_full number && not row.removed) ≡ true
    → Numbered sandbox number v row
test_lem sandbox number v row h = ground (arith, eq_text_iff row.number_full number)

from_test :
    (sandbox : ℤ) (number : Text) (v : Vault) (row x : CardRow) (o : Option CardRow) (b : Bool)
    → ((a : CardRow) → o ≡ some a → Numbered sandbox number v a)
    → (in_scope sandbox v row && eq_text row.number_full number && not row.removed) ≡ b
    → (if b then preferred row o else o) ≡ some x
    → Numbered sandbox number v x
from_test sandbox number v row x o true rest e k =
    from_preferred (Numbered sandbox number v) row x o (test_lem sandbox number v row e) rest k
from_test sandbox number v row x o false rest e k = rest x k

first_numbered-Numbered :
    (sandbox : ℤ) (number : Text) (v : Vault) (rows : List CardRow) (x : CardRow)
    → first_numbered sandbox number v rows ≡ some x
    → Numbered sandbox number v x
unfolding first_numbered
first_numbered-Numbered sandbox number v [] x h = cc
first_numbered-Numbered sandbox number v (row ∷ rows) x h =
    from_test sandbox number v row x (first_numbered sandbox number v rows)
      (in_scope sandbox v row && eq_text row.number_full number && not row.removed)
      (first_numbered-Numbered sandbox number v rows) refl h

scan-Numbered :
    (sandbox : ℤ) (number : Text) (v : Vault) (c : Card) (o : Option CardRow)
    → ((row : CardRow) → o ≡ some row → Numbered sandbox number v row)
    → scan_card sandbox v o ≡ ok c
    → Visible sandbox v c × (c.number_full ≡ number) × (c.removed ≡ false)
unfolding seen
scan-Numbered sandbox number v c none h e = cc
scan-Numbered sandbox number v c (some row) h e =
    let (scope, named, kept) = h row refl in
    subst
      (λ r. elim r [
        | ok x ↦ Visible sandbox v x × (x.number_full ≡ number) × (x.removed ≡ false)
        | err x ↦ Unit {0}
      ])
      e (seen-Visible sandbox v row scope, named, kept)

-- The three ways to load a card.
pub data Query : Type 0 where
  keyed : ℤ → Query
  tokenized numbered : Text → Query

abbrev pub load : Query → ℤ → Vault → Result Card
load (Query.keyed id) sandbox v = by_id sandbox id v
load (Query.tokenized token) sandbox v = by_token sandbox token v
load (Query.numbered number) sandbox v = by_number sandbox number v

-- What else the way of loading says of the card.
abbrev pub Wanted : Query → Card → Type 0
Wanted (Query.keyed id) c = Unit {0}
Wanted (Query.tokenized token) c = c.token ≡ token
Wanted (Query.numbered number) c = (c.number_full ≡ number) × (c.removed ≡ false)

-- A stand loads a card, by its key, by a token or by its number, only where the card is its own or
-- one of another stand of its group, and where it did not block the card; by a token it gets the card
-- under that token, and by a number never one that was removed.
pub load-Visible :
    (q : Query) (sandbox : ℤ) (v : Vault) (c : Card)
    → load q sandbox v ≡ ok c
    → Visible sandbox v c × Wanted q c
unfolding by_id by_token by_number
load-Visible (Query.keyed id) sandbox v c e = (
  scan-Visible sandbox v c (first_row (card_at sandbox id v) v.cards) (at_scope sandbox id v) e,
  tt,
)
load-Visible (Query.tokenized token) sandbox v c e =
    with_token-Visible sandbox v token c _
      (λ d. scan-Visible sandbox v d _ (holder_scope sandbox _ v)) e
load-Visible (Query.numbered number) sandbox v c e =
    let (seen_there, named, kept) =
      scan-Numbered sandbox number v c (first_numbered sandbox number v v.cards)
        (first_numbered-Numbered sandbox number v v.cards) e in
    (seen_there, (named, kept))
