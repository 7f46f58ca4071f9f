-- ===== src/Postgres/Mock/Tokens.antt =====
-- subscribe/infrastructure/cards.go: the token of a card, and who loads a card by it.
use payme_mock.Base.{
  ◌≡◌, refl, ap, ◌∙◌, sym, subst, Bool, true, false, Option, none, some, List, [], ◌∷◌, ◌++◌, arith,
  Option-cases, inl, inr,
}
use payme_mock.Base.Int.{ℤ, eq_ℤ_iff}
use payme_mock.Base.Text.{Text, eq_text_refl}
use payme_mock.Kernel.Effect.{ok}
use payme_mock.Kernel.Effect.Ensures.{ok_injective}
use payme_mock.Postgres.{first_row}
use payme_mock.Postgres.Rows.{or_else, first_row-append, first_row-any_row, first_row_holds}
use payme_mock.Postgres.Mock.{Vault, CardRow, TokenRow, any_row}
use payme_mock.Postgres.Mock.Cards.{
  seen, in_scope, by_id, by_token, with_token, holder, scan_card, token_at, token_named,
}
use payme_mock.Postgres.Mock.Tokenizing.{token_for, issued}

-- The unique index: the row that a register holds for a card is the one that its token names.
abbrev pub Distinct : List TokenRow → Type 0
Distinct tokens =
    (card sandbox : ℤ) (t : TokenRow)
    → first_row (token_at card sandbox) tokens ≡ some t
    → first_row (token_named t.token) tokens ≡ some t

abbrev row_for : ℤ → ℤ → Text → TokenRow
row_for sandbox card token = record { card_id = card; sandbox_id = sandbox; token = token }

abbrev with_row : Vault → TokenRow → Vault
with_row v n = record v { tokens = v.tokens ++ (n ∷ []) }

new_at :
    (sandbox card : ℤ) (token : Text) → token_at card sandbox (row_for sandbox card token) ≡ true
new_at sandbox card token = ground (arith, eq_ℤ_iff card card, eq_ℤ_iff sandbox sandbox)

only : {A : Type 0} (p : A → Bool) (x : A) → p x ≡ true → first_row p (x ∷ []) ≡ some x
unfolding first_row
only p x h = rw h refl

only_if : {A : Type 0} (p : A → Bool) (x y : A) → first_row p (x ∷ []) ≡ some y → y ≡ x
unfolding first_row
only_if p x y h = ground arith

appended-Distinct :
    (tokens : List TokenRow) (n : TokenRow)
    → Distinct tokens
    → any_row (token_named n.token) tokens ≡ false
    → Distinct (tokens ++ (n ∷ []))
appended-Distinct tokens n h fresh card sandbox t found =
    elim (Option-cases (first_row (token_at card sandbox) tokens)) [
      | inl e ↦
          let last = only_if (token_at card sandbox) n t (
            sym (
              first_row-append (token_at card sandbox) tokens (n ∷ [])
              ∙ ap (λ o. or_else o (first_row (token_at card sandbox) (n ∷ []))) e)
            ∙ found) in
          subst (λ x. first_row (token_named x.token) (tokens ++ (n ∷ [])) ≡ some x) (sym last)
            (first_row-append (token_named n.token) tokens (n ∷ [])
              ∙ ap (λ o. or_else o (first_row (token_named n.token) (n ∷ [])))
                  (first_row-any_row (token_named n.token) tokens fresh)
              ∙ only (token_named n.token) n (eq_text_refl n.token))
      | inr (x, e) ↦
          let same : some x ≡ some t =
            sym (
              first_row-append (token_at card sandbox) tokens (n ∷ [])
              ∙ ap (λ o. or_else o (first_row (token_at card sandbox) (n ∷ []))) e)
            ∙ found in
          first_row-append (token_named t.token) tokens (n ∷ [])
          ∙ ap (λ o. or_else o (first_row (token_named t.token) (n ∷ [])))
              (h card sandbox t (e ∙ same))
    ]

-- A new token changes no card but in its token.
scan_with_row :
    (other : ℤ) (t : Text) (n : TokenRow) (v : Vault) (o : Option CardRow)
    → with_token t (scan_card other (with_row v n) o) ≡ with_token t (scan_card other v o)
unfolding seen
scan_with_row other t n v none = refl
scan_with_row other t n v (some row) = refl

holder-with_row :
    (other : ℤ) (n : TokenRow) (o : Option TokenRow) (v : Vault)
    → holder other o (with_row v n) ≡ holder other o v
unfolding in_scope
holder-with_row other n none v = refl
holder-with_row other n (some used) v = refl

-- The card that a token names, in whichever stand asks.
named_card :
    (other : ℤ) (t : Text) (used : TokenRow) (v : Vault)
    → first_row (token_named t) v.tokens ≡ some used
    → by_token other t v ≡ with_token t (by_id other used.card_id v)
unfolding by_token by_id
named_card other t used v h = ap (λ o. with_token t (scan_card other v (holder other o v))) h

abbrev Issued : ℤ → ℤ → Text → Vault → Vault → Type 0
Issued sandbox card t v v' =
    Distinct v'.tokens
    × ((again : Text) → token_for sandbox card again v' ≡ (ok t, v'))
    × ((other : ℤ) → by_token other t v' ≡ with_token t (by_id other card v))

held_Issued :
    (sandbox card : ℤ) (held : TokenRow) (v : Vault)
    → Distinct v.tokens
    → first_row (token_at card sandbox) v.tokens ≡ some held
    → Issued sandbox card held.token v v
unfolding token_for
held_Issued sandbox card held v distinct found =
    let hit = first_row_holds (token_at card sandbox) v.tokens held found in
    let same : held.card_id ≡ card =
      ground (arith, eq_ℤ_iff held.card_id card, eq_ℤ_iff held.sandbox_id sandbox) in
    (
      distinct,
      λ again. rw found refl,
      λ other.
          named_card other held.token held v (distinct card sandbox held found)
          ∙ ap (λ i. with_token held.token (by_id other i v)) same,
    )

new_Issued :
    (sandbox card : ℤ) (t : Text) (v : Vault)
    → Distinct v.tokens
    → first_row (token_at card sandbox) v.tokens ≡ none
    → any_row (token_named t) v.tokens ≡ false
    → Issued sandbox card t v (with_row v (row_for sandbox card t))
unfolding token_for by_id
new_Issued sandbox card t v distinct none_held fresh =
    let n : TokenRow = row_for sandbox card t in
    let held : first_row (token_at card sandbox) (v.tokens ++ (n ∷ [])) ≡ some n =
      first_row-append (token_at card sandbox) v.tokens (n ∷ [])
      ∙ ap (λ o. or_else o (first_row (token_at card sandbox) (n ∷ []))) none_held
      ∙ only (token_at card sandbox) n (new_at sandbox card t) in
    let distinct' = appended-Distinct v.tokens n distinct fresh in
    (
      distinct',
      λ again. rw held refl,
      λ other.
          named_card other t n (with_row v n) (distinct' card sandbox n held)
          ∙ ap (λ o. with_token t (scan_card other (with_row v n) o))
              (holder-with_row other n (some n) v)
          ∙ scan_with_row other t n v (holder other (some n) v),
    )

issued_lem :
    (sandbox card : ℤ) (offered t : Text) (v : Vault) (o : Option TokenRow) (taken : Bool)
    → Distinct v.tokens
    → first_row (token_at card sandbox) v.tokens ≡ o
    → any_row (token_named offered) v.tokens ≡ taken
    → (issued o taken sandbox card offered v).0 ≡ ok t
    → Issued sandbox card t v (issued o taken sandbox card offered v).1
issued_lem sandbox card offered t v (some held) taken distinct found fresh e =
    subst (λ x. Issued sandbox card x v v) (ok_injective e)
      (held_Issued sandbox card held v distinct found)
issued_lem sandbox card offered t v none true distinct found fresh e = cc
issued_lem sandbox card offered t v none false distinct found fresh e =
    subst (λ x. Issued sandbox card x v (with_row v (row_for sandbox card offered)))
      (ok_injective e) (new_Issued sandbox card offered v distinct found fresh)

-- Where a register asked for the token of a card and has one, it gets the same one however often it
-- asks and whatever it offers, with nothing written; and every stand that loads the card by its key
-- loads it by that token, while one that cannot does not. Tokens stay unique.
pub by_token-token_for :
    (sandbox card : ℤ) (offered t : Text) (v : Vault)
    → Distinct v.tokens
    → (token_for sandbox card offered v).0 ≡ ok t
    → let v' = (token_for sandbox card offered v).1 in
      Distinct v'.tokens
      × ((again : Text) → token_for sandbox card again v' ≡ (ok t, v'))
      × ((other : ℤ) → by_token other t v' ≡ with_token t (by_id other card v))
unfolding token_for
by_token-token_for sandbox card offered t v distinct e =
    issued_lem sandbox card offered t v (first_row (token_at card sandbox) v.tokens)
      (any_row (token_named offered) v.tokens) distinct refl refl e
