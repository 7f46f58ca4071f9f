-- ===== src/Tests/Vault.antt =====
-- The tables of the Subscribe side, with two stands of one merchant and a third one apart.
use payme_mock.Base.{◌≡◌, refl, subst, ◌&&◌, Bool, true, false, none, some, [], ◌∷◌, if◌then◌else◌}
use payme_mock.Base.Int.{ℤ, pos, eq_ℤ}
use payme_mock.Base.Text.{Text, text, eq_text}
use payme_mock.Kernel.Effect.{Error, ok, err}
use payme_mock.Subscribe.Card.{Card, charge}
use payme_mock.Subscribe.Outcome.{Outcome, Source, outcome_valid}
use payme_mock.Postgres.{first_row}
use payme_mock.Postgres.Mock.{Vault, CardRow, TokenRow, any_row}
use payme_mock.Postgres.Mock.Cards.{
  by_id, by_token, token_named, with_token, in_scope, shares, seen,
}
use payme_mock.Postgres.Mock.Tokenizing.{token_for, update}
use payme_mock.Postgres.Mock.Stored.{Keyed, retokened, update-by_id}
use payme_mock.Postgres.Mock.Tokens.{Distinct, by_token-token_for}
use payme_mock.Postgres.Mock.Scope.{Visible, Query, Wanted, load-Visible}

abbrev row : CardRow
row = record {
  id = pos 1;
  sandbox_id = pos 1;
  token = text "t1";
  number_full = text "8600060921090842";
  expire = text "03/99";
  recurrent = true;
  verify = true;
  verify_code = none;
  verify_code_sent_at = pos 0;
  verify_wait_millis = pos 0;
  phone = some (text "998901234567");
  balance = pos 1000;
  removed = false;
  outcome = Outcome.success;
  source = Source.api;
  sms_enabled = true;
  frozen = false;
  delay_millis = pos 0;
  account = none;
  customer = none;
  merchant_key = text "shop";
  registered_at = pos 0;
}

abbrev vault : Vault
vault = record {
  stands =
      record { id = pos 1; merchant_group = some (text "shop") }
      ∷ record { id = pos 2; merchant_group = some (text "shop") }
      ∷ record { id = pos 3; merchant_group = none }
      ∷ [];
  cards = row ∷ [];
  tokens = record { card_id = pos 1; sandbox_id = pos 1; token = text "t1" } ∷ [];
  blocks = [];
  receipts = [];
  next_card = 2;
  next_receipt = 1;
}

abbrev card : Card
card = record {
  id = pos 1;
  sandbox_id = pos 1;
  token = text "t1";
  number_full = text "8600060921090842";
  expire = text "03/99";
  recurrent = true;
  verify = true;
  verify_code = [];
  phone = text "998901234567";
  balance = pos 1000;
  removed = false;
  outcome = Outcome.success;
  source = Source.api;
  sms_enabled = true;
  frozen = false;
  delay_millis = pos 0;
  account = [];
  customer = [];
  verify_code_sent_at = pos 0;
  verify_wait_millis = pos 0;
  registered_at = pos 0;
}

abbrev charged : Card
charged = charge (pos 700) card

-- The other register of the merchant loads the card, and the stand apart does not.
card_loaded :
    (by_id (pos 1) (pos 1) vault ≡ ok card)
    × (by_id (pos 2) (pos 1) vault ≡ ok card)
    × (by_id (pos 3) (pos 1) vault ≡ err Error.not_found)
unfolding by_id in_scope first_row seen any_row shares
card_loaded = (refl, refl, refl)

one_key :
    (b c : Bool) (r : CardRow)
    → (if b && c then some row else none) ≡ some r
    → (if c then some row else none) ≡ some r
one_key true c r h = h
one_key false c r h = cc

vault-Keyed : Keyed vault
unfolding first_row
vault-Keyed sandbox id r h = one_key (in_scope sandbox vault row) (eq_ℤ (pos 1) id) r h

abbrev held : TokenRow
held = record { card_id = pos 1; sandbox_id = pos 1; token = text "t1" }

one_token :
    (b : Bool) (t : TokenRow) → (if b then some held else none) ≡ some t → some held ≡ some t
one_token true t h = h
one_token false t h = cc

vault-Distinct : Distinct vault.tokens
unfolding first_row eq_text
vault-Distinct card sandbox t h =
    let same = one_token (eq_ℤ (pos 1) card && eq_ℤ (pos 1) sandbox) t h in
    subst
      (λ o. elim o [
        | none ↦ Unit {0}
        | some x ↦ first_row (token_named x.token) vault.tokens ≡ some x
      ])
      same refl

update-by_id_example :
    ((update charged vault).0 ≡ ok tt)
    × (by_id (pos 2) (pos 1) (update charged vault).1 ≡ (
        if eq_ℤ (pos 1) (pos 1)
        then retokened charged (by_id (pos 2) (pos 1) vault)
        else by_id (pos 2) (pos 1) vault))
unfolding charge outcome_valid
update-by_id_example =
    update-by_id (pos 1) (pos 2) (pos 1) card charged vault vault-Keyed card_loaded.0 refl refl

abbrev issued_vault : Vault
issued_vault = (token_for (pos 2) (pos 1) (text "t2") vault).1

token_answer : (token_for (pos 2) (pos 1) (text "t2") vault).0 ≡ ok (text "t2")
unfolding token_for first_row any_row eq_text
token_answer = refl

by_token-token_for_example :
    Distinct issued_vault.tokens
    × ((again : Text)
        → token_for (pos 2) (pos 1) again issued_vault ≡ (ok (text "t2"), issued_vault))
    × ((other : ℤ)
        → by_token other (text "t2") issued_vault
          ≡ with_token (text "t2") (by_id other (pos 1) vault))
by_token-token_for_example =
    by_token-token_for (pos 2) (pos 1) (text "t2") (text "t2") vault vault-Distinct token_answer

load-Visible_example : Visible (pos 2) vault card × Wanted (Query.keyed (pos 1)) card
load-Visible_example = load-Visible (Query.keyed (pos 1)) (pos 2) vault card card_loaded.1
