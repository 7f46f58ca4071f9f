-- ===== src/Postgres/Mock/Tokenizing.antt =====
-- subscribe/infrastructure/cards.go: the statements of CardRepository that write.
use payme_mock.Base.{
  suc, Bool, true, false, ◌&&◌, ◌||◌, not, Option, none, some, [], ◌∷◌, ◌++◌, if◌then◌else◌,
}
use payme_mock.Base.Int.{ℤ, pos, eq_ℤ, ltb_ℤ}
use payme_mock.Base.Text.{Text, eq_text}
use payme_mock.Base.Dict.{Dict}
use payme_mock.Kernel.Effect.{Error, ok, err, Action, pure, ◌>>=◌, ◌>>◌}
use payme_mock.Subscribe.Card.{Card}
use payme_mock.Subscribe.Outcome.{Outcome, Source, outcome_valid}
use payme_mock.Postgres.{first_row, update_rows, rejected}
use payme_mock.Postgres.Mock.{Vault, CardRow, TokenRow, any_row, card_merchant_key}
use payme_mock.Postgres.Mock.Cards.{token_at, token_named}

-- `nullableText`
abbrev pub nullable_text : Text → Option Text
nullable_text [] = none
nullable_text (x ∷ s) = some (x ∷ s)

-- `nullableAccount`
abbrev pub nullable_account : Dict Text Text → Option (Dict Text Text)
nullable_account [] = none
nullable_account (x ∷ m) = some (x ∷ m)

-- `outcomeOrDefault`
abbrev pub outcome_or_default : Outcome → Outcome
outcome_or_default (Outcome.other []) = Outcome.success
outcome_or_default (Outcome.other (x ∷ s)) = Outcome.other (x ∷ s)
outcome_or_default o = o

abbrev pub issued : Option TokenRow → Bool → ℤ → ℤ → Text → Action Vault Text
issued (some held) taken sandbox card offered v = (ok held.token, v)
issued none true sandbox card offered v = (err (Error.other "duplicate key value"), v)
issued none false sandbox card offered v = (
  ok offered,
  record v {
    tokens = v.tokens ++ (record { card_id = card; sandbox_id = sandbox; token = offered } ∷ []);
  },
)

-- `CardRepository.TokenFor`
unfoldable pub token_for : ℤ → ℤ → Text → Action Vault Text
token_for sandbox card offered v =
    issued (first_row (token_at card sandbox) v.tokens) (any_row (token_named offered) v.tokens)
      sandbox card offered v

-- The row of `Create`; the columns that it does not name have their defaults.
abbrev pub new_row : ℤ → Text → Card → CardRow
new_row id key c = record {
  id = id;
  sandbox_id = c.sandbox_id;
  token = c.token;
  number_full = c.number_full;
  expire = c.expire;
  recurrent = c.recurrent;
  verify = c.verify;
  verify_code = nullable_text c.verify_code;
  verify_code_sent_at = c.verify_code_sent_at;
  verify_wait_millis = c.verify_wait_millis;
  phone = nullable_text c.phone;
  balance = c.balance;
  removed = c.removed;
  outcome = outcome_or_default c.outcome;
  source = Source.api;
  sms_enabled = c.sms_enabled;
  frozen = c.frozen;
  delay_millis = c.delay_millis;
  account = nullable_account c.account;
  customer = nullable_text c.customer;
  merchant_key = key;
  registered_at = c.registered_at;
}

-- A row that one of the two unique indexes does not let stand beside the new one.
abbrev conflicts : CardRow → CardRow → Bool
conflicts row other =
    (eq_ℤ other.sandbox_id row.sandbox_id && eq_text other.token row.token)
    || (eq_text other.merchant_key row.merchant_key && eq_text other.number_full row.number_full)

unfoldable pub insert_card : Card → Action Vault ℤ
insert_card c v =
    let row = new_row (pos v.next_card) (card_merchant_key c.sandbox_id v.stands) c in
    let drawn = record v { next_card = suc v.next_card } in
    if not (outcome_valid row.outcome) || ltb_ℤ row.delay_millis (pos 0)
    then (err rejected, drawn)
    else if any_row (conflicts row) v.cards
    then (err (Error.other "duplicate key value"), drawn)
    else (ok (pos v.next_card), record drawn { cards = v.cards ++ (row ∷ []) })

-- `CardRepository.Create`; the result is the key that Go writes into its argument.
unfoldable pub create : ℤ → Card → Action Vault ℤ
create sandbox c = do id ← insert_card c; token_for sandbox id c.token; pure id

-- The columns that `Update` writes.
abbrev pub updated : Card → CardRow → CardRow
updated c row = record row {
  verify = c.verify;
  verify_code = nullable_text c.verify_code;
  verify_code_sent_at = c.verify_code_sent_at;
  verify_wait_millis = c.verify_wait_millis;
  phone = nullable_text c.phone;
  balance = c.balance;
  removed = c.removed;
  outcome = outcome_or_default c.outcome;
  recurrent = c.recurrent;
  account = nullable_account c.account;
  customer = nullable_text c.customer;
  registered_at = c.registered_at;
}

abbrev pub card_key : ℤ → CardRow → Bool
card_key id row = eq_ℤ row.id id

abbrev pub updated_in : Option CardRow → Card → Action Vault (Unit {0})
updated_in none c v = (err Error.not_found, v)
updated_in (some row) c v =
    if not (outcome_valid (outcome_or_default c.outcome))
    then (err rejected, v)
    else (ok tt, record v { cards = update_rows (card_key c.id) (updated c) v.cards })

-- `CardRepository.Update`, which names its row by the key alone.
unfoldable pub update : Card → Action Vault (Unit {0})
update c v = updated_in (first_row (card_key c.id) v.cards) c v
