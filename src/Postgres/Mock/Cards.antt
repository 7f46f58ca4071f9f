-- ===== src/Postgres/Mock/Cards.antt =====
-- subscribe/infrastructure/cards.go: CardRepository over the tables. A repository runs its statements
-- in the stand that the context carries.
use payme_mock.Base.{Bool, false, ◌&&◌, ◌||◌, not, Option, none, some, List, [], ◌∷◌, if◌then◌else◌}
use payme_mock.Base.Int.{ℤ, eq_ℤ, ltb_ℤ}
use payme_mock.Base.Text.{Text, eq_text}
use payme_mock.Base.Dict.{Dict}
use payme_mock.Kernel.Effect.{Error, Result, ok, err}
use payme_mock.Subscribe.Card.{Card}
use payme_mock.Subscribe.Outcome.{from_console}
use payme_mock.Postgres.{first_row}
use payme_mock.Postgres.Accounts.{coalesce}
use payme_mock.Postgres.Mock.{Vault, StandRow, CardRow, TokenRow, BlockRow, any_row, stand_key}

abbrev pub account_or_nil : Option (Dict Text Text) → Dict Text Text
account_or_nil none = []
account_or_nil (some m) = m

abbrev pub token_at : ℤ → ℤ → TokenRow → Bool
token_at card sandbox t = eq_ℤ t.card_id card && eq_ℤ t.sandbox_id sandbox

abbrev pub token_or : Text → Option TokenRow → Text
token_or own none = own
token_or own (some t) = t.token

-- `scanCard` of `cardColumns`, with the token that the stand holds for the card.
abbrev pub card_of : Text → CardRow → Card
card_of token row = record {
  id = row.id;
  sandbox_id = row.sandbox_id;
  token = token;
  number_full = row.number_full;
  expire = row.expire;
  recurrent = row.recurrent;
  verify = row.verify;
  verify_code = coalesce row.verify_code;
  phone = coalesce row.phone;
  balance = row.balance;
  removed = row.removed;
  outcome = row.outcome;
  source = row.source;
  sms_enabled = row.sms_enabled;
  frozen = row.frozen;
  delay_millis = row.delay_millis;
  account = account_or_nil row.account;
  customer = coalesce row.customer;
  verify_code_sent_at = row.verify_code_sent_at;
  verify_wait_millis = row.verify_wait_millis;
  registered_at = row.registered_at;
}

unfoldable pub same_group : Option Text → Option Text → Bool
unfolding eq_text
same_group none other = false
same_group (some group) none = false
same_group (some group) (some other) = eq_text other group

-- Whether the cards of the second stand are those of the first one's merchant.
unfoldable pub shares : Option StandRow → Option StandRow → Bool
unfolding same_group
shares none other = false
shares (some me) none = false
shares (some me) (some other) =
    eq_ℤ other.id me.id || same_group me.merchant_group other.merchant_group

abbrev pub block_at : ℤ → ℤ → BlockRow → Bool
block_at card sandbox b = eq_ℤ b.card_id card && eq_ℤ b.sandbox_id sandbox

-- `cardScope`
unfoldable pub in_scope : ℤ → Vault → CardRow → Bool
unfolding shares first_row any_row
in_scope sandbox v row =
    shares (first_row (stand_key sandbox) v.stands) (first_row (stand_key row.sandbox_id) v.stands)
    && not (any_row (block_at row.id sandbox) v.blocks)

-- The card of a row, as the stand sees it.
unfoldable pub seen : ℤ → Vault → CardRow → Card
unfolding first_row
seen sandbox v row = card_of (token_or row.token (first_row (token_at row.id sandbox) v.tokens)) row

abbrev pub scan_card : ℤ → Vault → Option CardRow → Result Card
scan_card sandbox v none = err Error.not_found
scan_card sandbox v (some row) = ok (seen sandbox v row)

abbrev pub card_at : ℤ → ℤ → Vault → CardRow → Bool
card_at sandbox id v row = in_scope sandbox v row && eq_ℤ row.id id

-- `CardRepository.ByID`
unfoldable pub by_id : ℤ → ℤ → Vault → Result Card
by_id sandbox id v = scan_card sandbox v (first_row (card_at sandbox id v) v.cards)

abbrev pub with_token : Text → Result Card → Result Card
with_token token (ok c) = ok (record c { token = token })
with_token token (err e) = err e

abbrev pub token_named : Text → TokenRow → Bool
token_named token t = eq_text t.token token

abbrev pub holder : ℤ → Option TokenRow → Vault → Option CardRow
holder sandbox none v = none
holder sandbox (some used) v = first_row (card_at sandbox used.card_id v) v.cards

-- `CardRepository.ByToken`
unfoldable pub by_token : ℤ → Text → Vault → Result Card
by_token sandbox token v =
    with_token token
      (scan_card sandbox v (holder sandbox (first_row (token_named token) v.tokens) v))

-- Of two rows the one that the ordering of `ByNumber` puts first.
abbrev pub preferred : CardRow → Option CardRow → Option CardRow
preferred row none = some row
preferred row (some other) =
    if from_console row.source && not (from_console other.source)
    then some row
    else if from_console other.source && not (from_console row.source)
    then some other
    else if ltb_ℤ other.id row.id
    then some other
    else some row

-- `WHERE cardScope AND c.number_full = $2 AND NOT c.removed ORDER BY ... LIMIT 1`
unfoldable pub first_numbered : ℤ → Text → Vault → List CardRow → Option CardRow
first_numbered sandbox number v [] = none
first_numbered sandbox number v (row ∷ rows) =
    let rest = first_numbered sandbox number v rows in
    if in_scope sandbox v row && eq_text row.number_full number && not row.removed
    then preferred row rest
    else rest

-- `CardRepository.ByNumber`
unfoldable pub by_number : ℤ → Text → Vault → Result Card
by_number sandbox number v = scan_card sandbox v (first_numbered sandbox number v v.cards)
