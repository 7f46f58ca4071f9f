-- ===== src/Postgres/Mock.antt =====
-- The schema mock of migrations/00001_schema.sql: the tables of the Subscribe side.
pub mod Cards
pub mod Tokenizing
pub mod Receipts
pub mod Tokens
pub mod Stored
pub mod Scope
use payme_mock.Base.{
  ℕ, suc, Bool, true, false, ◌&&◌, Option, none, some, List, [], ◌∷◌, ◌++◌, if◌then◌else◌,
}
use payme_mock.Base.Int.{ℤ, eq_ℤ}
use payme_mock.Base.Text.{Text, text, eq_text}
use payme_mock.Base.Decimal.{format_int}
use payme_mock.Base.Dict.{Dict}
use payme_mock.Subscribe.Card.{CardSystem}
use payme_mock.Subscribe.Outcome.{Outcome, Source}
use payme_mock.Subscribe.Receipt.{ReceiptState}

-- control.sandboxes, the columns that are read here.
pub record StandRow : Type 0 where
  pub id : ℤ
  pub merchant_group : Option Text

-- mock.cards, with the key that a trigger keeps.
pub record CardRow : Type 0 where
  pub id : ℤ
  pub sandbox_id : ℤ
  pub token : Text
  pub number_full : Text
  pub expire : Text
  pub recurrent : Bool
  pub verify : Bool
  pub verify_code : Option Text
  pub verify_code_sent_at : ℤ
  pub verify_wait_millis : ℤ
  pub phone : Option Text
  pub balance : ℤ
  pub removed : Bool
  pub outcome : Outcome
  pub source : Source
  pub sms_enabled : Bool
  pub frozen : Bool
  pub delay_millis : ℤ
  pub account : Option (Dict Text Text)
  pub customer : Option Text
  pub merchant_key : Text
  pub registered_at : ℤ

-- mock.card_tokens
pub record TokenRow : Type 0 where
  pub card_id : ℤ
  pub sandbox_id : ℤ
  pub token : Text

-- mock.card_cashbox_blocks
pub record BlockRow : Type 0 where
  pub card_id : ℤ
  pub sandbox_id : ℤ

-- mock.receipts, the columns that are used. The numbers are in the range of their columns.
pub record ReceiptRow : Type 0 where
  pub id : ℤ
  pub sandbox_id : ℤ
  pub receipt_id : Text
  pub merchant_id : Text
  pub amount : ℤ
  pub currency : ℤ
  pub commission : ℤ
  pub state : ReceiptState
  pub receipt_type : ℤ
  pub payout : Bool
  pub hold : Bool
  pub hold_expire : ℤ
  pub card_system : Option CardSystem
  pub account : Dict Text Text
  pub detail : Text
  pub description : Text
  pub card_id : Option ℤ
  pub payer : Text
  pub create_time : ℤ
  pub pay_time : ℤ
  pub cancel_time : ℤ
  pub merchant_txn : Option Text

-- A row stands once for each primary key and for each unique index. The last two are the sequences
-- of the bigserial keys.
pub record Vault : Type 0 where
  pub stands : List StandRow
  pub cards : List CardRow
  pub tokens : List TokenRow
  pub blocks : List BlockRow
  pub receipts : List ReceiptRow
  pub next_card : ℕ
  pub next_receipt : ℕ

-- Whether a condition holds of a row.
unfoldable pub any_row : {A : Type 0} → (A → Bool) → List A → Bool
any_row p [] = false
any_row p (x ∷ xs) = let rest = any_row p xs in if p x then true else rest

abbrev pub stand_key : ℤ → StandRow → Bool
stand_key id row = eq_ℤ row.id id

abbrev group_or_own : ℤ → Option Text → Text
group_or_own id none = text "sandbox:" ++ format_int id
group_or_own id (some group) = group

abbrev key_of : Option StandRow → Text
key_of none = []
key_of (some row) = group_or_own row.id row.merchant_group

-- `mock.card_merchant_key`; the foreign key of a card's stand is taken to hold.
unfoldable pub card_merchant_key : ℤ → List StandRow → Text
unfolding payme_mock.Postgres.first_row format_int
card_merchant_key sandbox stands = key_of (payme_mock.Postgres.first_row (stand_key sandbox) stands)
