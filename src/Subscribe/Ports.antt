-- ===== src/Subscribe/Ports.antt =====
-- subscribe/domain/ports.go and subscribe/application/dto.go: what the use cases ask of the
-- repositories, the merchant, the scheduler, the SMS sender, the ledger and the clock; the
-- settings, and the views that the methods answer with.
use payme_mock.Base.{Bool, Option, List}
use payme_mock.Base.Int.{ℤ, pos}
use payme_mock.Base.Text.{Text}
use payme_mock.Base.Dict.{Dict}
use payme_mock.Kernel.Errors.{Message}
use payme_mock.Kernel.Effect.{Result, Action}
use payme_mock.Subscribe.Card.{Card}
use payme_mock.Subscribe.Receipt.{Receipt, ReceiptState}

-- A payout as the register's books need it.
pub record Payout : Type 0 where
  pub transaction_id : Text
  pub amount : ℤ
  pub account : Dict Text Text
  pub create_time : ℤ
  pub pay_time : ℤ

-- `CashboxLedger`; of a cashbox the use cases read the balance alone.
pub record Ledger (W : Type 0) : Type 0 where
  pub open_payout : Payout → Action W (Unit {0})
  pub settle_payout : Payout → Action W (Unit {0})
  pub balance : W → Result ℤ

-- `W` is the world behind the ports. A port that only loads leaves it alone. `create_card` returns
-- the identifier that Go's `Create` writes into its argument. `sms` and `ledger` may be nil.
-- `sort_strings` is the library's sort.Strings.
pub record Ports (W : Type 0) : Type 0 where
  pub card_by_token : Text → W → Result Card
  pub card_by_id : ℤ → W → Result Card
  pub card_by_number : Text → W → Result Card
  pub create_card : Card → Action W ℤ
  pub update_card : Card → Action W (Unit {0})
  pub token_for : ℤ → Text → Action W Text
  pub receipt_by_id : Text → W → Result Receipt
  pub create_receipt : Receipt → Action W (Unit {0})
  pub update_receipt : Receipt → Action W (Unit {0})
  pub list_receipts : ℤ → ℤ → ℤ → ℤ → W → Result (List Receipt)
  pub check_perform : ℤ → Dict Text Text → Action W (Unit {0})
  pub create_transaction : Text → ℤ → ℤ → Dict Text Text → Action W Text
  pub perform_transaction : Text → Action W (Unit {0})
  pub schedule_advance : Text → ℤ → Action W (Unit {0})
  pub card_token : W → Text × W
  pub new_receipt_id : W → Text × W
  pub transaction_id : W → Text × W
  pub sms : Option (Text → Text → Action W (Unit {0}))
  pub ledger : Option (Ledger W)
  pub now : W → ℤ × W
  pub sleep : ℤ → W → W
  pub sort_strings : List Text → List Text

pub record Settings : Type 0 where
  pub sandbox_id : ℤ
  pub merchant_id : Text
  pub merchant_name : Text
  pub verify_code : Text
  pub verify_wait_millis : ℤ
  pub step_delay_millis : ℤ
  pub hold_window_millis : ℤ
  pub card_balance : ℤ

abbrev pub max_get_all_count : ℤ
max_get_all_count = pos 50

pub record CardView : Type 0 where
  pub number : Text
  pub expire : Text
  pub token : Text
  pub recurrent : Bool
  pub verify : Bool

pub record CardsCreateParams : Type 0 where
  pub number : Text
  pub expire : Text
  pub account : Dict Text Text
  pub save : Bool
  pub customer : Text

pub record VerifyCodeResult : Type 0 where
  pub sent : Bool
  pub phone : Text
  pub wait : ℤ

pub record ReceiptCardView : Type 0 where
  pub number : Text
  pub expire : Text

-- The label of an account field: documented in three languages, or the field's own name.
pub data Title : Type 0 where
  documented : Message → Title
  plain : Text → Title

pub record AccountFieldView : Type 0 where
  pub name : Text
  pub title : Title
  pub value : Text
  pub main : Bool

-- The fields of `ReceiptView` that hold more than a constant.
pub record ReceiptView : Type 0 where
  pub id : Text
  pub create_time : ℤ
  pub pay_time : ℤ
  pub cancel_time : ℤ
  pub state : ReceiptState
  pub receipt_type : ℤ
  pub operation : ℤ
  pub description : Text
  pub detail : Text
  pub amount : ℤ
  pub currency : ℤ
  pub commission : ℤ
  pub account : List AccountFieldView
  pub card : Option ReceiptCardView
  pub merchant_id : Text
  pub merchant_name : Text
  pub organization : Text
  pub owner : Text
