-- ===== src/Postgres/Mock/Receipts.antt =====
-- subscribe/infrastructure/receipts.go: ReceiptRepository over the tables. encoding/json gives maps
-- back as they were; `detail` and `payer` are their encoding, empty where the map is nil.
use payme_mock.Base.{
  ℕ, suc, Bool, true, false, ◌&&◌, ◌||◌, not, Option, none, some, List, [], ◌∷◌, ◌++◌,
  if◌then◌else◌,
}
use payme_mock.Base.Int.{ℤ, pos, negsuc, eq_ℤ, ltb_ℤ, leb_ℤ}
use payme_mock.Base.Text.{Text, eq_text, take, drop}
use payme_mock.Kernel.Effect.{Error, Result, ok, err, Action}
use payme_mock.Subscribe.Receipt.{Receipt, receipt_valid}
use payme_mock.Postgres.{first_row, update_rows, rejected}
use payme_mock.Postgres.Accounts.{coalesce}
use payme_mock.Postgres.Mock.{Vault, ReceiptRow, any_row}
use payme_mock.Postgres.Mock.Tokenizing.{nullable_text}

-- `scanReceipt`, of a row that was found.
abbrev pub receipt_of : ReceiptRow → Receipt
receipt_of row = record {
  id = row.id;
  sandbox_id = row.sandbox_id;
  receipt_id = row.receipt_id;
  merchant_id = row.merchant_id;
  amount = row.amount;
  currency = row.currency;
  commission = row.commission;
  state = row.state;
  receipt_type = row.receipt_type;
  payout = row.payout;
  hold = row.hold;
  hold_expire = row.hold_expire;
  card_system = row.card_system;
  account = row.account;
  detail = row.detail;
  description = row.description;
  card_id = row.card_id;
  payer = row.payer;
  create_time = row.create_time;
  pay_time = row.pay_time;
  cancel_time = row.cancel_time;
  merchant_txn = coalesce row.merchant_txn;
}

-- `scanReceipt`
abbrev pub scan_receipt : Option ReceiptRow → Result Receipt
scan_receipt none = err Error.not_found
scan_receipt (some row) = ok (receipt_of row)

abbrev pub receipt_named : ℤ → Text → ReceiptRow → Bool
receipt_named sandbox receipt_id row =
    eq_ℤ row.sandbox_id sandbox && eq_text row.receipt_id receipt_id

-- `ReceiptRepository.ByReceiptID`
unfoldable pub by_receipt_id : ℤ → Text → Vault → Result Receipt
by_receipt_id sandbox receipt_id v =
    scan_receipt (first_row (receipt_named sandbox receipt_id) v.receipts)

-- The row of `Create`, under the key that the sequence gave.
abbrev pub row_of : ℤ → Receipt → ReceiptRow
row_of id r = record {
  id = id;
  sandbox_id = r.sandbox_id;
  receipt_id = r.receipt_id;
  merchant_id = r.merchant_id;
  amount = r.amount;
  currency = r.currency;
  commission = r.commission;
  state = r.state;
  receipt_type = r.receipt_type;
  payout = r.payout;
  hold = r.hold;
  hold_expire = r.hold_expire;
  card_system = r.card_system;
  account = r.account;
  detail = r.detail;
  description = r.description;
  card_id = r.card_id;
  payer = r.payer;
  create_time = r.create_time;
  pay_time = r.pay_time;
  cancel_time = r.cancel_time;
  merchant_txn = nullable_text r.merchant_txn;
}

-- `ReceiptRepository.Create`; the result is the key that Go writes into its argument.
unfoldable pub create : Receipt → Action Vault ℤ
create r v =
    let drawn = record v { next_receipt = suc v.next_receipt } in
    if leb_ℤ r.amount (pos 0) || not (receipt_valid r.state)
    then (err rejected, drawn)
    else if any_row (receipt_named r.sandbox_id r.receipt_id) v.receipts
    then (err (Error.other "duplicate key value"), drawn)
    else (
      ok (pos v.next_receipt),
      record drawn { receipts = v.receipts ++ (row_of (pos v.next_receipt) r ∷ []) },
    )

-- The columns that `Update` writes.
abbrev pub updated : Receipt → ReceiptRow → ReceiptRow
updated r row = record row {
  state = r.state;
  hold = r.hold;
  hold_expire = r.hold_expire;
  card_system = r.card_system;
  card_id = r.card_id;
  payer = r.payer;
  pay_time = r.pay_time;
  cancel_time = r.cancel_time;
  commission = r.commission;
  merchant_txn = nullable_text r.merchant_txn;
}

abbrev pub receipt_key : ℤ → ReceiptRow → Bool
receipt_key id row = eq_ℤ row.id id

abbrev pub updated_in : Option ReceiptRow → Receipt → Action Vault (Unit {0})
updated_in none r v = (err Error.not_found, v)
updated_in (some row) r v =
    if not (receipt_valid r.state)
    then (err rejected, v)
    else (ok tt, record v { receipts = update_rows (receipt_key r.id) (updated r) v.receipts })

-- `ReceiptRepository.Update`, which names its row by the key alone.
unfoldable pub update : Receipt → Action Vault (Unit {0})
update r v = updated_in (first_row (receipt_key r.id) v.receipts) r v

-- `ORDER BY create_time DESC, id DESC`
abbrev pub newer : ReceiptRow → ReceiptRow → Bool
newer a b =
    ltb_ℤ b.create_time a.create_time || (eq_ℤ a.create_time b.create_time && leb_ℤ b.id a.id)

unfoldable pub insert_newest : ReceiptRow → List ReceiptRow → List ReceiptRow
insert_newest row [] = row ∷ []
insert_newest row (other ∷ rows) =
    let rest = insert_newest row rows in
    if newer row other then row ∷ other ∷ rows else other ∷ rest

unfoldable pub created_between : ℤ → ℤ → ℤ → List ReceiptRow → List ReceiptRow
unfolding insert_newest
created_between sandbox from to [] = []
created_between sandbox from to (row ∷ rows) =
    let rest = created_between sandbox from to rows in
    if eq_ℤ row.sandbox_id sandbox && leb_ℤ from row.create_time && leb_ℤ row.create_time to
    then insert_newest row rest
    else rest

-- `LIMIT` and `OFFSET`, which the database refuses where they are negative.
abbrev pub window : {A : Type 0} → ℤ → ℤ → List A → Result (List A)
window (pos count) (pos offset) rows = ok (take count (drop offset rows))
window (pos count) (negsuc offset) rows = err (Error.other "OFFSET must not be negative")
window (negsuc count) offset rows = err (Error.other "LIMIT must not be negative")

receipts_of : Result (List ReceiptRow) → Result (List Receipt)
receipts_of (err e) = err e
receipts_of (ok rows) = ok (payme_mock.Base.map receipt_of rows)

-- `ReceiptRepository.List`
unfoldable pub list : ℤ → ℤ → ℤ → ℤ → ℤ → Vault → Result (List Receipt)
unfolding created_between receipts_of
list sandbox from to count offset v =
    receipts_of (window count offset (created_between sandbox from to v.receipts))
