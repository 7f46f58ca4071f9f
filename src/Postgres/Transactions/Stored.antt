-- ===== src/Postgres/Transactions/Stored.antt =====
-- merchant/infrastructure/transactions.go: what ByPaymeID finds after Create and after Update.
use payme_mock.Base.{
  ◌≡◌, refl, sym, ap, ◌∙◌, true, false, Option, none, some, [], ◌∷◌, ◌++◌, arith, if◌then◌else◌,
  Bool-cases, inl, inr,
}
use payme_mock.Base.Int.{ℤ, pos, eq_ℤ_iff}
use payme_mock.Base.Text.{Text, eq_text_refl}
use payme_mock.Kernel.Effect.{ok}
use payme_mock.Kernel.Effect.Ensures.{ok_injective}
use payme_mock.Merchant.Transaction.{Transaction}
use payme_mock.Merchant.Laws.{SameRow}
use payme_mock.Postgres.{Database, TransactionRow, first_row, update_rows}
use payme_mock.Postgres.Ledger.{payment_in}
use payme_mock.Postgres.Rows.{mapped, first_row-append, first_row-update_rows}
use payme_mock.Postgres.Transactions.{
  nullable_id, id_of, nullable_reason, transaction_of, scan_transaction, by_payme_id, row_of, found,
  create, transaction_key, updated, updated_in, update,
}

id_of-nullable_id : (id : ℤ) → id_of (nullable_id id) ≡ id
id_of-nullable_id id = ground (arith, eq_ℤ_iff id (pos 0))

not_found : (o : Option TransactionRow) → found o ≡ false → o ≡ none
not_found none h = refl
not_found (some row) h = cc

-- A creation that went through found no row of the identifier, and added its own.
create_adds :
    (t : Transaction) (db : Database) {id : ℤ}
    → (create t db).0 ≡ ok id
    → (first_row (payment_in t.sandbox_id t.payme_id) db.transactions ≡ none)
      × ((create t db).1.transactions ≡ db.transactions ++ (row_of id t ∷ []))
unfolding create
create_adds t db e =
    ground (arith, not_found (first_row (payment_in t.sandbox_id t.payme_id) db.transactions))

transaction_of-row_of :
    (id : ℤ) (t : Transaction)
    → transaction_of (row_of id t) ≡ record t { id = id; reason = nullable_reason t.reason }
transaction_of-row_of id t =
    ap (λ n. record t { id = id; order_id = n; reason = nullable_reason t.reason })
      (id_of-nullable_id t.order_id)

own_row : (id : ℤ) (t : Transaction) → payment_in t.sandbox_id t.payme_id (row_of id t) ≡ true
own_row id t = rw (eq_text_refl t.payme_id, (eq_ℤ_iff t.sandbox_id t.sandbox_id).1 refl) refl

-- A transaction that was created is found under its identifier, with the key that it got.
pub by_payme_id-create :
    (t : Transaction) (db : Database) {id : ℤ}
    → (create t db).0 ≡ ok id
    → by_payme_id t.sandbox_id t.payme_id (create t db).1
      ≡ ok (record t { id = id; reason = nullable_reason t.reason })
unfolding by_payme_id first_row
by_payme_id-create t db {id} e =
    let (new, rows) = create_adds t db e in
    rw
      (
        rows,
        first_row-append (payment_in t.sandbox_id t.payme_id) db.transactions (row_of id t ∷ []),
        new,
        own_row id t,
      )
      (ap ok (transaction_of-row_of id t))

update_writes :
    (o : Option TransactionRow) (t : Transaction) (db : Database)
    → (updated_in o t db).0 ≡ ok tt
    → (updated_in o t db).1.transactions
      ≡ update_rows (transaction_key t.id) (updated t) db.transactions
update_writes none t db e = cc
update_writes (some row) t db e = ground arith

updated_same :
    (sandbox : ℤ) (id : Text) (t : Transaction) (row : TransactionRow)
    → payment_in sandbox id (if transaction_key t.id row then updated t row else row)
      ≡ payment_in sandbox id row
updated_same sandbox id t row = elim (Bool-cases (transaction_key t.id row)) [
  | inl e ↦ rw e refl
  | inr e ↦ rw e refl
]

updated_found :
    (s t : Transaction) (o : Option TransactionRow)
    → scan_transaction o ≡ ok s
    → SameRow s t
    → scan_transaction (mapped (λ row. if transaction_key t.id row then updated t row else row) o)
      ≡ ok (record t { reason = nullable_reason t.reason })
updated_found s t none h same = cc
updated_found s t (some row) h same =
    let e : transaction_of row ≡ s = ok_injective h in
    let key : row.id ≡ t.id =
      ap (λ (x : Transaction). x.id) e ∙ sym (ap (λ (x : Transaction). x.id) same) in
    rw ((eq_ℤ_iff row.id t.id).1 key) (
      ap ok (
        ap
          (λ (x : Transaction). record x {
            state = t.state;
            reason = nullable_reason t.reason;
            perform_time = t.perform_time;
            cancel_time = t.cancel_time;
            receivers = t.receivers;
          })
          e
        ∙ sym (ap (λ (x : Transaction). record x { reason = nullable_reason t.reason }) same)))

-- A transaction that was found and then stored with other values of the columns that Update writes is
-- found with those values; of the reason the column keeps sixteen bits.
pub by_payme_id-update :
    (sandbox : ℤ) (id : Text) (s t : Transaction) (db : Database)
    → by_payme_id sandbox id db ≡ ok s
    → SameRow s t
    → (update t db).0 ≡ ok tt
    → by_payme_id sandbox id (update t db).1 ≡ ok (record t { reason = nullable_reason t.reason })
unfolding by_payme_id update
by_payme_id-update sandbox id s t db found same done =
    rw
      (
        update_writes (first_row (transaction_key t.id) db.transactions) t db done,
        first_row-update_rows (payment_in sandbox id) (payment_in sandbox id) (transaction_key t.id)
            (updated t) db.transactions (updated_same sandbox id t),
      )
      (updated_found s t (first_row (payment_in sandbox id) db.transactions) found same)
