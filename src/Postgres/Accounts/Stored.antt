-- ===== src/Postgres/Accounts/Stored.antt =====
-- billing/infrastructure/billing.go: what Register finds after UpdateBalance.
use payme_mock.Base.{
  ◌≡◌, refl, ap, Option, none, some, List, [], ◌∷◌, arith, if◌then◌else◌, Bool-cases, inl, inr,
}
use payme_mock.Base.Int.{ℤ, eq_ℤ, eq_ℤ_iff}
use payme_mock.Kernel.Effect.{ok}
use payme_mock.Kernel.Effect.Ensures.{ok_injective}
use payme_mock.Billing.Order.{Account}
use payme_mock.Postgres.{Database, AccountRow, first_row, update_rows}
use payme_mock.Postgres.Rows.{mapped, first_row_holds}
use payme_mock.Postgres.Accounts.{
  account_of, scan_account, lower, first_account, account_key, account_in, with_balance, register,
  move_balance, update_balance,
}

-- A row after the balance of the account `id` was set.
abbrev rebalanced : ℤ → ℤ → AccountRow → AccountRow
rebalanced id b row = if account_key id row then with_balance b row else row

rebalanced_id : (id b : ℤ) (row : AccountRow) → (rebalanced id b row).id ≡ row.id
rebalanced_id id b row = elim (Bool-cases (account_key id row)) [
  | inl e ↦ rw e refl
  | inr e ↦ rw e refl
]

rebalanced_stand : (id b : ℤ) (row : AccountRow) → (rebalanced id b row).sandbox_id ≡ row.sandbox_id
rebalanced_stand id b row = elim (Bool-cases (account_key id row)) [
  | inl e ↦ rw e refl
  | inr e ↦ rw e refl
]

lower-rebalanced :
    (id b : ℤ) (row : AccountRow) (o : Option AccountRow)
    → lower (rebalanced id b row) (mapped (rebalanced id b) o)
      ≡ mapped (rebalanced id b) (lower row o)
lower-rebalanced id b row none = refl
lower-rebalanced id b row (some other) =
    ground (arith, rebalanced_id id b row, rebalanced_id id b other)

first_account-rebalanced :
    (sandbox id b : ℤ) (rows : List AccountRow)
    → first_account sandbox (update_rows (account_key id) (with_balance b) rows)
      ≡ mapped (rebalanced id b) (first_account sandbox rows)
unfolding first_account update_rows
first_account-rebalanced sandbox id b [] = refl
first_account-rebalanced sandbox id b (row ∷ rows) =
    rw (rebalanced_stand id b row, first_account-rebalanced sandbox id b rows)
      (elim (Bool-cases (eq_ℤ row.sandbox_id sandbox)) [
        | inl e ↦ rw e (lower-rebalanced id b row (first_account sandbox rows))
        | inr e ↦ rw e refl
      ])

move_writes :
    (sandbox id b : ℤ) (o : Option AccountRow) (db : Database)
    → ((row : AccountRow) → o ≡ some row → row.id ≡ id)
    → (move_balance sandbox o b db).0 ≡ ok tt
    → (move_balance sandbox o b db).1.accounts
      ≡ update_rows (account_key id) (with_balance b) db.accounts
unfolding move_balance
move_writes sandbox id b none db h e = cc
move_writes sandbox id b (some row) db h e = ground (arith, h row refl)

found_key :
    (sandbox id : ℤ) (rows : List AccountRow) (row : AccountRow)
    → first_row (account_in sandbox id) rows ≡ some row
    → row.id ≡ id
found_key sandbox id rows row h =
    let holds = first_row_holds (account_in sandbox id) rows row h in
    ground (arith, eq_ℤ_iff row.id id)

scanned :
    (a : Account) (b : ℤ) (o : Option AccountRow)
    → scan_account o ≡ ok a
    → scan_account (mapped (rebalanced a.id b) o) ≡ ok (record a { balance = b })
scanned a b none h = cc
scanned a b (some row) h =
    let e : account_of row ≡ a = ok_injective h in
    rw ((eq_ℤ_iff row.id a.id).1 (ap (λ (x : Account). x.id) e))
      (ap (λ (x : Account). ok (record x { balance = b })) e)

-- The register's account is found with the balance that was stored, and is otherwise the same.
pub register-update_balance :
    (sandbox : ℤ) (a : Account) (b : ℤ) (db : Database)
    → register sandbox db ≡ ok a
    → (update_balance sandbox a.id b db).0 ≡ ok tt
    → register sandbox (update_balance sandbox a.id b db).1 ≡ ok (record a { balance = b })
unfolding register update_balance
register-update_balance sandbox a b db found done =
    rw
      (
        move_writes sandbox a.id b (first_row (account_in sandbox a.id) db.accounts) db
            (found_key sandbox a.id db.accounts) done,
        first_account-rebalanced sandbox a.id b db.accounts,
      )
      (scanned a b (first_account sandbox db.accounts) found)
