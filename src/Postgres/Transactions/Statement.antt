-- ===== src/Postgres/Transactions/Statement.antt =====
-- merchant/infrastructure/transactions.go: the rows of `Statement` and their order.
use mathlib.Core.List.Perm as Permutation
use mathlib.Core.List.{Perm}
use payme_mock.Base.{
  ◌≡◌, refl, ap, Bool, true, false, ◌&&◌, List, [], ◌∷◌, map, arith, if◌then◌else◌, Bool-cases, inl,
  inr,
}
use payme_mock.Base.Int.{ℤ, eq_ℤ, leb_ℤ, ◌≤ℤ◌}
use payme_mock.Kernel.Effect.{ok}
use payme_mock.Postgres.{Database, TransactionRow}
use payme_mock.Postgres.Transactions.{
  transaction_of, transactions_of, earlier, insert_by_time, created_between, statement,
}

-- The rows of a stand that were created from one time to another, in the table's order.
abbrev pub selected : ℤ → ℤ → ℤ → List TransactionRow → List TransactionRow
selected sandbox from to [] = []
selected sandbox from to (row ∷ rows) =
    let rest = selected sandbox from to rows in
    if eq_ℤ row.sandbox_id sandbox && leb_ℤ from row.create_time && leb_ℤ row.create_time to
    then row ∷ rest
    else rest

-- Nothing in the list was created before the row.
abbrev pub Oldest : TransactionRow → List TransactionRow → Type 0
Oldest row [] = Unit {0}
Oldest row (other ∷ rows) = (row.create_time ≤ℤ other.create_time) × Oldest row rows

abbrev pub OldestFirst : List TransactionRow → Type 0
OldestFirst [] = Unit {0}
OldestFirst (row ∷ rows) = Oldest row rows × OldestFirst rows

earlier_time : (a b : TransactionRow) → earlier a b ≡ true → a.create_time ≤ℤ b.create_time
earlier_time a b h = ground arith

later_time : (a b : TransactionRow) → earlier a b ≡ false → b.create_time ≤ℤ a.create_time
later_time a b h = ground arith

Oldest-chain :
    (a b : TransactionRow) (rows : List TransactionRow)
    → a.create_time ≤ℤ b.create_time
    → Oldest b rows
    → Oldest a rows
Oldest-chain a b [] h k = tt
Oldest-chain a b (c ∷ rows) h (here, rest) = (omega arith, Oldest-chain a b rows h rest)

insert_by_time-Oldest :
    (a row : TransactionRow) (rows : List TransactionRow)
    → a.create_time ≤ℤ row.create_time
    → Oldest a rows
    → Oldest a (insert_by_time row rows)
unfolding insert_by_time
insert_by_time-Oldest a row [] h k = (h, tt)
insert_by_time-Oldest a row (c ∷ rows) h (here, rest) = elim (Bool-cases (earlier row c)) [
  | inl e ↦ rw e (h, (here, rest))
  | inr e ↦ rw e (here, insert_by_time-Oldest a row rows h rest)
]

insert_by_time-OldestFirst :
    (row : TransactionRow) (rows : List TransactionRow)
    → OldestFirst rows
    → OldestFirst (insert_by_time row rows)
unfolding insert_by_time
insert_by_time-OldestFirst row [] h = (tt, tt)
insert_by_time-OldestFirst row (c ∷ rows) (here, rest) = elim (Bool-cases (earlier row c)) [
  | inl e ↦
      rw e
        ((earlier_time row c e, Oldest-chain row c rows (earlier_time row c e) here), (here, rest))
  | inr e ↦ rw e (
    insert_by_time-Oldest c row rows (later_time row c e) here,
    insert_by_time-OldestFirst row rows rest,
  )
]

insert_by_time-Perm :
    (row : TransactionRow) (rows : List TransactionRow)
    → Perm (insert_by_time row rows) (row ∷ rows)
unfolding insert_by_time
insert_by_time-Perm row [] = Permutation.rfl
insert_by_time-Perm row (c ∷ rows) = elim (Bool-cases (earlier row c)) [
  | inl e ↦ rw e Permutation.rfl
  | inr e ↦ rw e (
      Permutation.trans (Permutation.cons c (insert_by_time-Perm row rows))
        (Permutation.swap row c rows))
]

abbrev Sorts : List TransactionRow → List TransactionRow → Type 0
Sorts rows sorted = OldestFirst sorted × Perm sorted rows

between_step :
    (b : Bool) (row : TransactionRow) (rows rest : List TransactionRow)
    → Sorts rows rest
    → Sorts (if b then row ∷ rows else rows) (if b then insert_by_time row rest else rest)
between_step false row rows rest h = h
between_step true row rows rest (ordered, same) = (
  insert_by_time-OldestFirst row rest ordered,
  Permutation.trans (insert_by_time-Perm row rest) (Permutation.cons row same),
)

created_between-Sorts :
    (sandbox from to : ℤ) (rows : List TransactionRow)
    → Sorts (selected sandbox from to rows) (created_between sandbox from to rows)
unfolding created_between
created_between-Sorts sandbox from to [] = (tt, Permutation.rfl)
created_between-Sorts sandbox from to (row ∷ rows) =
    between_step _ row _ _ (created_between-Sorts sandbox from to rows)

transactions_of_lem : (rows : List TransactionRow) → transactions_of rows ≡ map transaction_of rows
unfolding transactions_of
transactions_of_lem [] = refl
transactions_of_lem (row ∷ rows) = ap (λ ts. transaction_of row ∷ ts) (transactions_of_lem rows)

-- A statement holds each transaction of the stand that was created from the first time to the second
-- one, both included, as often as the table has it, and no other; the oldest comes first.
pub statement_lem :
    (sandbox from to : ℤ) (db : Database)
    → (rows : List TransactionRow) × (statement sandbox from to db ≡ ok (map transaction_of rows))
      × OldestFirst rows
      × Perm rows (selected sandbox from to db.transactions)
unfolding statement
statement_lem sandbox from to db =
    let (ordered, same) = created_between-Sorts sandbox from to db.transactions in
    (
      created_between sandbox from to db.transactions,
      ap ok (transactions_of_lem (created_between sandbox from to db.transactions)),
      ordered,
      same,
    )
