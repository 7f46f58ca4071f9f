-- ===== src/Postgres/History.antt =====
-- billing/infrastructure: the balance of a payer and the history of its moves.
pub mod Payouts
pub mod Runs
use payme_mock.Base.{
  ℕ, suc, ◌+◌, ◌≤◌, ◌<◌, ◌≡◌, refl, sym, ap, subst, ◌∙◌, Bool, true, false, ◌&&◌, ◌||◌, not, Option,
  none, some, List, [], ◌∷◌, ◌++◌, inl, inr, Bool-cases, if_true, if_false, if◌then◌else◌, arith,
}
use payme_mock.Base.Int.{ℤ, pos, negsuc, eq_ℤ, eq_ℤ_iff, ltb_ℤ, ◌-ℤ◌, ◌+ℤ◌, int_laws}
use payme_mock.Base.Int64.{add64, sub64, IsInt64, add64-sub64, wrap64, wrap64_id, wrap64-IsInt64}
use payme_mock.Base.Text.{Text}
use payme_mock.Kernel.Effect.{Error, Result, ok, err}
use payme_mock.Billing.Order.{Account, Order}
use payme_mock.Merchant.Transaction.{Transaction}
use payme_mock.Subscribe.Ports.{Payout}
use payme_mock.Postgres.{Database, AccountRow, BalanceEvent, is_bigint, first_row, update_rows}
use payme_mock.Postgres.Accounts.{
  first_account, lower, account_in, move_balance, update_balance, account_key, with_balance,
}

-- What an account holds by its history: what it was opened with and every move, as int64 adds.
unfoldable pub replay : ℤ → ℤ → List BalanceEvent → ℤ
replay id opening [] = opening
replay id opening (e ∷ es) =
    let rest = replay id opening es in if eq_ℤ e.account_id id then add64 e.delta rest else rest

abbrev pub All : {A : Type 0} → (A → Type 0) → List A → Type 0
All P [] = Unit {0}
All P (x ∷ xs) = P x × All P xs

-- The key was drawn from the sequence.
abbrev pub Drawn : ℕ → ℤ → Type 0
Drawn next id = (k : ℕ) × (id ≡ pos k) × (k < next)

replay_own :
    (i o : ℤ) (e : BalanceEvent) (es : List BalanceEvent)
    → e.account_id ≡ i
    → replay i o (e ∷ es) ≡ add64 e.delta (replay i o es)
unfolding replay
replay_own i o e es h = rw ((eq_ℤ_iff e.account_id i).1 h) refl

replay_other :
    (i id o : ℤ) (e : BalanceEvent) (es : List BalanceEvent)
    → eq_ℤ i id ≡ false
    → e.account_id ≡ id
    → replay i o (e ∷ es) ≡ replay i o es
unfolding replay
replay_other i id o e es h k = ground (arith, eq_ℤ_iff e.account_id i, eq_ℤ_iff i id)

difference : (a b : ℤ) → IsInt64 b → add64 (b -ℤ a) a ≡ b
unfolding add64
difference a b fits = let e : b -ℤ a +ℤ a ≡ b = omega int_laws in ap wrap64 e ∙ wrap64_id b fits

undrawn : (n next : ℕ) (id : ℤ) → Drawn next id → next ≤ n → eq_ℤ (pos n) id ≡ false
undrawn n next id (k, e, below) above = rw e (ground arith)

found_row :
    (P : AccountRow → Type 0) (p : AccountRow → Bool) (rows : List AccountRow) (row : AccountRow)
    → All P rows
    → first_row p rows ≡ some row
    → P row
unfolding first_row
found_row P p [] row h e = cc
found_row P p (r ∷ rows) row (here, rest) e = ground (arith, found_row P p rows row rest)

from_lower :
    (P : AccountRow → Type 0) (b : Bool) (r row : AccountRow) (o : Option AccountRow)
    → P r
    → ((a : AccountRow) → o ≡ some a → P a)
    → (if b then lower r o else o) ≡ some row
    → P row
from_lower P false r row o h k e = k row e
from_lower P true r row none h k e = ground arith
from_lower P true r row (some other) h k e = ground (arith, k other refl)

pub found_first :
    (P : AccountRow → Type 0) (sandbox : ℤ) (rows : List AccountRow) (row : AccountRow)
    → All P rows
    → first_account sandbox rows ≡ some row
    → P row
unfolding first_account
found_first P sandbox [] row h e = cc
found_first P sandbox (r ∷ rows) row (here, rest) e =
    from_lower P (eq_ℤ r.sandbox_id sandbox) r row (first_account sandbox rows) here
      (λ a. found_first P sandbox rows a rest) e

module _ (opening : ℤ → ℤ) where
  -- The balance is a bigint, and it is the one that the history gives.
  abbrev pub Accounted : ℕ → List BalanceEvent → AccountRow → Type 0
  Accounted next es row =
      IsInt64 row.balance × (row.balance ≡ replay row.id (opening row.id) es) × Drawn next row.id

  -- Every balance is explained by the history, and a key that is still to be drawn has none.
  pub record Explained (db : Database) : Type 0 where
    pub accounted : All (Accounted db.next_account db.balance_events) db.accounts
    pub unused :
        (n : ℕ) → db.next_account ≤ n → replay (pos n) (opening (pos n)) db.balance_events ≡ pos 0

  moved_row :
      (next : ℕ) (id before b : ℤ) (e : BalanceEvent) (es : List BalanceEvent) (row : AccountRow)
      → IsInt64 b
      → e.account_id ≡ id
      → before ≡ replay id (opening id) es
      → add64 e.delta before ≡ b
      → Accounted next es row
      → Accounted next (e ∷ es) (if account_key id row then with_balance b row else row)
  moved_row next id before b e es row fits named known sum (range, same, key) =
      elim (Bool-cases (account_key id row)) [
        | inl hit ↦
            let here : row.id ≡ id = (eq_ℤ_iff row.id id).0 hit in
            subst (Accounted next (e ∷ es)) (sym (if_true _ (with_balance b row) row hit)) (
              fits,
              sym sum
                  ∙ ap (add64 e.delta) (known ∙ ap (λ i. replay i (opening i) es) (sym here))
                  ∙ sym (replay_own row.id (opening row.id) e es (named ∙ sym here)),
              key,
            )
        | inr miss ↦
            subst (Accounted next (e ∷ es)) (sym (if_false _ (with_balance b row) row miss))
              (range, same ∙ sym (replay_other row.id id (opening row.id) e es miss named), key)
      ]

  moved_rows :
      (next : ℕ) (id before b : ℤ) (e : BalanceEvent) (es : List BalanceEvent)
      (rows : List AccountRow)
      → IsInt64 b
      → e.account_id ≡ id
      → before ≡ replay id (opening id) es
      → add64 e.delta before ≡ b
      → All (Accounted next es) rows
      → All (Accounted next (e ∷ es)) (update_rows (account_key id) (with_balance b) rows)
  unfolding update_rows
  moved_rows next id before b e es [] fits named known sum h = tt
  moved_rows next id before b e es (row ∷ rows) fits named known sum (here, rest) = (
    moved_row next id before b e es row fits named known sum here,
    moved_rows next id before b e es rows fits named known sum rest,
  )

  -- A move of an account that is there, with its entry in the history.
  pub moved-Explained :
      (db : Database) (id before b : ℤ) (e : BalanceEvent)
      → Explained db
      → Drawn db.next_account id
      → IsInt64 b
      → e.account_id ≡ id
      → before ≡ replay id (opening id) db.balance_events
      → add64 e.delta before ≡ b
      → (after : Database)
      → after.accounts ≡ update_rows (account_key id) (with_balance b) db.accounts
      → after.balance_events ≡ e ∷ db.balance_events
      → after.next_account ≡ db.next_account
      → Explained after
  moved-Explained db id before b e x key fits named known sum after rows history next = record {
    accounted =
        rw (rows, history, next)
          (moved_rows db.next_account id before b e db.balance_events db.accounts fits named known
            sum x.accounted);
    unused = λ n above.
        let above' : db.next_account ≤ n = omega (arith, next) in
        ap (replay (pos n) (opening (pos n))) history
        ∙ replay_other (pos n) id (opening (pos n)) e db.balance_events
            (undrawn n db.next_account id key above') named
        ∙ x.unused n above';
  }

  pub kept-Explained :
      (db after : Database)
      → Explained db
      → after.accounts ≡ db.accounts
      → after.balance_events ≡ db.balance_events
      → after.next_account ≡ db.next_account
      → Explained after
  kept-Explained db after x rows history next = record {
    accounted = rw (rows, history, next) x.accounted;
    unused = λ n above. rw history (x.unused n (omega (arith, next)));
  }

  -- The statement of `UpdateBalance`, at a row that is accounted for.
  move-Explained :
      (sandbox b : ℤ) (o : Option AccountRow) (db : Database)
      → IsInt64 b
      → Explained db
      → ((row : AccountRow) → o ≡ some row → Accounted db.next_account db.balance_events row)
      → Explained (move_balance sandbox o b db).1
  unfolding move_balance
  move-Explained sandbox b none db fits x known = x
  move-Explained sandbox b (some before) db fits x known =
      let (range, same, key) = known before refl in
      elim (Bool-cases (is_bigint (b -ℤ before.balance))) [
        | inl small ↦ rw small (
            moved-Explained db before.id before.balance b _ x key fits refl same
              (difference before.balance b fits) _ refl refl refl)
        | inr large ↦ rw large x
      ]

  pub update_balance-Explained :
      (sandbox id b : ℤ) (db : Database)
      → IsInt64 b
      → Explained db
      → Explained (update_balance sandbox id b db).1
  unfolding update_balance
  update_balance-Explained sandbox id b db fits x =
      move-Explained sandbox b (first_row (account_in sandbox id) db.accounts) db fits x
        (λ row. found_row _ (account_in sandbox id) db.accounts row x.accounted)
