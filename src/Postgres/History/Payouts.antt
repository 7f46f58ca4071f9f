-- ===== src/Postgres/History/Payouts.antt =====
-- billing/infrastructure/ledger.go: the payouts of a register and the history of its balance.
use payme_mock.Base.{
  ℕ, ◌≡◌, ◌<◌, refl, sym, ap, subst, ◌∙◌, Bool, true, false, not, Option, none, some, List, [], ◌∷◌,
  inl, inr, Bool-cases, if◌then◌else◌, arith,
}
use payme_mock.Base.Int.{ℤ, pos, leb_ℤ}
use payme_mock.Base.Int64.{add64, sub64, IsInt64, add64-sub64, wrap64-IsInt64}
use payme_mock.Base.Text.{Text}
use payme_mock.Kernel.Effect.{Result, ok, err, Action, ◌>>=◌}
use payme_mock.Kernel.Effect.Ensures.{Ensures, Ensures-bind, ok_injective}
use payme_mock.Billing.Order.{Account}
use payme_mock.Billing.Cashbox.{Kind, apply}
use payme_mock.Merchant.Register.{kind_of}
use payme_mock.Subscribe.Ports.{Payout}
use payme_mock.Postgres.{Database, SandboxRow, AccountRow, ended, with_tx}
use payme_mock.Postgres.Accounts.{account_of, first_account}
use payme_mock.Postgres.Ledger.{
  lock_payer, joined, insert_opened, open_payout, set_balance, insert_performed, payout_event,
  settle_locked, settle_payout,
}
use payme_mock.Postgres.History.{
  replay, Explained, Drawn, moved-Explained, kept-Explained, found_first,
}

-- `Apply` that went through changed the balance alone, to a bigint.
moved_account :
    (k : Kind) (n : ℤ) (a : Account)
    → (apply k n a).0 ≡ ok tt
    → IsInt64 (apply k n a).1.balance × ((apply k n a).1.id ≡ a.id)
unfolding apply add64 sub64
moved_account k n a h = ground (
  arith,
  wrap64-IsInt64 (payme_mock.Base.Int.◌+ℤ◌ a.balance n),
  wrap64-IsInt64 (payme_mock.Base.Int.◌-ℤ◌ a.balance n),
)

-- The transaction's row is all that the INSERT of `SettlePayout` writes.
performed_keeps :
    (sandbox : ℤ) (payer : Account) (p : Payout) (db : Database)
    → let after = (insert_performed sandbox payer p db).1 in
      (after.accounts ≡ db.accounts)
      × (after.balance_events ≡ db.balance_events)
      × (after.next_account ≡ db.next_account)
unfolding insert_performed
performed_keeps sandbox payer p db = ground arith

opened_keeps :
    (sandbox : ℤ) (payer : Account) (p : Payout) (db : Database)
    → let after = (insert_opened sandbox payer p db).1 in
      (after.accounts ≡ db.accounts)
      × (after.balance_events ≡ db.balance_events)
      × (after.next_account ≡ db.next_account)
unfolding insert_opened
opened_keeps sandbox payer p db = ground arith

module _ {A B : Type 0} where
  then_next :
      (f : A → Action Database B) (next : ℕ) (x : Result A × Database)
      → x.1.next_account ≡ next
      → ((a : A) (d : Database) → (f a d).1.next_account ≡ d.next_account)
      → let y : Result B × Database = elim x.0 [ ok a ↦ f a x.1 | err e ↦ (err e, x.1) ] in
        y.1.next_account ≡ next
  then_next f next (ok a, d) e k = k a d ∙ e
  then_next f next (err e', d) e k = e

  bind_next :
      (m : Action Database A) (f : A → Action Database B) (db : Database)
      → (m db).1.next_account ≡ db.next_account
      → ((a : A) (d : Database) → (f a d).1.next_account ≡ d.next_account)
      → ((m >>= f) db).1.next_account ≡ db.next_account
  unfolding ◌>>=◌
  bind_next m f db e k = then_next f db.next_account (m db) e k

module _ (opening : ℤ → ℤ) where
  -- What the ledger knows of the payer that it locked.
  abbrev Locked : Database → Account → Type 0
  Locked db a =
      IsInt64 a.balance
      × (a.balance ≡ replay a.id (opening a.id) db.balance_events)
      × Drawn db.next_account a.id

  joined-Locked :
      (s : Option SandboxRow) (o : Option AccountRow) (db : Database) (payer : Account × Text)
      → ((row : AccountRow) → o ≡ some row → Locked db (account_of row))
      → joined s o ≡ ok payer
      → Locked db payer.0
  joined-Locked none o db payer k h = cc
  joined-Locked (some s) none db payer k h = cc
  joined-Locked (some s) (some row) db payer k h =
      subst (Locked db) (ap (λ (p : Account × Text). p.0) (ok_injective h)) (k row refl)

  lock_payer-Locked :
      (sandbox : ℤ) (db : Database) (payer : Account × Text)
      → Explained opening db
      → lock_payer sandbox db ≡ ok payer
      → Locked db payer.0
  unfolding lock_payer
  lock_payer-Locked sandbox db payer x h =
      joined-Locked _ (first_account sandbox db.accounts) db payer
        (λ row. found_first _ sandbox db.accounts row x.accounted) h

  ended-Explained :
      (r : Result (Unit {0})) (db after : Database)
      → Explained opening db
      → after.next_account ≡ db.next_account
      → (r ≡ ok tt → Explained opening after)
      → Explained opening (ended db r after).1
  ended-Explained (ok tt) db after x key k = k refl
  ended-Explained (err e) db after x key k = kept-Explained opening db _ x refl refl key

  -- A call that fails leaves the tables as they were, and none draws the key of an account.
  with_tx-Explained :
      (m : Action Database (Unit {0})) (db : Database)
      → Explained opening db
      → (m db).1.next_account ≡ db.next_account
      → Ensures (λ _ after. Explained opening after) m db
      → Explained opening (with_tx m db).1
  unfolding with_tx
  with_tx-Explained m db x key k = ended-Explained (m db).0 db (m db).1 x key (k.at tt)

  settled-Explained :
      (sandbox : ℤ) (p : Payout) (payer : Account × Text) (db : Database)
      → Explained opening db
      → Locked db payer.0
      → Ensures (λ _ after. Explained opening after) (settle_locked sandbox p payer) db
  unfolding settle_locked
  settled-Explained sandbox p payer db x (range, same, key) =
      let moved : Result (Unit {0}) × Account = apply (kind_of payer.1) p.amount payer.0 in
      Ensures-bind _ _ db λ _ applied. Ensures-bind _ _ db λ _ set.
        Ensures-bind _ _ (set_balance moved.1.id moved.1.balance db).1 λ transaction performed.
          record {
            at = λ _ _.
                let (fits, renamed) = moved_account (kind_of payer.1) p.amount payer.0 applied in
                let (rows, history, next) =
                  performed_keeps sandbox moved.1 p (set_balance moved.1.id moved.1.balance db).1 in
                moved-Explained opening db moved.1.id payer.0.balance moved.1.balance
                  (payout_event sandbox moved.1.id transaction payer.0.balance moved.1.balance) x
                  (subst (Drawn db.next_account) (sym renamed) key) fits refl
                  (same ∙ ap (λ i. replay i (opening i) db.balance_events) (sym renamed))
                  (add64-sub64 payer.0.balance moved.1.balance fits) _ rows
                  (ap
                    (λ es.
                      payout_event sandbox moved.1.id transaction payer.0.balance moved.1.balance
                      ∷ es)
                    history)
                  next;
          }

  settled_next :
      (sandbox : ℤ) (p : Payout) (payer : Account × Text) (db : Database)
      → (settle_locked sandbox p payer db).1.next_account ≡ db.next_account
  unfolding settle_locked
  settled_next sandbox p payer db = bind_next _ _ db refl λ _ d.
      bind_next _ _ d refl λ _ d'. bind_next _ _ d' (performed_keeps sandbox _ p d').2 λ _ d''. refl

  pub settle_payout-Explained :
      (sandbox : ℤ) (p : Payout) (db : Database)
      → Explained opening db
      → Explained opening (settle_payout sandbox p db).1
  unfolding settle_payout
  settle_payout-Explained sandbox p db x =
      with_tx-Explained _ db x (bind_next _ _ db refl (settled_next sandbox p)) (
        Ensures-bind _ _ db λ payer locked.
          settled-Explained sandbox p payer db x (lock_payer-Locked sandbox db payer x locked))

  pub open_payout-Explained :
      (sandbox : ℤ) (p : Payout) (db : Database)
      → Explained opening db
      → Explained opening (open_payout sandbox p db).1
  unfolding open_payout
  open_payout-Explained sandbox p db x =
      with_tx-Explained _ db x
        (bind_next _ _ db refl
          λ payer d. bind_next _ _ d refl λ _ d'. (opened_keeps sandbox payer.0 p d').2)
        (Ensures-bind _ _ db λ payer locked. Ensures-bind _ _ db λ _ used. record {
          at = λ _ _.
              let (rows, history, next) = opened_keeps sandbox payer.0 p db in
              kept-Explained opening db (insert_opened sandbox payer.0 p db).1 x rows history next;
        })
