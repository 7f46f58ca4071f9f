-- ===== src/Merchant/Create/Repeat.antt =====
-- merchant/application/service.go: `CreateTransaction`, called again.
use payme_mock.Base.{◌≡◌, refl, sym, ◌∙◌, true, false, none, some, arith, inl, inr, Bool-cases}
use payme_mock.Base.Int.{ℤ, pos}
use payme_mock.Base.Text.{Text}
use payme_mock.Kernel.Effect.{Error, Result, ok, err, is_not_found, pure, ◌>>=◌, ◌>>◌}
use payme_mock.Kernel.Effect.Ensures.{Ensures, Ensures-bind, Ensures-raise}
use payme_mock.Billing.Order.{Order}
use payme_mock.Merchant.Transaction.{State, Transaction, new_transaction}
use payme_mock.Merchant.Ports.{Ports, Settings, CreateParams, CreateResult}
use payme_mock.Merchant.Laws.{Lawful}
use payme_mock.Merchant.Orders.Here.{resolve_order-Here}
use payme_mock.Merchant.Service.{is_created, name_create, record_event, create_result_of}
use payme_mock.Merchant.Create.{
  answer_existing, replay_create, created_as, after_create, store_transaction, create_new,
  create_for, create_transaction,
}

module _ {W : Type 0} (ports : Ports W) (settings : Settings) (laws : Lawful ports) where
  -- In `w` the transaction `id` is stored, created, and answered by `r`.
  abbrev Answers : Text → CreateResult → W → Type 0
  Answers id r w =
      (t : Transaction) × (ports.by_payme_id id w ≡ ok t)
      × (is_created t.state ≡ true)
      × (r ≡ create_result_of ports settings t)

  answer_Answers :
      (id : Text) (t : Transaction) (r : CreateResult) (w : W)
      → ports.by_payme_id id w ≡ ok t
      → (answer_existing ports settings t w).0 ≡ ok r
      → Answers id r (answer_existing ports settings t w).1
  unfolding answer_existing
  answer_Answers id t r w stored e = elim (Bool-cases (is_created t.state)) [
    | inl c ↦ (t, rw c (laws.event_tx id _ w ∙ stored), c, ground arith)
    | inr c ↦ ground arith
  ]

  answered_Answers :
      (id : Text) (t : Transaction) (w : W)
      → is_created t.state ≡ true
      → ports.by_payme_id id w ≡ ok t
      → Ensures
          (Answers id)
          (record_event ports settings t.id name_create none (some State.created) false (pos 0)
            >> pure (create_result_of ports settings t))
          w
  unfolding record_event ◌>>=◌
  answered_Answers id t w c stored = record {
    at = λ r e. (t, laws.event_tx id _ w ∙ stored, c, cc);
  }

  created_Answers :
      (order : Order) (tx : Transaction) (id : ℤ) (w : W)
      → is_created tx.state ≡ true
      → ports.by_payme_id tx.payme_id w ≡ ok (record tx { id = id; reason = laws.kept tx.reason })
      → Ensures (Answers tx.payme_id) (created_as ports settings order tx id) w
  unfolding created_as
  created_Answers order tx id w c stored = Ensures-bind _ _ w λ _ _.
      answered_Answers tx.payme_id (record tx { id = id; reason = laws.kept tx.reason }) _ c
        (laws.order_tx tx.payme_id _ w ∙ stored)

  replay_Answers : (id : Text) (w : W) → Ensures (Answers id) (replay_create ports settings id) w
  unfolding replay_create
  replay_Answers id w = Ensures-bind _ _ w λ t e. record { at = λ r. answer_Answers id t r w e }

  after_Answers :
      (order : Order) (tx : Transaction) (x : Result ℤ) (w : W)
      → is_created tx.state ≡ true
      → ((id : ℤ)
          → x ≡ ok id
          → ports.by_payme_id tx.payme_id w
            ≡ ok (record tx { id = id; reason = laws.kept tx.reason }))
      → Ensures (Answers tx.payme_id) (after_create ports settings order tx x) w
  unfolding after_create
  after_Answers order tx (ok id) w c h = created_Answers order tx id w c (h id refl)
  after_Answers order tx (err Error.duplicate) w c h = replay_Answers tx.payme_id w
  after_Answers order tx (err Error.not_found) w c h = Ensures-raise _ w
  after_Answers order tx (err (Error.protocol x)) w c h = Ensures-raise _ w
  after_Answers order tx (err (Error.other s)) w c h = Ensures-raise _ w

  store_Answers :
      (order : Order) (tx : Transaction) (w : W)
      → is_created tx.state ≡ true
      → tx.sandbox_id ≡ laws.stand
      → Ensures (Answers tx.payme_id) (store_transaction ports settings order tx) w
  unfolding store_transaction
  store_Answers order tx w c here =
      let after =
        after_Answers order tx (ports.create tx w).0 (ports.create tx w).1 c
          (λ id e. laws.create_stored tx w here e) in
      record { at = after.at }

  create_new-Answers :
      (p : CreateParams) (w : W) → Ensures (Answers p.id) (create_new ports settings p) w
  unfolding create_new new_transaction
  create_new-Answers p w = Ensures-bind _ _ w λ order found. Ensures-bind _ _ _ λ _ _.
      Ensures-bind _ _ _ λ _ _. Ensures-bind _ _ _ λ _ _. Ensures-bind _ _ _ λ now _.
        store_Answers order _ _ refl
          ((resolve_order-Here ports settings laws p.account p.amount w).at order found)

  create_for-Answers :
      (x : Result Transaction) (p : CreateParams) (w : W)
      → ports.by_payme_id p.id w ≡ x
      → Ensures (Answers p.id) (create_for ports settings x p) w
  unfolding create_for
  create_for-Answers (ok t) p w stored = record { at = λ r e. answer_Answers p.id t r w stored e }
  create_for-Answers (err e) p w stored = elim (Bool-cases (is_not_found e)) [
    | inl missing ↦ rw missing (create_new-Answers p w)
    | inr broken ↦ rw broken (Ensures-raise e w)
  ]

  -- A creation that returned `r` leaves the transaction that `r` answers for.
  create_Answers :
      (p : CreateParams) (w : W) → Ensures (Answers p.id) (create_transaction ports settings p) w
  unfolding create_transaction
  create_Answers p w = record { at = (create_for-Answers (ports.by_payme_id p.id w) p w refl).at }

  answer_again :
      (id : Text) (p : CreateParams) (r : CreateResult) (w : W)
      → id ≡ p.id
      → Answers id r w
      → (create_transaction ports settings p w).0 ≡ ok r
  unfolding create_transaction create_for answer_existing
  answer_again id p r w i (t, stored, c, e) = rw (← i, stored, create_for, c, e)

  -- Once `CreateTransaction` has returned a response, sending the same identifier again returns
  -- that response, whatever the repeat says of time, amount and account: whether the first call
  -- created the transaction, found it stored or lost the race to another delivery.
  pub create-create :
      (p q : CreateParams) (r : CreateResult) (w : W)
      → q.id ≡ p.id
      → (create_transaction ports settings p w).0 ≡ ok r
      → (create_transaction ports settings q (create_transaction ports settings p w).1).0 ≡ ok r
  create-create p q r w i e = answer_again p.id q r _ (sym i) ((create_Answers p w).at r e)
