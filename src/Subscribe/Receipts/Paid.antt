-- ===== src/Subscribe/Receipts/Paid.antt =====
-- subscribe/application/service.go: the world after `ReceiptsPay`.
use payme_mock.Base.{◌≡◌, subst, ◌∙◌, Bool, ◌||◌, some, arith}
use payme_mock.Base.Int.{ℤ}
use payme_mock.Base.Text.{Text}
use payme_mock.Kernel.Effect.{Result, ok}
use payme_mock.Kernel.Effect.Ensures.{Ensures, Ensures-bind}
use payme_mock.Subscribe.Card.{Card, CardSystem, charge, system}
use payme_mock.Subscribe.Receipt.{Receipt, ReceiptState, begin_pay}
use payme_mock.Subscribe.Ports.{Ports, Settings}
use payme_mock.Subscribe.Laws.{Lawful}
use payme_mock.Subscribe.View.Load.{load_found, load_world, load_card_found}
use payme_mock.Subscribe.Receipts.{ReceiptsPayParams, receipts_pay, paid_with}

begun_receipt :
    (card_id : ℤ) (card_system : CardSystem) (hold : Bool) (now : ℤ) (r : Receipt)
    → (begin_pay card_id card_system hold now r).0 ≡ ok tt
    → ((begin_pay card_id card_system hold now r).1.state ≡ ReceiptState.checking)
      × ((begin_pay card_id card_system hold now r).1.card_id ≡ some card_id)
      × ((begin_pay card_id card_system hold now r).1.amount ≡ r.amount)
      × ((begin_pay card_id card_system hold now r).1.receipt_id ≡ r.receipt_id)
unfolding begin_pay
begun_receipt card_id card_system hold now r e =
    (ground arith, ground arith, ground arith, ground arith)

pub charge_keeps_id : (amount : ℤ) (c : Card) → (charge amount c).id ≡ c.id
unfolding charge
charge_keeps_id amount c = ground arith

module _ {W : Type 0} (ports : Ports W) (settings : Settings) (laws : Lawful ports) where
  -- What a payment that succeeded from `w` leaves in `w'`.
  abbrev pub Paid : ReceiptsPayParams → W → W → Type 0
  Paid p w w' =
      (r : Receipt) × (c : Card) × (s : Receipt) × (ports.receipt_by_id p.id w ≡ ok r)
      × (ports.card_by_token p.token w ≡ ok c)
      × (ports.receipt_by_id r.receipt_id w' ≡ ok s)
      × (s.state ≡ ReceiptState.checking)
      × (s.card_id ≡ some c.id)
      × (s.amount ≡ r.amount)
      × (ports.card_by_id c.id w' ≡ ok (charge r.amount c))

  pub found_as :
      (a b : Text) (x : Result Receipt) (w : W)
      → a ≡ b
      → ports.receipt_by_id a w ≡ x
      → ports.receipt_by_id b w ≡ x
  found_as a b x w e h = cc

  pub card_as :
      (a b : ℤ) (x : Result Card) (w : W)
      → a ≡ b
      → ports.card_by_id a w ≡ x
      → ports.card_by_id b w ≡ x
  card_as a b x w e h = cc

  pub pay_Paid :
      (p : ReceiptsPayParams) (w : W)
      → Ensures (λ _ w'. Paid p w w') (receipts_pay ports settings p) w
  unfolding receipts_pay paid_with
  pay_Paid p w = Ensures-bind _ _ w λ r loaded. Ensures-bind _ _ _ λ c carded.
      Ensures-bind _ _ _ λ _ _. Ensures-bind _ _ _ λ now _. Ensures-bind _ _ _ λ _ begun.
        let (checking, card, amount, named) =
          begun_receipt c.id (system c) (p.hold || r.hold) now r begun in
        Ensures-bind _ _ _ λ txn _. Ensures-bind _ _ _ λ _ charged. Ensures-bind _ _ _ λ _ stored.
          Ensures-bind _ _ _ λ _ _. record {
            at = λ _ _. (
              r,
              c,
              paid_with ports settings p (p.hold || r.hold) now txn
                  (begin_pay c.id (system c) (p.hold || r.hold) now r).1,
              load_found ports settings p.id r w loaded,
              subst (λ x. ports.card_by_token p.token x ≡ ok c) (load_world ports settings p.id w)
                  (load_card_found ports settings p.token c _ carded),
              laws.schedule_receipt _ _ _ _
                  ∙ found_as _ _ _ _ named (laws.receipt_stored _ _ stored),
              checking,
              card,
              amount,
              laws.schedule_card _ _ _ _
                  ∙ laws.receipt_card _ _ _
                  ∙ card_as _ _ _ _ (charge_keeps_id r.amount c) (laws.card_stored _ _ charged),
            );
          }
