-- ===== src/Subscribe/Receipts/Refund.antt =====
-- subscribe/application/service.go: `ReceiptsCancel` after `ReceiptsPay`, and the card.
use payme_mock.Base.{
  ◌≡◌, refl, sym, ap, subst, ◌∙◌, Bool, true, false, not, Option, none, some, arith, if◌then◌else◌,
}
use payme_mock.Base.Int.{ℤ, pos, eq_ℤ}
use payme_mock.Base.Int64.{IsInt64}
use payme_mock.Base.Text.{Text}
use payme_mock.Kernel.Effect.{Result, ok, err, Action, when}
use payme_mock.Kernel.Effect.Ensures.{Ensures, Ensures-bind, ok_injective}
use payme_mock.Subscribe.Card.{Card, charge, refund}
use payme_mock.Subscribe.Card.Laws.{refund-charge}
use payme_mock.Subscribe.Receipt.{Receipt, ReceiptState, cancel, is_cancelling, is_cancel_queued}
use payme_mock.Subscribe.Ports.{Ports, Settings, ReceiptView}
use payme_mock.Subscribe.Laws.{Lawful}
use payme_mock.Subscribe.View.Load.{load_found, load_world}
use payme_mock.Subscribe.Receipts.Paid.{charge_keeps_id, found_as, card_as, pay_Paid}
use payme_mock.Subscribe.Receipts.{
  ReceiptsPayParams, receipts_pay, receipts_cancel, cancel_writes, refund_receipt, refund_card,
  refund_to,
}

refund_keeps_id : (amount : ℤ) (c : Card) → (refund amount c).id ≡ c.id
unfolding refund
refund_keeps_id amount c = ground arith

-- A cancellation of a payment under way queues it, and keeps what the refund reads.
cancelled_receipt :
    (now : ℤ) (r : Receipt)
    → r.state ≡ ReceiptState.checking
    → ((cancel now r).1.card_id ≡ r.card_id)
      × ((cancel now r).1.pay_time ≡ r.pay_time)
      × ((cancel now r).1.amount ≡ r.amount)
unfolding cancel
cancelled_receipt now r s = (ground arith, ground arith, ground arith)

some_injective : {a b : ℤ} → some a ≡ some b → a ≡ b
some_injective h = cc

if_else : {W A : Type 0} {b : Bool} (x y : Action W A) → b ≡ false → (if b then x else y) ≡ y
if_else x y d = rw d

module _ {W : Type 0} (ports : Ports W) (settings : Settings) (laws : Lawful ports) where
  scheduled_card :
      (b : Bool) (name : Text) (id : ℤ) (w : W)
      → ports.card_by_id id (when b (ports.schedule_advance name settings.step_delay_millis) w).1
        ≡ ports.card_by_id id w
  scheduled_card true name id w = laws.schedule_card name _ id w
  scheduled_card false name id w = refl

  -- The card `c`, stored as `id`, is credited in `w'`.
  abbrev Credited : ℤ → Card → ℤ → W → Type 0
  Credited id c amount w' = ports.card_by_id id w' ≡ ok (refund amount c)

  card_Credited :
      (r : Receipt) (c : Card) (x : Result Card) (w : W)
      → x ≡ ok c
      → Ensures (λ _ w'. Credited c.id c r.amount w') (refund_card ports settings r x) w
  unfolding refund_card
  card_Credited r c (ok d) w e = record {
    at = λ _ written.
        subst
          (λ y.
            ports.card_by_id y.id (ports.update_card (refund r.amount d) w).1
            ≡ ok (refund r.amount y))
          (ok_injective e)
          (card_as ports settings laws _ _ _ _ (refund_keeps_id r.amount d)
            (laws.card_stored _ w written));
  }
  card_Credited r c (err x) w e = record { at = λ _ _. cc }

  refund_Credited :
      (r : Receipt) (c : Card) (o : Option ℤ) (w : W)
      → o ≡ some c.id
      → eq_ℤ r.pay_time (pos 0) ≡ false
      → ports.card_by_id c.id w ≡ ok c
      → Ensures (λ _ w'. Credited c.id c r.amount w') (refund_to ports settings o r) w
  unfolding refund_to
  refund_Credited r c none w o d stored = record { at = λ _ _. cc }
  refund_Credited r c (some id) w o d stored =
      subst (λ m. Ensures (λ _ w'. Credited c.id c r.amount w') m w) (sym (if_else _ _ d))
        (record {
          at =
              (card_Credited r c (ports.card_by_id id w) w
                (card_as ports settings laws _ _ _ _ (sym (some_injective o)) stored)).at;
        })

  when-Credited :
      (b : Bool) (r : Receipt) (c : Card) (w : W)
      → b ≡ false
      → r.card_id ≡ some c.id
      → eq_ℤ r.pay_time (pos 0) ≡ false
      → ports.card_by_id c.id w ≡ ok c
      → Ensures
          (λ _ w'. Credited c.id c r.amount w')
          (when (not b) (cancel_writes ports settings r))
          w
  unfolding cancel_writes refund_receipt
  when-Credited true r c w b o d stored = record { at = λ _ _. cc }
  when-Credited false r c w b o d stored = Ensures-bind _ _ w λ u credited.
      Ensures-bind _ _ _ λ _ _. record {
        at = λ _ _.
            scheduled_card (is_cancel_queued r.state) r.receipt_id c.id _
            ∙ laws.receipt_card r c.id _
            ∙ (refund_Credited r c r.card_id w o d stored).at u credited;
      }

  -- A cancellation of a payment under way credits the card that paid.
  cancel_Credited :
      (id : Text) (s : Receipt) (c : Card) (w : W)
      → ports.receipt_by_id id w ≡ ok s
      → s.state ≡ ReceiptState.checking
      → s.card_id ≡ some c.id
      → eq_ℤ s.pay_time (pos 0) ≡ false
      → ports.card_by_id c.id w ≡ ok c
      → Ensures (λ _ w'. Credited c.id c s.amount w') (receipts_cancel ports settings id) w
  unfolding receipts_cancel
  cancel_Credited id s c w found checking card time stored = Ensures-bind _ _ w λ r loaded.
      Ensures-bind _ _ _ λ now _.
        let same = ok_injective (sym (load_found ports settings id r w loaded) ∙ found) in
        let (card', time', amount') =
          cancelled_receipt now r (ap (λ (x : Receipt). x.state) same ∙ checking) in
        Ensures-bind _ _ _ λ _ _. Ensures-bind _ _ _ λ u written. record {
          at = λ _ _.
              (when-Credited (is_cancelling r.state) (cancel now r).1 c _
                  (ap (λ (x : Receipt). is_cancelling x.state) same ∙ ap is_cancelling checking)
                  (card' ∙ ap (λ (x : Receipt). x.card_id) same ∙ card)
                  (ap (λ t. eq_ℤ t (pos 0)) (time' ∙ ap (λ (x : Receipt). x.pay_time) same) ∙ time)
                  (laws.now_card c.id _
                    ∙ ap (ports.card_by_id c.id) (load_world ports settings id w)
                    ∙ stored)).at
                u written
              ∙ ap (λ n. ok (refund n c)) (amount' ∙ ap (λ (x : Receipt). x.amount) same);
        }

  -- A receipt is paid with a card and then cancelled, both with success, where the payment left
  -- a time other than zero on the receipt. After the payment the card that was found by its token
  -- is stored with exactly the receipt's amount charged, and after the cancellation it is stored
  -- as it was loaded for the payment: the payer has the money back, once.
  pub receipts_cancel-receipts_pay :
      (p : ReceiptsPayParams) (r : Receipt) (c : Card) (v v' : ReceiptView) (w : W)
      → ports.receipt_by_id p.id w ≡ ok r
      → r.receipt_id ≡ p.id
      → ports.card_by_token p.token w ≡ ok c
      → IsInt64 c.balance
      → (receipts_pay ports settings p w).0 ≡ ok v
      → let w' = (receipts_pay ports settings p w).1 in
        ((s : Receipt) → ports.receipt_by_id p.id w' ≡ ok s → eq_ℤ s.pay_time (pos 0) ≡ false)
        → (receipts_cancel ports settings p.id w').0 ≡ ok v'
        → (ports.card_by_id c.id w' ≡ ok (charge r.amount c))
          × (ports.card_by_id c.id (receipts_cancel ports settings p.id w').1 ≡ ok c)
  receipts_cancel-receipts_pay p r c v v' w found named carded range e timed f =
      let (r', c', s, found', carded', stored, checking, card, amount, charged) =
        (pay_Paid ports settings laws p w).at v e in
      let same = ok_injective (sym found' ∙ found) in
      let same_card = ok_injective (sym carded' ∙ carded) in
      let total = amount ∙ ap (λ (x : Receipt). x.amount) same in
      let there =
        found_as ports settings laws _ _ _ _ (ap (λ (x : Receipt). x.receipt_id) same ∙ named)
          stored in
      let held =
        card_as ports settings laws _ c.id _ _ (ap (λ (x : Card). x.id) same_card) charged
        ∙ ap ok (
            ap (λ n. charge n c') (ap (λ (x : Receipt). x.amount) same)
            ∙ ap (charge r.amount) same_card) in
      (
        held,
        card_as ports settings laws _ _ _ _ (charge_keeps_id r.amount c) (
              (cancel_Credited p.id s (charge r.amount c) _ there checking
                  (card
                    ∙ ap some
                        (ap (λ (x : Card). x.id) same_card ∙ sym (charge_keeps_id r.amount c)))
                  (timed s there)
                  (card_as ports settings laws _ _ _ _ (sym (charge_keeps_id r.amount c)) held)).at
                v' f)
            ∙ ap ok (ap (λ n. refund n (charge r.amount c)) total ∙ refund-charge r.amount c range),
      )
