-- ===== src/Subscribe/Payouts/Repeat.antt =====
-- subscribe/application/service.go: `TransactionsComplete`, called again.
use payme_mock.Base.{◌≡◌, sym, ap, subst, ◌∙◌, Bool, true, false, arith}
use payme_mock.Base.Int.{ℤ}
use payme_mock.Base.Text.{Text, is_empty}
use payme_mock.Kernel.Effect.{ok, ◌>>◌}
use payme_mock.Kernel.Effect.Ensures.{Ensures, Ensures-bind, Ensures-raise, >>=-ok, ok_injective}
use payme_mock.Subscribe.Card.{Card}
use payme_mock.Subscribe.Receipt.{Receipt, complete, is_paid}
use payme_mock.Subscribe.Ports.{Ports, Settings, ReceiptView}
use payme_mock.Subscribe.Laws.{Lawful}
use payme_mock.Subscribe.View.{load_receipt, answer}
use payme_mock.Subscribe.View.Load.{load_stored, load_found}
use payme_mock.Subscribe.Payouts.{
  transactions_complete, complete_payout, settle_unless, settle_payout, payout_card,
}

complete_paid :
    (amount now : ℤ) (r : Receipt)
    → (complete amount now r).0 ≡ ok tt
    → (is_paid (complete amount now r).1.state ≡ true)
      × ((complete amount now r).1.payout ≡ r.payout)
      × ((complete amount now r).1.receipt_id ≡ r.receipt_id)
unfolding complete
complete_paid amount now r e = (ground arith, ground arith, ground arith)

module _ {W : Type 0} (ports : Ports W) (settings : Settings) (laws : Lawful ports) where
  -- In `w` the receipt `id` is stored as a payout that is paid.
  abbrev PaidOut : Text → W → Type 0
  PaidOut id w =
      (r : Receipt) × (ports.receipt_by_id id w ≡ ok r)
      × (r.payout ≡ true)
      × (is_paid r.state ≡ true)

  found_as :
      (a b : Text) (r : Receipt) (w : W)
      → a ≡ b
      → ports.receipt_by_id a w ≡ ok r
      → ports.receipt_by_id b w ≡ ok r
  found_as a b r w e h = cc

  settle_PaidOut :
      (amount : ℤ) (r : Receipt) (c : Card) (w : W)
      → r.payout ≡ true
      → Ensures (λ _ w'. PaidOut r.receipt_id w') (settle_payout ports settings amount r c) w
  unfolding settle_payout
  settle_PaidOut amount r c w p = Ensures-bind _ _ w λ now _. Ensures-bind _ _ _ λ u completed.
      let (paid, payout, named) = complete_paid amount now r completed in
      Ensures-bind _ _ _ λ _ _. Ensures-bind _ _ _ λ _ _. Ensures-bind _ _ _ λ _ stored. record {
        at = λ _ _. (
          (complete amount now r).1,
          found_as _ _ _ _ named (laws.receipt_stored _ _ stored),
          payout ∙ p,
          paid,
        );
      }

  answer_paid :
      (b c : Bool) (token : Text) (amount : ℤ) (r : Receipt) (w : W)
      → b ≡ true
      → is_paid r.state ≡ true
      → complete_payout ports settings b token amount r w
        ≡ (payout_card ports settings r token >> answer ports settings r) w
  unfolding complete_payout
  answer_paid false c token amount r w p d = cc
  answer_paid true c token amount r w p d = rw (d, settle_unless)

  -- Completing a payout that is stored as paid, with any token and for any amount, only looks the
  -- card up and answers with the stored receipt: the ledger, the card and the receipt are not
  -- written.
  complete_again :
      (id token : Text) (amount : ℤ) (r : Receipt) (w : W)
      → is_empty id ≡ false
      → ports.receipt_by_id id w ≡ ok r
      → r.payout ≡ true
      → is_paid r.state ≡ true
      → transactions_complete ports settings id token amount w
        ≡ (payout_card ports settings r token >> answer ports settings r) w
  unfolding transactions_complete
  complete_again id token amount r w named stored payout paid =
      >>=-ok _ _ w w (load_stored ports settings id r w named stored)
      ∙ answer_paid r.payout false token amount r w payout paid

  unless_PaidOut :
      (b : Bool) (amount : ℤ) (r : Receipt) (c : Card) (w : W)
      → b ≡ false
      → r.payout ≡ true
      → Ensures (λ _ w'. PaidOut r.receipt_id w') (settle_unless ports settings b amount r c) w
  unfolding settle_unless
  unless_PaidOut true amount r c w d p = record { at = λ _ _. cc }
  unless_PaidOut false amount r c w d p = settle_PaidOut amount r c w p

  payout_PaidOut :
      (b : Bool) (token : Text) (amount : ℤ) (r : Receipt) (w : W)
      → b ≡ true
      → r.payout ≡ true
      → is_paid r.state ≡ false
      → Ensures
          (λ _ w'. PaidOut r.receipt_id w')
          (complete_payout ports settings b token amount r)
          w
  unfolding complete_payout
  payout_PaidOut false token amount r w b p d = Ensures-raise _ w
  payout_PaidOut true token amount r w b p d =
      Ensures-bind _ _ w λ card _. unless_PaidOut (is_paid r.state) amount r card _ d p

  complete_PaidOut :
      (id token : Text) (amount : ℤ) (r : Receipt) (w : W)
      → ports.receipt_by_id id w ≡ ok r
      → r.payout ≡ true
      → is_paid r.state ≡ false
      → Ensures
          (λ _ w'. PaidOut r.receipt_id w')
          (transactions_complete ports settings id token amount)
          w
  unfolding transactions_complete
  complete_PaidOut id token amount r w stored p d = Ensures-bind _ _ w λ s loaded.
      subst
        (λ x.
          Ensures (λ _ w'. PaidOut x.receipt_id w')
            (complete_payout ports settings s.payout token amount s)
            (load_receipt ports settings id w).1)
        (same s loaded)
        (payout_PaidOut s.payout token amount s _
          (ap (λ (x : Receipt). x.payout) (same s loaded) ∙ p)
          (ap (λ (x : Receipt). x.payout) (same s loaded) ∙ p)
          (ap (λ (x : Receipt). is_paid x.state) (same s loaded) ∙ d))
    where
      same : (s : Receipt) → (load_receipt ports settings id w).0 ≡ ok s → s ≡ r
      same s loaded = ok_injective (sym (load_found ports settings id s w loaded) ∙ stored)

  -- A payout moves money once. When `TransactionsComplete` of an open payout has succeeded, the
  -- receipt is stored as paid, and completing it again, with any token and for any amount, only
  -- looks the card up and answers with that receipt: the ledger, the card and the receipt are not
  -- written again.
  pub transactions_complete_twice :
      (id token token' : Text) (amount amount' : ℤ) (r : Receipt) (v : ReceiptView) (w : W)
      → is_empty id ≡ false
      → ports.receipt_by_id id w ≡ ok r
      → r.receipt_id ≡ id
      → r.payout ≡ true
      → is_paid r.state ≡ false
      → (transactions_complete ports settings id token amount w).0 ≡ ok v
      → let w' = (transactions_complete ports settings id token amount w).1 in
        (s : Receipt) × (ports.receipt_by_id id w' ≡ ok s)
        × (is_paid s.state ≡ true)
        × (transactions_complete ports settings id token' amount' w'
            ≡ (payout_card ports settings s token' >> answer ports settings s) w')
  transactions_complete_twice id token token' amount amount' r v w full stored named payout open_yet
        e =
      let (s, stored', payout', paid) =
        subst (λ i. PaidOut i (transactions_complete ports settings id token amount w).1) named
          ((complete_PaidOut id token amount r w stored payout open_yet).at v e) in
      (s, stored', paid, complete_again id token' amount' s _ full stored' payout' paid)
