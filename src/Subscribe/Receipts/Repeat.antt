-- ===== src/Subscribe/Receipts/Repeat.antt =====
-- subscribe/application/service.go: `ReceiptsCancel`, called again.
use payme_mock.Base.{◌≡◌, refl, sym, ap, subst, ◌∙◌, Bool, true, false, not, arith}
use payme_mock.Base.Int.{ℤ}
use payme_mock.Base.Text.{Text, is_empty}
use payme_mock.Kernel.Effect.{Action, ok, lift, when, ◌>>=◌, ◌>>◌}
use payme_mock.Kernel.Effect.Ensures.{Ensures, Ensures-bind, >>=-ok, ok_injective}
use payme_mock.Subscribe.Receipt.{Receipt, cancel, is_cancelling, is_cancel_queued}
use payme_mock.Subscribe.Ports.{Ports, Settings, ReceiptView}
use payme_mock.Subscribe.Laws.{Lawful}
use payme_mock.Subscribe.View.{load_receipt, answer, clock}
use payme_mock.Subscribe.View.Load.{load_stored, load_found, load_world}
use payme_mock.Subscribe.Receipts.{receipts_cancel, cancel_writes}
use payme_mock.Subscribe.Receipts.Paid.{found_as}

cancel_idle : (now : ℤ) (r : Receipt) → is_cancelling r.state ≡ true → cancel now r ≡ (ok tt, r)
unfolding cancel
cancel_idle now r p = ground arith

cancel_leaves :
    (now : ℤ) (r : Receipt)
    → (cancel now r).0 ≡ ok tt
    → (is_cancelling (cancel now r).1.state ≡ true) × ((cancel now r).1.receipt_id ≡ r.receipt_id)
unfolding cancel
cancel_leaves now r e = (ground arith, ground arith)

module _ {W : Type 0} (ports : Ports W) (settings : Settings) (laws : Lawful ports) where
  -- In `w` the receipt `id` is stored, cancelled or waiting to be.
  abbrev Cancelling : Text → W → Type 0
  Cancelling id w =
      (s : Receipt) × (ports.receipt_by_id id w ≡ ok s) × (is_cancelling s.state ≡ true)

  scheduled_receipt :
      (b : Bool) (name id : Text) (w : W)
      → ports.receipt_by_id id (when b (ports.schedule_advance name settings.step_delay_millis) w).1
        ≡ ports.receipt_by_id id w
  scheduled_receipt true name id w = laws.schedule_receipt name _ id w
  scheduled_receipt false name id w = refl

  writes_receipt :
      (r : Receipt) (w : W)
      → Ensures
          (λ _ w'. ports.receipt_by_id r.receipt_id w' ≡ ok r)
          (cancel_writes ports settings r)
          w
  unfolding cancel_writes
  writes_receipt r w = Ensures-bind _ _ w λ _ _. Ensures-bind _ _ _ λ _ stored. record {
    at = λ _ _.
        scheduled_receipt (is_cancel_queued r.state) r.receipt_id r.receipt_id _
        ∙ laws.receipt_stored r _ stored;
  }

  when-Cancelling :
      (b : Bool) (now : ℤ) (r : Receipt) (w : W)
      → is_cancelling r.state ≡ b
      → (cancel now r).0 ≡ ok tt
      → ports.receipt_by_id r.receipt_id w ≡ ok r
      → Ensures
          (λ _ w'. Cancelling r.receipt_id w')
          (when (not b) (cancel_writes ports settings (cancel now r).1))
          w
  when-Cancelling true now r w p e stored = record { at = λ _ _. (r, stored, p) }
  when-Cancelling false now r w p e stored =
      let (done, named) = cancel_leaves now r e in
      record {
        at = λ u written. (
          (cancel now r).1,
          found_as ports settings laws _ _ _ _ named
              ((writes_receipt (cancel now r).1 w).at u written),
          done,
        );
      }

  Cancelling-as : (i j : Text) (w : W) → i ≡ j → Cancelling i w → Cancelling j w
  Cancelling-as i j w e h = subst (λ k. Cancelling k w) e h

  cancel_Cancelling :
      (id : Text) (r : Receipt) (w : W)
      → ports.receipt_by_id id w ≡ ok r
      → r.receipt_id ≡ id
      → Ensures (λ _ w'. Cancelling id w') (receipts_cancel ports settings id) w
  unfolding receipts_cancel
  cancel_Cancelling id r w stored named = Ensures-bind _ _ w λ s loaded. Ensures-bind _ _ _ λ now _.
      Ensures-bind _ _ _ λ _ done. Ensures-bind _ _ _ λ u written.
        let same = ok_injective (sym (load_found ports settings id s w loaded) ∙ stored) in
        let named' = ap (λ (x : Receipt). x.receipt_id) same ∙ named in
        record {
          at = λ _ _. Cancelling-as _ _ _ named' (
              (when-Cancelling (is_cancelling s.state) now s _ refl done (
                  laws.now_receipt _ _
                  ∙ ap (ports.receipt_by_id s.receipt_id) (load_world ports settings id w)
                  ∙ found_as ports settings laws _ _ _ _ (sym named')
                      (load_found ports settings id s w loaded))).at
                u written);
        }

  -- The part of `receipts_cancel` after the receipt was loaded.
  abbrev cancel_loaded : Receipt → Action W ReceiptView
  cancel_loaded r = clock ports settings >>= λ now.
      lift (cancel now r).0
      >> (when (not (is_cancelling r.state)) (cancel_writes ports settings (cancel now r).1)
          >> answer ports settings (cancel now r).1)

  loaded_again :
      (s : Receipt) (w : W)
      → is_cancelling s.state ≡ true
      → cancel_loaded s w ≡ answer ports settings s (ports.now w).1
  unfolding ◌>>=◌
  loaded_again s w p =
      ap
        (λ x.
          (lift x.0
              >> (when (not (is_cancelling s.state)) (cancel_writes ports settings x.1)
                  >> answer ports settings x.1))
            (ports.now w).1)
        (cancel_idle (ports.now w).0 s p)
      ∙ ap
          (λ b.
            (when (not b) (cancel_writes ports settings s) >> answer ports settings s)
              (ports.now w).1)
          p

  cancel_again :
      (id : Text) (s : Receipt) (w : W)
      → is_empty id ≡ false
      → ports.receipt_by_id id w ≡ ok s
      → is_cancelling s.state ≡ true
      → receipts_cancel ports settings id w ≡ answer ports settings s (ports.now w).1
  unfolding receipts_cancel
  cancel_again id s w full stored p =
      >>=-ok (load_receipt ports settings id) cancel_loaded w w
        (load_stored ports settings id s w full stored)
      ∙ loaded_again s w p

  -- Once `ReceiptsCancel` has succeeded, cancelling the receipt again succeeds with the receipt as
  -- it is stored, and reads the clock alone: no card is refunded, nothing is stored, and no step
  -- is scheduled a second time.
  pub receipts_cancel_twice :
      (id : Text) (r : Receipt) (v : ReceiptView) (w : W)
      → is_empty id ≡ false
      → ports.receipt_by_id id w ≡ ok r
      → r.receipt_id ≡ id
      → (receipts_cancel ports settings id w).0 ≡ ok v
      → let w' = (receipts_cancel ports settings id w).1 in
        (s : Receipt) × (ports.receipt_by_id id w' ≡ ok s)
        × (is_cancelling s.state ≡ true)
        × (receipts_cancel ports settings id w' ≡ answer ports settings s (ports.now w').1)
  receipts_cancel_twice id r v w full stored named e =
      let (s, stored', p) = (cancel_Cancelling id r w stored named).at v e in
      (s, stored', p, cancel_again id s _ full stored' p)
