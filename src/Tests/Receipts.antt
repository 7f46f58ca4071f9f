-- ===== src/Tests/Receipts.antt =====
-- A receipt is paid and cancelled on the in-memory stand.
use payme_mock.Base.{◌≡◌, refl, true, false, arith, none, some, [], ◌∷◌, if◌then◌else◌, subst}
use payme_mock.Base.Int.{pos, eq_ℤ}
use payme_mock.Base.Text.{text, eq_text}
use payme_mock.Kernel.Effect.{ok, ◌>>=◌}
use payme_mock.Subscribe.Card.{
  CardSystem, number_mask, plain_expire, usable, charge, refund, system,
}
use payme_mock.Subscribe.Receipt.{Receipt, ReceiptState, advance, begin_pay, cancel}
use payme_mock.Subscribe.Receipt.Walk.{walk, walk_ends, walk-begin_pay}
use payme_mock.Subscribe.Receipts.{
  ReceiptsPayParams, receipts_pay, receipts_cancel, drive_merchant, paid_with, cancel_writes,
  refund_receipt,
}
use payme_mock.Subscribe.Ports.{ReceiptView}
use payme_mock.Subscribe.View.{load_receipt, view, account_view, receipt_card, load_card}
use payme_mock.Subscribe.Inmem.{by_receipt_id, by_id, update_card, update_receipt, Stand, by_token}
use payme_mock.Subscribe.Inmem.Wiring.{
  stand_ports, check_perform, create_transaction, perform_transaction, issue,
}
use payme_mock.Subscribe.Inmem.Laws.{stand_ports-Lawful}
use payme_mock.Subscribe.Receipts.Refund.{receipts_cancel-receipts_pay}
use payme_mock.Kernel.Effect.Ensures.{ok_injective}
use payme_mock.Tests.Subscribe.{card, receipt, unsorted, stand, settings, paid_view}

abbrev unpaid : Receipt
unpaid = record receipt { payout = false; card_id = none; merchant_txn = [] }

abbrev under_way : Receipt
under_way = record unpaid { state = ReceiptState.checking }

walk_ends_example :
    advance (pos 9) (walk (pos 1 ∷ pos 2 ∷ pos 3 ∷ []) under_way)
    ≡ (false, walk (pos 1 ∷ pos 2 ∷ pos 3 ∷ []) under_way)
walk_ends_example = walk_ends (pos 1 ∷ pos 2 ∷ pos 3 ∷ []) (pos 9) under_way refl (omega arith)

walk-begin_pay_example :
    walk
      (pos 61 ∷ pos 62 ∷ pos 63 ∷ [])
      (begin_pay (pos 1) CardSystem.uzcard true (pos 60) unpaid).1
    ≡ record (begin_pay (pos 1) CardSystem.uzcard true (pos 60) unpaid).1 {
      state = if true then ReceiptState.held else ReceiptState.paid;
    }
unfolding begin_pay
walk-begin_pay_example =
    walk-begin_pay (pos 1) CardSystem.uzcard true (pos 60) (pos 61) (pos 62) (pos 63) unpaid refl

abbrev pay_params : ReceiptsPayParams
pay_params = record { id = text "r1"; token = text "t1"; payer = []; hold = false }

abbrev pay_stand : Stand
pay_stand = record stand { receipts = (text "r1", unpaid) ∷ [] }

abbrev charged_stand : Stand
charged_stand = (receipts_pay (stand_ports unsorted) settings pay_params pay_stand).1

abbrev checking_view : ReceiptView
checking_view = record paid_view { state = ReceiptState.checking }

abbrev queued_view : ReceiptView
queued_view = record paid_view { state = ReceiptState.cancel_queued; cancel_time = pos 100 }

abbrev charged_receipt : Receipt
charged_receipt = record unpaid {
  state = ReceiptState.checking;
  card_id = some (pos 1);
  card_system = some CardSystem.uzcard;
  pay_time = pos 100;
  merchant_txn = ((stand_ports unsorted).transaction_id pay_stand).0;
}

abbrev queued_stand : Stand
queued_stand = (receipts_cancel (stand_ports unsorted) settings (text "r1") charged_stand).1

pay_answer :
    (receipts_pay (stand_ports unsorted) settings pay_params pay_stand).0 ≡ ok checking_view
unfolding receipts_pay ◌>>=◌ load_receipt stand_ports by_receipt_id eq_text load_card by_token
    usable begin_pay drive_merchant check_perform create_transaction perform_transaction issue
    update_card charge paid_with system update_receipt view account_view receipt_card number_mask
    plain_expire by_id
pay_answer = refl

cancel_answer :
    (receipts_cancel (stand_ports unsorted) settings (text "r1") charged_stand).0 ≡ ok queued_view
unfolding receipts_cancel cancel cancel_writes refund_receipt refund receipts_pay ◌>>=◌ load_receipt
    stand_ports by_receipt_id eq_text load_card by_token usable begin_pay drive_merchant
    check_perform create_transaction perform_transaction issue update_card charge paid_with system
    update_receipt view account_view receipt_card number_mask plain_expire by_id
cancel_answer = refl

receipts_cancel-receipts_pay_example :
    ((stand_ports unsorted).card_by_id (pos 1) charged_stand ≡ ok (charge (pos 700) card))
    × ((stand_ports unsorted).card_by_id (pos 1) queued_stand ≡ ok card)
unfolding stand_ports receipts_pay ◌>>=◌ load_receipt by_receipt_id eq_text load_card by_token
    usable begin_pay drive_merchant check_perform create_transaction perform_transaction issue
    update_card charge paid_with system update_receipt view account_view receipt_card number_mask
    plain_expire by_id
receipts_cancel-receipts_pay_example =
    receipts_cancel-receipts_pay (stand_ports unsorted) settings (stand_ports-Lawful unsorted)
      pay_params unpaid card checking_view queued_view pay_stand refl refl refl
      (omega arith, omega arith) pay_answer
      (λ s h. subst (λ r. eq_ℤ r.pay_time (pos 0) ≡ false) (ok_injective h) refl) cancel_answer
