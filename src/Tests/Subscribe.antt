-- ===== src/Tests/Subscribe.antt =====
-- The card, the receipt and the payout, at concrete values and on the in-memory stand.
use payme_mock.Base.{◌≡◌, refl, true, false, arith, ◌⊎◌, ◌≢◌, none, some, List, [], ◌∷◌}
use payme_mock.Subscribe.Card.{
  plain_expire, Card, receive, number_mask, operable, verify_with, send_verify_code, charge, refund,
  default_verify_code,
}
use payme_mock.Subscribe.Inmem.{by_receipt_id, by_id, update_card, update_receipt, Stand}
use payme_mock.Subscribe.Inmem.Wiring.{stand_ports, settle_payout}
use payme_mock.Base.Text.{Text, text, eq_text}
use payme_mock.Kernel.Effect.{ok, fail, ◌>>=◌, ◌>>◌}
use payme_mock.Kernel.Errors.{err_cannot_perform}
use payme_mock.Base.Int.{pos, minus, ◌≤ℤ◌, ◌-ℤ◌}
use payme_mock.Subscribe.Outcome.{Outcome, Source}
use payme_mock.Subscribe.Card.Laws.{refund-charge, verify_with-send}
use payme_mock.Subscribe.Receipt.{Receipt, ReceiptState, is_paid, complete}
use payme_mock.Subscribe.Receipt.Laws as Walk
use payme_mock.Subscribe.Receipt.Laws.{Edge, after-Edge, run_cancelled}
use payme_mock.Subscribe.Ports.{Settings, Payout, ReceiptView}
use payme_mock.Subscribe.Payouts
use payme_mock.Subscribe.Payouts.{transactions_complete, payout_card}
use payme_mock.Subscribe.Payouts.Repeat.{transactions_complete_twice}
use payme_mock.Subscribe.View.{answer, load_receipt, view, account_view, receipt_card}
use payme_mock.Subscribe.Inmem.Laws.{stand_ports-Lawful}

abbrev pub card : Card
card = record {
  id = pos 1;
  sandbox_id = pos 1;
  token = text "t1";
  number_full = text "8600060921090842";
  expire = text "03/99";
  recurrent = true;
  verify = true;
  verify_code = [];
  phone = text "998901234567";
  balance = pos 1000;
  removed = false;
  outcome = Outcome.success;
  source = Source.api;
  sms_enabled = true;
  frozen = false;
  delay_millis = pos 0;
  account = [];
  customer = [];
  verify_code_sent_at = pos 0;
  verify_wait_millis = pos 0;
  registered_at = pos 0;
}

refund-charge_example : refund (pos 700) (charge (pos 700) card) ≡ card
refund-charge_example = refund-charge (pos 700) card (omega arith, omega arith)

verify_with-send_example :
    let issued = send_verify_code (text "1234") (pos 100) (pos 60000) card in
    (((text "1234" ≡ text "1234") ⊎ (text "1234" ≡ default_verify_code))
      × ((pos 60000 ≤ℤ pos 0) ⊎ ((pos 500 -ℤ pos 100) ≤ℤ pos 60000))
      × (verify_with (text "1234") (pos 500) issued ≡ (
        ok tt,
        record card {
          verify = true;
          verify_code = [];
          verify_code_sent_at = pos 100;
          verify_wait_millis = pos 60000;
        },
      )))
    ⊎ (((text "1234" ≡ text "1234") ⊎ (text "1234" ≡ default_verify_code))
        × (¬ (pos 60000 ≤ℤ pos 0))
        × (¬ ((pos 500 -ℤ pos 100) ≤ℤ pos 60000))
        × (verify_with (text "1234") (pos 500) issued ≡ (fail err_cannot_perform, issued)))
    ⊎ ((text "1234" ≢ text "1234")
        × (text "1234" ≢ default_verify_code)
        × (verify_with (text "1234") (pos 500) issued ≡ (fail err_cannot_perform, issued)))
unfolding operable ◌-ℤ◌
verify_with-send_example =
    verify_with-send (text "1234") (text "1234") (pos 100) (pos 500) (pos 60000) card refl refl refl
      (omega arith, omega arith)

abbrev waiting : Card
waiting = record card { verify = false; verify_code = text "1234" }

abbrev rigged : Card
rigged = record card { verify = false; outcome = Outcome.verify_failed }

abbrev pub receipt : Receipt
receipt = record {
  id = pos 1;
  sandbox_id = pos 1;
  receipt_id = text "r1";
  merchant_id = text "m1";
  amount = pos 700;
  currency = pos 860;
  commission = pos 0;
  state = ReceiptState.created;
  receipt_type = pos 1;
  payout = true;
  hold = false;
  hold_expire = pos 0;
  card_system = none;
  account = [];
  detail = [];
  description = [];
  card_id = some (pos 1);
  payer = [];
  create_time = pos 50;
  pay_time = pos 0;
  cancel_time = pos 0;
  merchant_txn = text "x1";
}

after-Edge_example :
    Edge receipt
      (Walk.Op.settle (pos 700) (pos 60))
      (Walk.after (Walk.Op.settle (pos 700) (pos 60)) receipt).state
after-Edge_example = after-Edge (Walk.Op.settle (pos 700) (pos 60)) receipt refl

abbrev dropped : Receipt
dropped = record receipt { state = ReceiptState.cancelled }

abbrev pub unsorted : List Text → List Text
unsorted names = names

abbrev pub stand : Stand
stand = record {
  cards = (pos 1, card) ∷ [];
  tokens = (text "t1", pos 1) ∷ [];
  next = pos 1;
  receipts = (text "r1", receipt) ∷ [];
  order = text "r1" ∷ [];
  balance = pos 5000;
  payouts = [];
  settled = [];
  calls = [];
  sent = [];
  issued = 3;
  time = pos 100;
}

abbrev transfer : Payout
transfer = record {
  transaction_id = text "x1";
  amount = pos 700;
  account = [];
  create_time = pos 50;
  pay_time = pos 100;
}

abbrev pub settings : Settings
settings = record {
  sandbox_id = pos 1;
  merchant_id = text "m1";
  merchant_name = text "Shop";
  verify_code = text "666666";
  verify_wait_millis = pos 60000;
  step_delay_millis = pos 500;
  hold_window_millis = pos 1000;
  card_balance = pos 1000000;
}

abbrev paid_stand : Stand
paid_stand =
    (transactions_complete (stand_ports unsorted) settings (text "r1") [] (pos 700) stand).1

abbrev pub paid_view : ReceiptView
paid_view = record {
  id = text "r1";
  create_time = pos 50;
  pay_time = pos 100;
  cancel_time = pos 0;
  state = ReceiptState.paid;
  receipt_type = pos 1;
  operation = minus 1;
  description = [];
  detail = [];
  amount = pos 700;
  currency = pos 860;
  commission = pos 0;
  account = [];
  card = some (record { number = text "860006******0842"; expire = text "0399" });
  merchant_id = text "m1";
  merchant_name = text "Shop";
  organization = text "Shop";
  owner = text "m1";
}

complete_answer :
    (transactions_complete (stand_ports unsorted) settings (text "r1") [] (pos 700) stand).0
    ≡ ok paid_view
unfolding transactions_complete ◌>>=◌ load_receipt stand_ports by_receipt_id eq_text payout_card
    by_id Payouts.settle_payout complete settle_payout update_card receive update_receipt view
    account_view receipt_card number_mask plain_expire
complete_answer = refl

transactions_complete_twice_example :
    (s : Receipt) × ((stand_ports unsorted).receipt_by_id (text "r1") paid_stand ≡ ok s)
    × (is_paid s.state ≡ true)
    × (transactions_complete
          (stand_ports unsorted)
          settings
          (text "r1")
          (text "t1")
          (pos 1)
          paid_stand
        ≡ (payout_card (stand_ports unsorted) settings s (text "t1")
              >> answer (stand_ports unsorted) settings s)
            paid_stand)
unfolding stand_ports by_receipt_id eq_text
transactions_complete_twice_example =
    transactions_complete_twice (stand_ports unsorted) settings (stand_ports-Lawful unsorted)
      (text "r1") [] (text "t1") (pos 700) (pos 1) receipt paid_view stand refl refl refl refl refl
      complete_answer
