-- ===== src/Subscribe/Inmem/Wiring.antt =====
-- subscribe/infrastructure/inmem/inmem.go: the register's ledger, the merchant's calls, the outbox and
-- the identifiers of the in-memory stand, and the wiring of its parts.
use payme_mock.Base.{ℕ, suc, Bool, true, false, Option, none, some, List, [], ◌∷◌, ◌++◌}
use payme_mock.Base.Int.{ℤ}
use payme_mock.Base.Int64.{add64, sub64}
use payme_mock.Base.Text.{Text, text}
use payme_mock.Base.Dict.{Dict, lookup, insert, text_eq, int_eq}
use payme_mock.Kernel.Effect.{ok, Action}
use payme_mock.Subscribe.Ports.{Ports, Ledger, Payout}
use payme_mock.Subscribe.Inmem.Ids.{pad}
use payme_mock.Subscribe.Inmem.{
  Stand, by_token, by_id, by_number, create_card, update_card, token_for, by_receipt_id,
  create_receipt, update_receipt, list_receipts,
}

-- `Ledger.OpenPayout`
unfoldable pub open_payout : Payout → Action Stand (Unit {0})
open_payout p s = (ok tt, record s { payouts = s.payouts ++ (p ∷ []) })

unfoldable pub settle_once : Option Bool → Payout → Stand → Stand
unfolding insert
settle_once (some true) p s = s
settle_once (some false) p s = record s {
  settled = insert p.transaction_id true s.settled;
  balance = sub64 s.balance p.amount;
}
settle_once none p s = record s {
  settled = insert p.transaction_id true s.settled;
  balance = sub64 s.balance p.amount;
}

-- `Ledger.SettlePayout`
unfoldable pub settle_payout : Payout → Action Stand (Unit {0})
unfolding settle_once lookup
settle_payout p s = (ok tt, settle_once (lookup p.transaction_id s.settled) p s)

abbrev pub ledger : Ledger Stand
ledger = record {
  open_payout = open_payout;
  settle_payout = settle_payout;
  balance = λ s. ok s.balance;
}

-- `Merchant.record`
abbrev called : Text → Stand → Stand
called method s = record s { calls = s.calls ++ (method ∷ []) }

unfoldable pub check_perform : ℤ → Dict Text Text → Action Stand (Unit {0})
check_perform amount account s = (ok tt, called (text "CheckPerformTransaction") s)

unfoldable pub create_transaction : Text → ℤ → ℤ → Dict Text Text → Action Stand Text
create_transaction id time amount account s =
    (ok (text "merchant-" ++ id), called (text "CreateTransaction") s)

unfoldable pub perform_transaction : Text → Action Stand (Unit {0})
perform_transaction id s = (ok tt, called (text "PerformTransaction") s)

-- `SMS.Send`
unfoldable pub send : Text → Text → Action Stand (Unit {0})
send phone message s = (ok tt, record s { sent = s.sent ++ ((phone, message) ∷ []) })

-- `Tokens.pad` with the counter moved.
unfoldable pub issue : Text → ℕ → Stand → Text × Stand
unfolding pad
issue prefix width s = let n = suc s.issued in (pad prefix width n, record s { issued = n })

-- The wiring of cmd/playground over the parts above, with the fake clock for the system's.
-- `sort_strings` is the library's.
unfoldable pub stand_ports : (List Text → List Text) → Ports Stand
stand_ports sort_strings = record {
  card_by_token = by_token;
  card_by_id = by_id;
  card_by_number = by_number;
  create_card = create_card;
  update_card = update_card;
  token_for = token_for;
  receipt_by_id = by_receipt_id;
  create_receipt = create_receipt;
  update_receipt = update_receipt;
  list_receipts = list_receipts;
  check_perform = check_perform;
  create_transaction = create_transaction;
  perform_transaction = perform_transaction;
  schedule_advance = λ id delay s. (ok tt, s);
  card_token = issue (text "card") 64;
  new_receipt_id = issue (text "a1b2c3d4e5f6") 24;
  transaction_id = issue (text "f6e5d4c3b2a1") 24;
  sms = some send;
  ledger = some ledger;
  now = λ s. (s.time, s);
  sleep = λ d s. record s { time = add64 s.time d };
  sort_strings = sort_strings;
}
