-- ===== src/Subscribe/Inmem/Laws.antt =====
-- subscribe/infrastructure/inmem/inmem.go: the stand's repositories and its ledger.
use payme_mock.Base.{◌≡◌, refl, arith, true, some, List, ap, ◌∙◌}
use payme_mock.Base.Int.{ℤ}
use payme_mock.Base.Text.{Text}
use payme_mock.Base.Dict.{lookup, lookup-insert_self, int_eq, text_eq}
use payme_mock.Kernel.Effect.{ok}
use payme_mock.Subscribe.Card.{Card}
use payme_mock.Subscribe.Receipt.{Receipt}
use payme_mock.Subscribe.Ports.{Payout}
use payme_mock.Subscribe.Laws.{Lawful}
use payme_mock.Subscribe.Inmem.{Stand, by_id, update_card, by_receipt_id, update_receipt}
use payme_mock.Subscribe.Inmem.Wiring.{settle_payout, settle_once, stand_ports}

by_id-update_card :
    (c : Card) (s : Stand) → (update_card c s).0 ≡ ok tt → by_id c.id (update_card c s).1 ≡ ok c
unfolding by_id update_card
by_id-update_card c s e = ground (arith, lookup-insert_self c.id c s.cards)

by_receipt_id-update_receipt :
    (r : Receipt) (s : Stand)
    → (update_receipt r s).0 ≡ ok tt
    → by_receipt_id r.receipt_id (update_receipt r s).1 ≡ ok r
unfolding by_receipt_id update_receipt
by_receipt_id-update_receipt r s e = ground (arith, lookup-insert_self r.receipt_id r s.receipts)

by_id-update_receipt :
    (r : Receipt) (id : ℤ) (s : Stand) → by_id id (update_receipt r s).1 ≡ by_id id s
unfolding by_id update_receipt
by_id-update_receipt r id s = ground arith

-- The repositories of the in-memory stand keep the laws that the methods rely on.
pub stand_ports-Lawful : (sort_strings : List Text → List Text) → Lawful (stand_ports sort_strings)
unfolding stand_ports
stand_ports-Lawful sort_strings = record {
  receipt_stored = by_receipt_id-update_receipt;
  card_stored = by_id-update_card;
  receipt_card = by_id-update_receipt;
  schedule_receipt = λ x d id s. refl;
  schedule_card = λ x d id s. refl;
  now_receipt = λ id s. refl;
  now_card = λ id s. refl;
}

settled-settle_payout :
    (p : Payout) (s : Stand) → lookup p.transaction_id (settle_payout p s).1.settled ≡ some true
unfolding settle_payout
settled-settle_payout p s = ground (arith, lookup-insert_self p.transaction_id true s.settled)

-- Settling the same payout again changes nothing, whatever amount and times the repeat names.
pub settle_payout-settle_payout :
    (p q : Payout) (s : Stand)
    → q.transaction_id ≡ p.transaction_id
    → (settle_payout q (settle_payout p s).1).1 ≡ (settle_payout p s).1
unfolding settle_payout
settle_payout-settle_payout p q s e =
    let t = (settle_payout p s).1 in
    ap (λ x. settle_once x q t) (ap (λ k. lookup k t.settled) e ∙ settled-settle_payout p s)
