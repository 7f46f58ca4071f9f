-- ===== src/Subscribe/Laws.antt =====
-- What the methods rely on of the repositories: a stored card or receipt is found as it was
-- stored, and what else a method calls leaves the stored cards and receipts alone.
use payme_mock.Base.{◌≡◌}
use payme_mock.Base.Int.{ℤ}
use payme_mock.Base.Text.{Text}
use payme_mock.Kernel.Effect.{ok}
use payme_mock.Subscribe.Card.{Card}
use payme_mock.Subscribe.Receipt.{Receipt}
use payme_mock.Subscribe.Ports.{Ports}

pub record Lawful {W : Type 0} (ports : Ports W) : Type 0 where
  pub receipt_stored :
      (r : Receipt) (w : W)
      → (ports.update_receipt r w).0 ≡ ok tt
      → ports.receipt_by_id r.receipt_id (ports.update_receipt r w).1 ≡ ok r
  pub card_stored :
      (c : Card) (w : W)
      → (ports.update_card c w).0 ≡ ok tt
      → ports.card_by_id c.id (ports.update_card c w).1 ≡ ok c
  pub receipt_card :
      (r : Receipt) (id : ℤ) (w : W)
      → ports.card_by_id id (ports.update_receipt r w).1 ≡ ports.card_by_id id w
  pub schedule_receipt :
      (x : Text) (d : ℤ) (id : Text) (w : W)
      → ports.receipt_by_id id (ports.schedule_advance x d w).1 ≡ ports.receipt_by_id id w
  pub schedule_card :
      (x : Text) (d : ℤ) (id : ℤ) (w : W)
      → ports.card_by_id id (ports.schedule_advance x d w).1 ≡ ports.card_by_id id w
  pub now_receipt :
      (id : Text) (w : W) → ports.receipt_by_id id (ports.now w).1 ≡ ports.receipt_by_id id w
  pub now_card : (id : ℤ) (w : W) → ports.card_by_id id (ports.now w).1 ≡ ports.card_by_id id w
