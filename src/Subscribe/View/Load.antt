-- ===== src/Subscribe/View/Load.antt =====
-- subscribe/application/service.go: `loadReceipt` and `loadCard`.
use payme_mock.Base.{◌≡◌, false, Bool-cases, inl, inr, arith}
use payme_mock.Base.Text.{Text, is_empty}
use payme_mock.Kernel.Effect.{Result, ok, err, fail, ◌>>=◌}
use payme_mock.Kernel.Errors.{err_invalid_request}
use payme_mock.Subscribe.Card.{Card}
use payme_mock.Subscribe.Receipt.{Receipt}
use payme_mock.Subscribe.Ports.{Ports, Settings}
use payme_mock.Subscribe.View.{load_receipt, loaded_receipt, load_card, loaded_card}

refused : {r : Receipt} → fail {A = Receipt} err_invalid_request ≡ ok r → ⊥
refused h = cc

refused_card : {c : Card} → fail {A = Card} err_invalid_request ≡ ok c → ⊥
refused_card h = cc

module _ {W : Type 0} (ports : Ports W) (settings : Settings) where
  pub load_stored :
      (id : Text) (r : Receipt) (w : W)
      → is_empty id ≡ false
      → ports.receipt_by_id id w ≡ ok r
      → load_receipt ports settings id w ≡ (ok r, w)
  unfolding load_receipt
  load_stored id r w e h = rw (e, h, loaded_receipt)

  pub load_world : (id : Text) (w : W) → (load_receipt ports settings id w).1 ≡ w
  unfolding load_receipt
  load_world id w = elim (Bool-cases (is_empty id)) [ inl e ↦ rw e | inr e ↦ rw e ]

  loaded_ok : (x : Result Receipt) (r : Receipt) → loaded_receipt ports settings x ≡ ok r → x ≡ ok r
  unfolding loaded_receipt
  loaded_ok (ok s) r h = h
  loaded_ok (err e) r h = absurd (ground arith)

  pub load_found :
      (id : Text) (r : Receipt) (w : W)
      → (load_receipt ports settings id w).0 ≡ ok r
      → ports.receipt_by_id id w ≡ ok r
  unfolding load_receipt
  load_found id r w h = elim (Bool-cases (is_empty id)) [
    | inl e ↦ absurd (refused (rw e at h))
    | inr e ↦ loaded_ok _ r (rw e at h)
  ]

  carded_ok :
      (x : Result Card) (c : Card) (w : W) → (loaded_card ports settings x w).0 ≡ ok c → x ≡ ok c
  unfolding loaded_card ◌>>=◌
  carded_ok (ok s) c w h = h
  carded_ok (err e) c w h = absurd (ground arith)

  pub load_card_found :
      (token : Text) (c : Card) (w : W)
      → (load_card ports settings token w).0 ≡ ok c
      → ports.card_by_token token w ≡ ok c
  unfolding load_card
  load_card_found token c w h = elim (Bool-cases (is_empty token)) [
    | inl e ↦ absurd (refused_card (rw e at h))
    | inr e ↦ carded_ok _ c w (rw e at h)
  ]
