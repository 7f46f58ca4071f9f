-- ===== src/Merchant/Create/Check.antt =====
-- merchant/application/service.go: `CheckPerformTransaction` beside `CreateTransaction`.
use payme_mock.Base.{◌≡◌, arith}
use payme_mock.Kernel.Effect.{Error, err, ◌>>=◌}
use payme_mock.Merchant.Ports.{Ports, Settings, CreateParams}
use payme_mock.Merchant.Service.{check_perform_transaction}
use payme_mock.Merchant.Create.{create_transaction, create_new, create_for}

module _ {W : Type 0} (ports : Ports W) (settings : Settings) where
  create_new_refused :
      (p : CreateParams) (e : Error) (w w' : W)
      → check_perform_transaction ports settings p.amount p.account w ≡ (err e, w')
      → create_new ports settings p w ≡ (err e, w')
  unfolding check_perform_transaction create_new ◌>>=◌
  create_new_refused p e w w' h = ground arith

  -- A payment that the check refuses is refused by the creation of a new transaction too, with
  -- the same error and the same effect on the stand.
  pub create_refused :
      (p : CreateParams) (e : Error) (w w' : W)
      → ports.by_payme_id p.id w ≡ err Error.not_found
      → check_perform_transaction ports settings p.amount p.account w ≡ (err e, w')
      → create_transaction ports settings p w ≡ (err e, w')
  unfolding create_transaction create_for
  create_refused p e w w' new h = rw new (create_new_refused p e w w' h)
