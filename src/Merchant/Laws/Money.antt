-- ===== src/Merchant/Laws/Money.antt =====
-- merchant/application/service.go: settling and its reversal, and the stored account.
use payme_mock.Base.{◌≡◌, sym, ap, subst, ◌∙◌, arith, Bool, Option}
use payme_mock.Base.Int.{ℤ}
use payme_mock.Base.Text.{Text}
use payme_mock.Kernel.Errors.{Code}
use payme_mock.Kernel.Effect.{Result, ok, pure, ◌>>=◌, ◌>>◌}
use payme_mock.Kernel.Effect.Ensures.{Ensures, Ensures-bind, ok_injective}
use payme_mock.Billing.Order.{Account}
use payme_mock.Billing.Cashbox.{Kind, apply, reverse}
use payme_mock.Merchant.Transaction.{State}
use payme_mock.Merchant.Ports.{Ports, Settings}
use payme_mock.Merchant.Laws.{Lawful}
use payme_mock.Merchant.Register.{settle, unsettle, effective_kind}
use payme_mock.Merchant.Service.{record_event}

-- `m` differs from `a` in its balance alone.
abbrev SameAccount : Account → Account → Type 0
SameAccount a m = m ≡ record a { balance = m.balance }

apply-SameAccount : (k : Kind) (n : ℤ) (a : Account) → SameAccount a (apply k n a).1
unfolding apply
apply-SameAccount k n a = ground arith

reverse-SameAccount : (k : Kind) (n : ℤ) (a : Account) → SameAccount a (reverse k n a)
unfolding reverse
reverse-SameAccount k n a = ground arith

module _ {W : Type 0} (ports : Ports W) (settings : Settings) (laws : Lawful ports) where
  -- The direction in which this register moves money.
  abbrev pub kind : Kind
  kind = effective_kind settings.register_kind

  stored_account :
      (a m : Account) (w : W)
      → SameAccount a m
      → ports.register w ≡ ok a
      → (ports.update_balance m.id m.balance w).0 ≡ ok tt
      → ports.register (ports.update_balance m.id m.balance w).1 ≡ ok m
  stored_account a m w same stored =
      subst
        (λ n.
          (ports.update_balance n m.balance w).0 ≡ ok tt
          → ports.register (ports.update_balance n m.balance w).1 ≡ ok m)
        (ap (λ (x : Account). x.id) (sym same))
        (λ e. laws.balance_stored a m.balance w stored e ∙ ap ok (sym same))

  -- A settlement that went through moved the stored account as `Apply` does.
  pub settle_moves :
      (amount : ℤ) (a : Account) (w : W)
      → ports.register w ≡ ok a
      → Ensures
          (λ _ w'.
            ((apply kind amount a).0 ≡ ok tt) × (ports.register w' ≡ ok (apply kind amount a).1))
          (settle ports settings amount)
          w
  unfolding settle
  settle_moves amount a w stored = Ensures-bind _ _ w λ b loaded. Ensures-bind _ _ w λ _ applied.
      record {
        at = λ _ e.
            subst
              (λ x.
                ((apply kind amount x).0 ≡ ok tt)
                × (ports.register
                      (ports.update_balance (apply kind amount b).1.id
                        (apply kind amount b).1.balance w).1
                    ≡ ok (apply kind amount x).1))
              (ok_injective (sym loaded ∙ stored))
              (applied, stored_account b _ w (apply-SameAccount kind amount b) loaded e);
      }

  -- A reversal that went through moved the stored account as `Reverse` does.
  pub unsettle_moves :
      (amount : ℤ) (a : Account) (w : W)
      → ports.register w ≡ ok a
      → Ensures
          (λ _ w'. ports.register w' ≡ ok (reverse kind amount a))
          (unsettle ports settings amount)
          w
  unfolding unsettle
  unsettle_moves amount a w stored = Ensures-bind _ _ w λ b loaded. record {
    at = λ _ e.
        stored_account b _ w (reverse-SameAccount kind amount b) loaded e
        ∙ ap (λ x. ok (reverse kind amount x)) (ok_injective (sym loaded ∙ stored));
  }

  -- The audit entry at the end of a call leaves the register alone.
  pub recorded_register :
      {A : Type 0} (Q : Result Account → Type 0) (id : ℤ) (name : Text)
      (from_state to_state : Option State) (replay : Bool) (c : Code) (r : A) (w : W)
      → Q (ports.register w)
      → Ensures
          (λ _ w'. Q (ports.register w'))
          (record_event ports settings id name from_state to_state replay c >> pure r)
          w
  unfolding record_event ◌>>=◌
  recorded_register Q id name from_state to_state replay c r w q = record {
    at = λ _ _. subst Q (sym (laws.event_register _ w)) q;
  }
