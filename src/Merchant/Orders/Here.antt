-- ===== src/Merchant/Orders/Here.antt =====
-- merchant/application/service.go: the order that `resolveOrder` settles on is one of the stand.
use payme_mock.Base.{◌≡◌, refl, Option, none, some, arith, inl, inr, Bool-cases}
use payme_mock.Base.Int.{ℤ, leb_ℤ, eq_ℤ, pos}
use payme_mock.Base.Text.{Text, eq_text, is_empty}
use payme_mock.Base.Dict.{Dict, lookup, text_eq}
use payme_mock.Kernel.Effect.{Result, ok, err, is_not_found}
use payme_mock.Kernel.Effect.Ensures.{Ensures, Ensures-bind, Ensures-raise}
use payme_mock.Billing.Order.{Account, Order, payable}
use payme_mock.Merchant.Ports.{Ports, Settings}
use payme_mock.Merchant.Laws.{Lawful}
use payme_mock.Merchant.Orders.{
  order_id_field, first_payable, or_unknown, register_walk_in, walk_in_or_refuse, check_named,
  named_order_of, named_order, first_order_of, order_of_account, order_of_lookup, order_of_value,
  resolve_order,
}

module _ {W : Type 0} (ports : Ports W) (settings : Settings) (laws : Lawful ports) where
  abbrev Here : Order → W → Type 0
  Here o w = o.sandbox_id ≡ laws.stand

  known :
      {A : Type 0} (field : Text) (x : Result A) (a : A)
      → or_unknown ports settings field x ≡ ok a
      → x ≡ ok a
  known field (ok b) a h = h
  known field (err e) a h = ground arith

  walk_in_Here :
      (field value : Text) (amount : ℤ) (w : W)
      → Ensures Here (walk_in_or_refuse ports settings field value amount) w
  unfolding walk_in_or_refuse register_walk_in
  walk_in_Here field value amount w = record {
    at = λ o e. elim (Bool-cases settings.auto_register_accounts) [
      | inl auto ↦ elim (Bool-cases (leb_ℤ amount (pos 0))) [
        | inl low ↦ absurd (ground arith)
        | inr high ↦ laws.walk_in_here value amount o w (known field _ o (ground arith))
      ]
      | inr manual ↦ absurd (ground arith)
    ];
  }

  check_named-Here :
      (field value : Text) (account_id amount : ℤ) (order : Order) (w : W)
      → Here order w
      → Ensures Here (check_named ports settings field value account_id amount order) w
  unfolding check_named
  check_named-Here field value account_id amount order w here =
      elim (Bool-cases (eq_ℤ order.account_id account_id)) [
        | inl own ↦ rw own (elim (Bool-cases (payable order)) [
          | inl due ↦ rw due (record { at = λ o e. ground arith })
          | inr paid ↦ rw paid (walk_in_Here field value amount w)
        ])
        | inr other ↦ rw other (Ensures-raise _ w)
      ]

  named_order_of-Here :
      (id : Option ℤ) (field value : Text) (account_id amount : ℤ) (w : W)
      → Ensures Here (named_order_of ports settings id field value account_id amount) w
  unfolding named_order_of
  named_order_of-Here none field value account_id amount w = Ensures-raise _ w
  named_order_of-Here (some id) field value account_id amount w = Ensures-bind _ _ w λ o e.
      check_named-Here field value account_id amount o w
        (laws.order_here id o w (known field _ o e))

  first_order_of-Here :
      (x : Option Order) (field value : Text) (amount : ℤ) (w : W)
      → ((o : Order) → x ≡ some o → o.sandbox_id ≡ laws.stand)
      → Ensures Here (first_order_of ports settings x field value amount) w
  unfolding first_order_of
  first_order_of-Here (some o) field value amount w here = record {
    at = λ o' e. ground (arith, here o refl);
  }
  first_order_of-Here none field value amount w here = walk_in_Here field value amount w

  order_of_account-Here :
      (field value : Text) (amount : ℤ) (acc : Account) (w : W)
      → Ensures Here (order_of_account ports settings field value amount acc) w
  unfolding order_of_account named_order
  order_of_account-Here field value amount acc w =
      elim (Bool-cases (eq_text field order_id_field)) [
        | inl e ↦ rw e (named_order_of-Here (ports.parse_int value) field value acc.id amount w)
        | inr e ↦ rw e (
            Ensures-bind _ _ w λ os loaded.
              first_order_of-Here (first_payable os) field value amount w
                (λ o first. laws.orders_here acc.id os o w loaded first))
      ]

  order_of_lookup-Here :
      (x : Result Account) (field value : Text) (amount : ℤ) (w : W)
      → Ensures Here (order_of_lookup ports settings x field value amount) w
  unfolding order_of_lookup
  order_of_lookup-Here (ok acc) field value amount w =
      order_of_account-Here field value amount acc w
  order_of_lookup-Here (err e) field value amount w = elim (Bool-cases (is_not_found e)) [
    | inl missing ↦ rw missing (walk_in_Here field value amount w)
    | inr broken ↦ rw broken (Ensures-raise e w)
  ]

  order_of_value-Here :
      (x : Option Text) (field : Text) (amount : ℤ) (w : W)
      → Ensures Here (order_of_value ports settings x field amount) w
  unfolding order_of_value
  order_of_value-Here none field amount w = record { at = λ o e. ground arith }
  order_of_value-Here (some value) field amount w = elim (Bool-cases (is_empty value)) [
    | inl e ↦ record { at = λ o h. absurd (ground arith) }
    | inr e ↦ record {
      at =
          let looked = ports.account_by_field field value w in
          rw e (order_of_lookup-Here looked field value amount w).at;
    }
  ]

  -- An order that a call resolves belongs to the stand that the repositories are scoped to.
  pub resolve_order-Here :
      (account : Dict Text Text) (amount : ℤ) (w : W)
      → Ensures (λ o _. o.sandbox_id ≡ laws.stand) (resolve_order ports settings account amount) w
  unfolding resolve_order
  resolve_order-Here account amount w =
      order_of_value-Here (lookup settings.account_field account) settings.account_field amount w
