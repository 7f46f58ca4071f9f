-- ===== src/Tests/Client.antt =====
-- The client of the Subscribe side, connected to the merchant's stand in the database.
use payme_mock.Base.{◌≡◌, refl, ap, ◌∙◌, true, Option, none, some, [], arith}
use payme_mock.Base.Int.{pos, ◌-ℤ◌}
use payme_mock.Base.Int64.{sub64, add64}
use payme_mock.Base.Text.{Text, text, eq_text}
use payme_mock.Base.Dict.{lookup, insert, text_eq}
use payme_mock.Kernel.Effect.{Result, ok, ◌>>=◌}
use payme_mock.Kernel.JsonRpc.{Json, decode_params, dispatch}
use payme_mock.Kernel.JsonRpc as JsonRpc
use payme_mock.Billing.Order.{payable, check_amount, mark_processing, mark_paid}
use payme_mock.Billing.Cashbox.{usable, apply}
use payme_mock.Merchant.Transaction.{perform, new_transaction, state_valid}
use payme_mock.Merchant.Orders.{resolve_order}
use payme_mock.Merchant.Register.{
  register_usable, settle, effective_kind, mark_order_paid, change_order,
}
use payme_mock.Merchant.Service.{name_create, name_perform}
use payme_mock.Merchant.Create as Create
use payme_mock.Merchant.Perform as Perform
use payme_mock.Merchant.Laws.Money.{kind}
use payme_mock.Merchant.Http.{Reply, router, serve, adapted}
use payme_mock.Subscribe.Client.{
  MerchantClient, call, id_params, create_params, create_transaction, perform_transaction,
}
use payme_mock.Subscribe.Client.InProcess.{Connected, Carried, in_process, told, call-serve}
use payme_mock.Subscribe.Client.Payment.{
  heard_as, transaction_of, create_transaction-serve, apply-perform_transaction-serve,
  perform_transaction-serve, done,
}
use payme_mock.Base.Decimal.{format_int}
use payme_mock.Postgres.{first_row, update_rows}
use payme_mock.Postgres.Ledger.{contended}
use payme_mock.Postgres.Accounts.{
  account_by_field, register, first_account, update_balance, move_balance,
}
use payme_mock.Postgres.Orders.{order_by_id, orders_by_account, orders_where, update_order}
use payme_mock.Postgres.Transactions.{by_payme_id, create, update, active_by_order, record_event}
use payme_mock.Tests.Shop.{Shop, shop_ports, shop_settings, shop_Lawful, till, open_shop, payment}
use payme_mock.Tests.Http.{request_of, merchant_decoders, merchant_methods, key, shop_key}
use payme_mock.Tests.Merchant.{stored_tx, stored_shop, perform_answer}

-- A result is written as the transaction that it names.
abbrev written : Reply → Text
written (Reply.created r) = r.transaction
written (Reply.performed r) = r.transaction
written _ = []

abbrev result_text : Option Reply → Text
result_text none = []
result_text (some r) = written r

abbrev json : Json Reply
json = record {
  request_of = request_of;
  id_probe = λ s. some (text "7");
  method_probe = λ s. s;
  result_probe = λ s. some s;
  encode = λ r. result_text r.result;
}

abbrev client : MerchantClient Shop
client = record {
  endpoint = text "http://stand/payme/merchant";
  key = key;
  http = record {
    encode = λ id method params. method;
    envelope = λ b. some (record { result = b.bytes; error = none });
    transaction = λ s. some s;
    valid_endpoint = λ s. true;
    send = in_process (text "10.0.0.1:4000") (serve json merchant_methods shop_key);
  };
  next_id = λ s. (pos 7, s);
}

connected : Connected json merchant_methods shop_key (text "10.0.0.1:4000") written client
connected = record { reachable = refl; local = λ s w. refl; readable = omega arith }

abbrev request : Text → JsonRpc.Request
request name = record { method = name; params = text "{}"; id = text "7" }

create-Carried :
    Carried json merchant_methods shop_key
      (text "10.0.0.1:4000")
      written
      client
      name_create
      (create_params client payment.id payment.time payment.amount payment.account)
      open_shop
      (request name_create)
unfolding dispatch lookup insert router decode_params Create.create_transaction resolve_order
    eq_text payable check_amount register_usable usable new_transaction ◌>>=◌ by_payme_id first_row
    create update_rows update_order account_by_field orders_by_account orders_where register
    first_account active_by_order record_event contended format_int state_valid mark_processing
create-Carried = record { fits = omega arith; known = refl; parsed = refl; legible = refl }

create_transaction-serve_example :
    create_transaction client payment.id payment.time payment.amount payment.account open_shop ≡ (
      let (r, w') = Create.create_transaction shop_ports shop_settings payment open_shop in
      (heard_as transaction_of r, w'))
unfolding lookup eq_text
create_transaction-serve_example =
    create_transaction-serve shop_ports shop_settings merchant_decoders json shop_key
      (text "10.0.0.1:4000") written client payment open_shop (request name_create) connected
      create-Carried (refl, refl, refl) (λ r. refl)

perform-Carried :
    Carried json merchant_methods shop_key
      (text "10.0.0.1:4000")
      written
      client
      name_perform
      (id_params client (text "p1"))
      stored_shop
      (request name_perform)
unfolding dispatch lookup insert router decode_params Perform.perform_transaction eq_text perform
    sub64 settle apply effective_kind mark_order_paid change_order ◌>>=◌ by_payme_id first_row
    update_rows register first_account update_balance move_balance update contended record_event
    order_by_id update_order format_int ◌-ℤ◌ add64 state_valid mark_paid
perform-Carried = record { fits = omega arith; known = refl; parsed = refl; legible = refl }

perform_heard : (perform_transaction client (text "p1") stored_shop).0 ≡ ok tt
unfolding lookup eq_text
perform_heard =
    ap (λ (y : Result (Unit {0}) × Shop). y.0)
      (perform_transaction-serve shop_ports shop_settings merchant_decoders json shop_key
        (text "10.0.0.1:4000") written client (text "p1") stored_shop (request name_perform)
        connected perform-Carried (refl, refl, refl))
    ∙ ap (heard_as done) perform_answer

apply-perform_transaction-serve_example :
    ((apply (kind shop_ports shop_settings shop_Lawful) (pos 700) till).0 ≡ ok tt)
    × (shop_ports.register (perform_transaction client (text "p1") stored_shop).1
        ≡ ok (apply (kind shop_ports shop_settings shop_Lawful) (pos 700) till).1)
unfolding lookup eq_text by_payme_id first_row register first_account
apply-perform_transaction-serve_example =
    apply-perform_transaction-serve shop_ports shop_settings merchant_decoders json shop_key
      (text "10.0.0.1:4000") written client shop_Lawful (text "p1") stored_tx till stored_shop
      (request name_perform) connected perform-Carried (refl, refl, refl) refl refl refl
      perform_heard

create_found :
    lookup name_create merchant_methods
    ≡ some (
        adapted merchant_decoders.create
          (Create.create_transaction shop_ports shop_settings)
          Reply.created)
unfolding lookup insert router eq_text
create_found = refl

call-serve_example :
    call client name_create
      (create_params client payment.id payment.time payment.amount payment.account)
      open_shop
    ≡ (let (r, w') =
          adapted merchant_decoders.create
            (Create.create_transaction shop_ports shop_settings)
            Reply.created
            (text "{}")
            open_shop in
        (told written r, w'))
call-serve_example =
    call-serve json merchant_methods shop_key (text "10.0.0.1:4000") written client name_create
      (create_params client payment.id payment.time payment.amount payment.account) open_shop
      (request name_create)
      (adapted merchant_decoders.create (Create.create_transaction shop_ports shop_settings)
        Reply.created)
      connected create-Carried refl create_found
