-- ===== src/Tests/Http.antt =====
-- Calls over HTTP to the two small stands.
use payme_mock.Base.{
  ℕ, ◌≡◌, refl, true, false, Option, none, some, [], ◌∷◌, ◌++◌, arith, if◌then◌else◌,
}
use payme_mock.Base.Int.{pos}
use payme_mock.Base.Text.{Text, text, eq_text}
use payme_mock.Base.Strings.{trim_space}
use payme_mock.Base.Dict.{lookup, text_eq}
use payme_mock.Kernel.Errors.{err_cannot_perform, err_parse}
use payme_mock.Kernel.Effect.{Result, ok}
use payme_mock.Kernel.JsonRpc.{Json, Router, Response, new_error, dispatch}
use payme_mock.Kernel.JsonRpc as JsonRpc
use payme_mock.Kernel.JsonRpc.Dispatch.{dispatch-Replies, Replies}
use payme_mock.Kernel.Http.{Request, header, method_post}
use payme_mock.Kernel.Http.Reading.{whole}
use payme_mock.Kernel.Http.Auth.{merchant_auth_header}
use payme_mock.Kernel.Http.Faults.{FaultMiddleware, apply}
use payme_mock.Simulation.Fault as Fault
use payme_mock.Simulation.Fault.{Rule, service_any}
use payme_mock.Simulation.Access.{Net, comma, client_addr}
use payme_mock.Simulation.Access.Forwarded.{client_addr-append}
use payme_mock.Merchant.Service.{name_create}
use payme_mock.Merchant.Http as MerchantHttp
use payme_mock.Merchant.Http.Access.{
  dispatched, unauthorized, serve-merchant_auth_header, run_twice-serve,
}
use payme_mock.Subscribe.Inmem.Wiring.{stand_ports}
use payme_mock.Subscribe.Inmem.{Stand}
use payme_mock.Subscribe.Http as SubscribeHttp
use payme_mock.Subscribe.Http.Access as SubscribeAccess
use payme_mock.Tests.Shop.{Shop, shop_ports, shop_settings, open_shop, payment}
use payme_mock.Tests.Subscribe.{unsorted, stand, settings}

-- A body is the name of the method; every call has id 7.
abbrev pub request_of : Text → Option JsonRpc.Request
request_of [] = none
request_of (x ∷ s) = some (record { method = x ∷ s; params = text "{}"; id = text "7" })

abbrev pub json : (R : Type 0) → Json R
json R = record {
  request_of = request_of;
  id_probe = λ s. some (text "7");
  method_probe = λ s. s;
  result_probe = λ s. some s;
  encode = λ r. r.id;
}

abbrev pub merchant_decoders : MerchantHttp.Decoders
merchant_decoders = record {
  check_perform = λ s. some (payment.amount, payment.account);
  create = λ s. some payment;
  id = λ s. some payment.id;
  cancel = λ s. some (payment.id, pos 5);
  statement = λ s. some (pos 0, pos 1000);
}

abbrev pub merchant_methods : Router Shop MerchantHttp.Reply
merchant_methods = MerchantHttp.router shop_ports shop_settings merchant_decoders

abbrev pub key : Text
key = text "secret"

abbrev pub shop_key : Request → Shop → Result Text
shop_key r s = ok key

abbrev pub signed : Request
signed = record {
  method = method_post;
  headers = (text "Authorization", merchant_auth_header key) ∷ [];
  remote_addr = text "10.0.0.1:4000";
  sandbox = none;
  body = whole name_create;
}

-- The header carries the credential in base64.
credential : merchant_auth_header (text "k") ≡ text "Basic UGF5Y29tOms="
unfolding merchant_auth_header payme_mock.Kernel.Base64.encode
credential = refl

header-signed : header (text "Authorization") signed ≡ merchant_auth_header key
unfolding header lookup eq_text
header-signed = refl

abbrev replies : Json MerchantHttp.Reply
replies = json MerchantHttp.Reply

serve-merchant_auth_header_example :
    MerchantHttp.serve replies merchant_methods shop_key signed open_shop ≡ (
      if eq_text key key
      then dispatched replies merchant_methods shop_key name_create signed open_shop
      else unauthorized replies merchant_methods shop_key signed open_shop)
serve-merchant_auth_header_example =
    serve-merchant_auth_header replies merchant_methods shop_key signed key key name_create
      open_shop refl header-signed (omega arith) (omega arith) refl

abbrev twice : Rule ℕ
twice = record {
  id = pos 1;
  name = [];
  enabled = true;
  priority = pos 1;
  config_id = pos 1;
  sandbox_id = none;
  service = service_any;
  method = [];
  match_account = [];
  match_payme_id = [];
  amount_min = none;
  amount_max = none;
  action = Fault.Action.duplicate;
  delay_millis = pos 0;
  error_code = pos 0;
  error_message = err_cannot_perform.message;
  error_data = [];
  http_status = pos 0;
  probability = 100;
  times_left = none;
  hit_count = pos 0;
  note = [];
}

abbrev faults : FaultMiddleware ℕ Shop
faults = record {
  evaluate = λ call s. (ok (record { rule = some twice; delay_millis = pos 0 }), s);
  describe = λ r body. record {
    service = text "merchant";
    method = body;
    sandbox_id = pos 1;
    account = [];
    payme_id = [];
    amount = pos 0;
  };
  sleep = λ d s. s;
  on_decision = none;
  report_fired = λ rule s. s;
}

run_twice-serve_example :
    apply replies faults twice
      (MerchantHttp.serve replies merchant_methods shop_key)
      signed
      open_shop
    ≡ (
      MerchantHttp.write_response replies (new_error [] err_parse),
      record signed { body = whole [] },
      (dispatch replies merchant_methods name_create open_shop).1,
    )
run_twice-serve_example =
    run_twice-serve replies merchant_methods shop_key signed key name_create open_shop refl
      header-signed (omega arith) (omega arith) refl refl refl faults twice refl

dispatch-Replies_example :
    Replies (text "7") (dispatch replies merchant_methods name_create open_shop)
dispatch-Replies_example = dispatch-Replies replies merchant_methods name_create open_shop

abbrev pub views : Json SubscribeHttp.Reply
views = json SubscribeHttp.Reply

abbrev subscribe_decoders : SubscribeHttp.Decoders
subscribe_decoders = record {
  cards_create = λ s. none;
  token = λ s. some s;
  verify = λ s. none;
  receipts_create = λ s. none;
  receipts_pay = λ s. none;
  id = λ s. some s;
  send = λ s. none;
  get_all = λ s. none;
  transactions_create = λ s. none;
  transactions_complete = λ s. none;
  merchant_id = λ s. some s;
}

abbrev pub subscribe_methods : Router Stand SubscribeHttp.Reply
subscribe_methods = SubscribeHttp.router (stand_ports unsorted) settings subscribe_decoders

abbrev creds : SubscribeHttp.Credentials
creds = record { merchant_id = text "m1"; key = text "k1" }

abbrev stand_creds : Request → Stand → Result SubscribeHttp.Credentials
stand_creds r s = ok creds

abbrev page : SubscribeAccess.Caller
page = SubscribeAccess.browser (text "m1")

abbrev pub from_page : Request
from_page = record signed {
  headers = (text "X-Auth", text "m1") ∷ [];
  body = whole (text "receipts.get");
}

header-from_page : header (text "X-Auth") from_page ≡ SubscribeAccess.x_auth page
unfolding header lookup eq_text
header-from_page = refl

-- A browser asks for a receipt, which takes the key.
serve-x_auth_example : SubscribeHttp.serve views subscribe_methods stand_creds from_page stand ≡ (
    if SubscribeAccess.may_call creds page (text "receipts.get")
    then SubscribeAccess.dispatched views subscribe_methods stand_creds
        (text "receipts.get")
        from_page
        stand
    else (
      SubscribeHttp.unauthorized views subscribe_methods stand_creds (text "receipts.get"),
      record from_page { body = whole [] },
      stand,
    ))
serve-x_auth_example =
    SubscribeAccess.serve-x_auth views subscribe_methods stand_creds from_page page creds
      (text "receipts.get") stand refl header-from_page (refl, omega arith, omega arith)
      (omega arith) refl

page_refused : SubscribeAccess.may_call creds page (text "receipts.get") ≡ false
unfolding eq_text SubscribeHttp.is_browser_method
page_refused = refl

-- An address is its text, and a network a set of one.
abbrev net : Net Text Text
net = record {
  parse_addr = λ s. if eq_text s (text "unknown") then none else some s;
  parse_prefix = λ s. some s;
  masked = λ p. p;
  prefix_from = λ a. a;
  unmap = λ a. a;
  covers = λ p a. eq_text p a;
  host_of = λ s. some s;
}

last_parsed : net.parse_addr (trim_space (text " 10.0.0.7")) ≡ some (text "10.0.0.7")
unfolding eq_text trim_space
last_parsed = refl

client_addr-append_example :
    client_addr net (text "172.17.0.1:9000") (text "8.8.8.8" ++ (comma ∷ text " 10.0.0.7")) true
    ≡ some (text "10.0.0.7")
client_addr-append_example =
    client_addr-append net (text "172.17.0.1:9000") (text "8.8.8.8") (text " 10.0.0.7")
      (omega arith) last_parsed
