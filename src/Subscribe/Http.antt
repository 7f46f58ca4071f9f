-- ===== src/Subscribe/Http.antt =====
-- subscribe/interfaces/http/handler.go: the endpoint POST /api over the Subscribe API.
pub mod Access
use payme_mock.Base.{
  ℕ, Bool, true, false, not, ◌&&◌, ◌||◌, Option, none, some, List, [], ◌∷◌, if◌then◌else◌,
}
use payme_mock.Base.Int.{ℤ}
use payme_mock.Base.Text.{Text, text, eq_text}
use payme_mock.Base.Dict.{Dict}
use payme_mock.Kernel.Errors.{err_invalid_http_method, err_unauthorized, err_transport}
use payme_mock.Kernel.Effect.{Result, ok, err, Action, pure, lift, ◌>>=◌}
use payme_mock.Kernel.JsonRpc as JsonRpc
use payme_mock.Kernel.JsonRpc.{
  Json, Response, Router, new_error, with_version, id_of, decode_params, register, dispatch,
}
use payme_mock.Kernel.Http.{Request, Answer, Handler, status_ok, method_post, header, read_limited}
use payme_mock.Kernel.Http.Auth.{SubscribeAuth, parse_subscribe_auth, authorize}
use payme_mock.Subscribe.Receipt.{ReceiptState}
use payme_mock.Subscribe.Ports.{
  Ports, Settings, CardView, CardsCreateParams, VerifyCodeResult, ReceiptView,
}
use payme_mock.Subscribe.Cards.{
  cards_create, cards_get_verify_code, cards_verify, cards_check, cards_remove,
}
use payme_mock.Subscribe.Receipts.{
  ReceiptsCreateParams, ReceiptsPayParams, receipts_create, receipts_pay, receipts_send,
  receipts_cancel, receipts_check, receipts_get, receipts_get_all, receipts_confirm_hold,
}
use payme_mock.Subscribe.Payouts.{transactions_create, transactions_complete, accounts_get_balance}

-- What a method answers with, as the router's `any`.
pub data Reply : Type 0 where
  card : CardView → Reply
  code_sent : VerifyCodeResult → Reply
  success : Bool → Reply
  receipt : ReceiptView → Reply
  state : ReceiptState → Reply
  receipts : List ReceiptView → Reply
  balance : ℤ → Reply

pub record TransactionsCreateParams : Type 0 where
  pub amount : ℤ
  pub token : Text
  pub account : Dict Text Text

-- The account is not read.
pub record TransactionsCompleteParams : Type 0 where
  pub id : Text
  pub amount : ℤ
  pub token : Text

pub record ReceiptsGetAllParams : Type 0 where
  pub from : ℤ
  pub to : ℤ
  pub count : ℤ
  pub offset : ℤ

-- json.Unmarshal into the parameters of each method; `token`, `id` and `merchant_id` are those of
-- the methods that take no more, `verify` is of a token and a code, `send` of an id and a phone.
pub record Decoders : Type 0 where
  pub cards_create : Text → Option CardsCreateParams
  pub token : Text → Option Text
  pub verify : Text → Option (Text × Text)
  pub receipts_create : Text → Option ReceiptsCreateParams
  pub receipts_pay : Text → Option ReceiptsPayParams
  pub id : Text → Option Text
  pub send : Text → Option (Text × Text)
  pub get_all : Text → Option ReceiptsGetAllParams
  pub transactions_create : Text → Option TransactionsCreateParams
  pub transactions_complete : Text → Option TransactionsCompleteParams
  pub merchant_id : Text → Option Text

abbrev pub max_body_bytes : ℕ
max_body_bytes = 1048576

pub record Credentials : Type 0 where
  pub merchant_id : Text
  pub key : Text

-- `browserMethods`
unfoldable pub is_browser_method : Text → Bool
unfolding eq_text
is_browser_method m =
    eq_text m (text "cards.create")
    || eq_text m (text "cards.get_verify_code")
    || eq_text m (text "cards.verify")
    || eq_text m (text "cards.check")

module _ {W P A R : Type 0} where
  -- `register`: the handler that decodes, calls the method and wraps its result.
  abbrev pub adapted : (Text → Option P) → (P → Action W A) → (A → R) → JsonRpc.Handler W R
  adapted unmarshal method wrap raw = do
    params ← lift (decode_params unmarshal raw)
    result ← method params
    pure (wrap result)

-- `writeResponse`
abbrev pub write_response : {R : Type 0} → Json R → Response R → Answer
write_response json resp =
    Answer.reply status_ok (text "text/json; charset=UTF-8") (json.encode resp)

module _ {W : Type 0} (ports : Ports W) (settings : Settings) (d : Decoders) where
  abbrev register_cards : Router W Reply → Router W Reply
  register_cards router =
      register (text "cards.remove") (adapted d.token (cards_remove ports settings) Reply.success) (
        register (text "cards.check") (adapted d.token (cards_check ports settings) Reply.card) (
          register (text "cards.verify")
            (adapted d.verify (λ p. cards_verify ports settings p.0 p.1) Reply.card)
            (register (text "cards.get_verify_code")
              (adapted d.token (cards_get_verify_code ports settings) Reply.code_sent)
              (register (text "cards.create")
                (adapted d.cards_create (cards_create ports settings) Reply.card) router))))

  abbrev register_payments : Router W Reply → Router W Reply
  register_payments router =
      register (text "receipts.cancel")
        (adapted d.id (receipts_cancel ports settings) Reply.receipt)
        (register (text "receipts.send")
          (adapted d.send (λ p. receipts_send ports settings p.0 p.1) Reply.success)
          (register (text "receipts.pay")
            (adapted d.receipts_pay (receipts_pay ports settings) Reply.receipt)
            (register (text "receipts.create")
              (adapted d.receipts_create (receipts_create ports settings) Reply.receipt) router)))

  abbrev register_reads : Router W Reply → Router W Reply
  register_reads router =
      register (text "receipts.confirm_hold")
        (adapted d.id (receipts_confirm_hold ports settings) Reply.receipt)
        (register (text "receipts.get_all")
          (adapted d.get_all (λ p. receipts_get_all ports settings p.from p.to p.count p.offset)
            Reply.receipts)
          (register (text "receipts.get") (adapted d.id (receipts_get ports settings) Reply.receipt)
            (register (text "receipts.check")
              (adapted d.id (receipts_check ports settings) Reply.state) router)))

  abbrev register_payouts : Router W Reply → Router W Reply
  register_payouts router =
      register (text "accounts.getBalance")
        (adapted d.merchant_id (accounts_get_balance ports settings) Reply.balance)
        (register (text "transactions.complete")
          (adapted d.transactions_complete
            (λ p. transactions_complete ports settings p.id p.token p.amount) Reply.receipt)
          (register (text "transactions.create")
            (adapted d.transactions_create
              (λ p. transactions_create ports settings p.amount p.token p.account) Reply.receipt)
            router))

  -- The router that `NewHandler` registers the sixteen methods with.
  unfoldable pub router : Router W Reply
  router = register_payouts (register_reads (register_payments (register_cards [])))

module _ {W R : Type 0} (json : Json R) (methods : Router W R)
    (resolve : Request → W → Result Credentials) where
  -- The last two tests of `authorize`: the credential, and whether it may reach the method.
  unfoldable pub entitled : Credentials → SubscribeAuth → Text → Bool
  unfolding authorize is_browser_method
  entitled creds auth method =
      authorize auth creds.merchant_id creds.key && (auth.backend || is_browser_method method)

  unfoldable pub resolved : Result Credentials → SubscribeAuth → Text → Bool
  unfolding entitled
  resolved (err e) auth method = false
  resolved (ok creds) auth method = entitled creds auth method

  unfoldable pub parsed : Option SubscribeAuth → Request → Text → W → Bool
  unfolding resolved
  parsed none r method w = false
  parsed (some auth) r method w = resolved (resolve r w) auth method

  -- `authorize` of the handler; every refusal is the same error under the body's id.
  unfoldable pub allowed : Request → Text → W → Bool
  unfolding parsed
  allowed r body w =
      parsed (parse_subscribe_auth (header (text "X-Auth") r)) r (json.method_probe body) w

  abbrev pub unauthorized : Text → Answer
  unauthorized body =
      write_response json (with_version (new_error (id_of json body) err_unauthorized))

  unfoldable pub after_read : Option Text → Handler W
  unfolding allowed dispatch
  after_read none r w = (write_response json (with_version (new_error [] err_transport)), r, w)
  after_read (some body) r w =
      if not (allowed r body w)
      then (unauthorized body, r, w)
      else (let (resp, w') = dispatch json methods body w in
          (write_response json (with_version resp), r, w'))

  -- `ServeHTTP`
  unfoldable pub serve : Handler W
  unfolding after_read
  serve r w =
      if not (eq_text r.method method_post)
      then (write_response json (with_version (new_error [] err_invalid_http_method)), r, w)
      else (let (body, rest) = read_limited max_body_bytes r.body in
          after_read body (record r { body = rest }) w)
