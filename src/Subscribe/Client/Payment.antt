-- ===== src/Subscribe/Client/Payment.antt =====
-- The client of subscribe/infrastructure/merchantclient.go over the Merchant API of
-- merchant/interfaces/http and merchant/application.
use payme_mock.Base.{◌≡◌, refl, ap, ◌∙◌, sym, false, Option, some}
use payme_mock.Base.Text.{Text, eq_text, is_empty}
use payme_mock.Base.Dict.{lookup, insert, text_eq}
use payme_mock.Kernel.Errors.{err_transport}
use payme_mock.Kernel.Effect.{Error, Result, ok, err, fail, Action, pure, lift, ◌>>=◌}
use payme_mock.Kernel.JsonRpc as JsonRpc
use payme_mock.Kernel.JsonRpc.{Json, decode_params}
use payme_mock.Kernel.Http.{Request}
use payme_mock.Billing.Order.{Account}
use payme_mock.Billing.Cashbox.{apply}
use payme_mock.Merchant.Transaction.{Transaction}
use payme_mock.Merchant.Ports.{Ports, Settings, CreateParams, CreateResult}
use payme_mock.Merchant.Laws.{Lawful}
use payme_mock.Merchant.Laws.Money.{kind}
use payme_mock.Merchant.Service.{is_performed, name_create, name_perform}
use payme_mock.Merchant.Create as Create
use payme_mock.Merchant.Perform as Perform
use payme_mock.Merchant.Perform.Money.{apply-perform_transaction}
use payme_mock.Merchant.Http.{Reply, Decoders, router, adapted}
use payme_mock.Subscribe.Client.Keys.{
  read_create, read_id, read_create-create_params, read_id-id_params,
}
use payme_mock.Subscribe.Client.{
  MerchantClient, Params, created, call, id_params, create_params, create_transaction,
  perform_transaction,
}
use payme_mock.Subscribe.Client.InProcess.{Connected, Carried, told, call-serve}

-- What the caller makes of the outcome of a method: a protocol error stays as it is, and any other
-- one is a transport error.
abbrev pub heard_as : {A B : Type 0} → (A → B) → Result A → Result B
heard_as g (ok a) = ok (g a)
heard_as g (err (Error.protocol e)) = err (Error.protocol e)
heard_as g (err e) = fail err_transport

abbrev pub done : {A : Type 0} → A → Unit {0}
done a = tt

abbrev pub transaction_of : CreateResult → Text
transaction_of r = r.transaction

-- A method behind its decoder.
decoded_call :
    {W P A R : Type 0} (dec : Text → Option P) (method : P → Action W A) (wrap : A → R) (raw : Text)
    (p : P) (w : W)
    → is_empty raw ≡ false
    → dec raw ≡ some p
    → adapted dec method wrap raw w ≡ (method p >>= λ a. pure (wrap a)) w
unfolding decode_params ◌>>=◌
decoded_call dec method wrap raw p w filled read = rw (filled, read) refl

abbrev pub passed : {W R : Type 0} → (R → Text) → Result R × W → Result Text × W
passed raw m = (told raw m.0, m.1)

module _ {W A B R : Type 0} (raw : R → Text) (wrap : A → R) (f : Text → Result B) (g : A → B) where
  abbrev unpacked : Result Text × W → Result B × W
  unpacked c = elim c.0 [ ok t ↦ (f t, c.1) | err e ↦ (err e, c.1) ]

  told_as :
      (x : Result A) (w : W) (c : Result Text × W) (m : Result R × W)
      → ((a : A) → f (raw (wrap a)) ≡ ok (g a))
      → ◌≡◌ {A = Result R × W} m (elim x [ ok a ↦ (ok (wrap a), w) | err e ↦ (err e, w) ])
      → c ≡ passed raw m
      → unpacked c ≡ (heard_as g x, w)
  told_as (ok a) w c m h e k = ap unpacked (k ∙ ap (passed raw) e) ∙ ap (λ r. (r, w)) (h a)
  told_as (err (Error.protocol d)) w c m h e k = ap unpacked (k ∙ ap (passed raw) e)
  told_as (err Error.not_found) w c m h e k = ap unpacked (k ∙ ap (passed raw) e)
  told_as (err Error.duplicate) w c m h e k = ap unpacked (k ∙ ap (passed raw) e)
  told_as (err (Error.other s)) w c m h e k = ap unpacked (k ∙ ap (passed raw) e)

  -- A call whose result is unpacked by `f`, where `f` reads back what `raw` wrote.
  unpacked_call :
      (c : Action W Text) (m : Action W A) (w w' : W)
      → ((a : A) → f (raw (wrap a)) ≡ ok (g a))
      → c w ≡ passed raw ((m >>= λ a. pure (wrap a)) w')
      → (c >>= λ t. lift (f t)) w ≡ (let (r, w'') = m w' in (heard_as g r, w''))
  unfolding ◌>>=◌
  unpacked_call c m w w' h e =
      told_as (m w').0 (m w').1 (c w) ((m >>= λ a. pure (wrap a)) w') h refl e

module _ {W : Type 0} (ports : Ports W) (settings : Settings) (decoders : Decoders)
    (json : Json Reply) (resolve_key : Request → W → Result Text) (remote : Text)
    (raw : Reply → Text) (client : MerchantClient W) where
  -- The client is connected to this endpoint.
  abbrev pub Linked : Type 0
  Linked = Connected json (router ports settings decoders) resolve_key remote raw client

  -- The request names the method, and its parameters are decoded as their JSON object reads, key by
  -- key.
  abbrev pub Conveyed :
      (P : Type 0)
      → (Text → Option P)
      → (Params → Option P)
      → Params
      → Text
      → JsonRpc.Request
      → Type 0
  Conveyed P dec keys params name req =
      (req.method ≡ name) × (is_empty req.params ≡ false) × (dec req.params ≡ keys params)

  routed_perform :
      lookup name_perform (router ports settings decoders)
      ≡ some (adapted decoders.id (Perform.perform_transaction ports settings) Reply.performed)
  unfolding router lookup insert eq_text
  routed_perform = refl

  routed_create :
      lookup name_create (router ports settings decoders)
      ≡ some (adapted decoders.create (Create.create_transaction ports settings) Reply.created)
  unfolding router lookup insert eq_text
  routed_create = refl

  -- A call to a method of the router comes to the method behind its decoder.
  routed_call :
      {P A : Type 0} (name : Text) (params : Params) (dec : Text → Option P)
      (method : P → Action W A) (wrap : A → Reply) (keys : Params → Option P) (p : P) (w : W)
      (req : JsonRpc.Request)
      → Linked
      → Carried json
          (router ports settings decoders)
          resolve_key
          remote
          raw
          client
          name
          params
          w
          req
      → Conveyed P dec keys params name req
      → keys params ≡ some p
      → is_empty name ≡ false
      → lookup name (router ports settings decoders) ≡ some (adapted dec method wrap)
      → call client name params w
        ≡ passed raw ((method p >>= λ a. pure (wrap a)) (client.next_id w).1)
  routed_call name params dec method wrap keys p w req c x (named, filled, read) meant given
        routed =
      call-serve json (router ports settings decoders) resolve_key remote raw client name params w
        req _ c x (ap is_empty named ∙ given)
        (ap (λ n. lookup n (router ports settings decoders)) named ∙ routed)
      ∙ ap (λ (r : Result Reply × W). (told raw r.0, r.1))
          (decoded_call dec method wrap req.params p (client.next_id w).1 filled (read ∙ meant))

  -- PerformTransaction of the client is PerformTransaction of the service.
  pub perform_transaction-serve :
      (id : Text) (w : W) (req : JsonRpc.Request)
      → Linked
      → Carried json
          (router ports settings decoders)
          resolve_key
          remote
          raw
          client
          name_perform
          (id_params client id)
          w
          req
      → Conveyed Text decoders.id read_id (id_params client id) name_perform req
      → perform_transaction client id w ≡ (
          let (r, w') = Perform.perform_transaction ports settings id (client.next_id w).1 in
          (heard_as done r, w'))
  unfolding perform_transaction
  perform_transaction-serve id w req c x sent =
      unpacked_call raw Reply.performed (λ t. ok tt) done
        (call client name_perform (id_params client id))
        (Perform.perform_transaction ports settings id) w (client.next_id w).1 (λ a. refl)
        (routed_call name_perform (id_params client id) decoders.id
          (Perform.perform_transaction ports settings) Reply.performed read_id id w req c x sent
          (read_id-id_params client id) refl routed_perform)

  -- CreateTransaction of the client is CreateTransaction of the service: called once, it gets the
  -- identifier, time, amount and account that the client was called with, and the client has the transaction that the service names, the service's own protocol
  -- error, or a transport error in place of any other. The JSON object that the client makes of its
  -- parameters is decoded by the keys of the endpoint's struct, and the endpoint knows the key.
  pub create_transaction-serve :
      (p : CreateParams) (w : W) (req : JsonRpc.Request)
      → Linked
      → Carried json
          (router ports settings decoders)
          resolve_key
          remote
          raw
          client
          name_create
          (create_params client p.id p.time p.amount p.account)
          w
          req
      → Conveyed CreateParams decoders.create read_create
          (create_params client p.id p.time p.amount p.account)
          name_create
          req
      → ((r : CreateResult) → client.http.transaction (raw (Reply.created r)) ≡ some r.transaction)
      → create_transaction client p.id p.time p.amount p.account w ≡ (
          let (r, w') = Create.create_transaction ports settings p (client.next_id w).1 in
          (heard_as transaction_of r, w'))
  unfolding create_transaction
  create_transaction-serve p w req c x sent named =
      let params = create_params client p.id p.time p.amount p.account in
      unpacked_call raw Reply.created (λ t. created (client.http.transaction t)) transaction_of
        (call client name_create params) (Create.create_transaction ports settings p) w
        (client.next_id w).1 (λ r. ap created (named r))
        (routed_call name_create params decoders.create (Create.create_transaction ports settings)
          Reply.created read_create p w req c x sent (read_create-create_params client p) refl
          routed_create)

  heard_ok : {A : Type 0} (x : Result A) → heard_as done x ≡ ok tt → (a : A) × (x ≡ ok a)
  heard_ok (ok a) h = (a, refl)
  heard_ok (err (Error.protocol e)) h = cc
  heard_ok (err Error.not_found) h = cc
  heard_ok (err Error.duplicate) h = cc
  heard_ok (err (Error.other s)) h = cc

  -- Where the client's PerformTransaction of a transaction that was not performed yet succeeds, the
  -- account of the merchant's register has moved by exactly the transaction's amount, once, in the
  -- direction of the register's kind. The JSON object that the client makes of the identifier is
  -- decoded by the key of the endpoint's struct, and the endpoint knows the key.
  pub apply-perform_transaction-serve :
      (laws : Lawful ports) (id : Text) (t : Transaction) (a : Account) (w : W)
      (req : JsonRpc.Request)
      → Linked
      → Carried json
          (router ports settings decoders)
          resolve_key
          remote
          raw
          client
          name_perform
          (id_params client id)
          w
          req
      → Conveyed Text decoders.id read_id (id_params client id) name_perform req
      → ports.by_payme_id id (client.next_id w).1 ≡ ok t
      → is_performed t.state ≡ false
      → ports.register (client.next_id w).1 ≡ ok a
      → (perform_transaction client id w).0 ≡ ok tt
      → ((apply (kind ports settings laws) t.amount a).0 ≡ ok tt)
        × (ports.register (perform_transaction client id w).1
            ≡ ok (apply (kind ports settings laws) t.amount a).1)
  apply-perform_transaction-serve laws id t a w req c x sent found new stored success =
      let same = perform_transaction-serve id w req c x sent in
      let (r, e) = heard_ok _ (ap (λ (y : Result (Unit {0}) × W). y.0) (sym same) ∙ success) in
      let (moved, there) =
        apply-perform_transaction ports settings laws id t a r (client.next_id w).1 found new stored
          e in
      (moved, ap (λ (y : Result (Unit {0}) × W). ports.register y.1) same ∙ there)
