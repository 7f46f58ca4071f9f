-- ===== src/Subscribe/Cards.antt =====
-- subscribe/application/service.go: the methods on cards.
use payme_mock.Base.{Bool, true, false, not, ◌||◌, Option, none, some, [], ◌∷◌, if◌then◌else◌}
use payme_mock.Base.Int.{ℤ, pos, leb_ℤ}
use payme_mock.Base.Text.{Text, is_empty}
use payme_mock.Base.Dict.{Dict}
use payme_mock.Kernel.Errors.{err_invalid_request}
use payme_mock.Kernel.Effect.{
  Result, ok, err, Action, pure, raise, refuse, lift, ignore, when, is_not_found, ◌>>=◌, ◌>>◌,
}
use payme_mock.Subscribe.Outcome.{Outcome, Source}
use payme_mock.Subscribe.Card.{
  Card, format_expire, operable, sms_reachable, expected_verify_code, send_verify_code, verify_with,
  default_verify_wait_millis, register,
}
use payme_mock.Subscribe.Ports.{Ports, Settings, CardView, CardsCreateParams, VerifyCodeResult}
use payme_mock.Subscribe.View.{view_of, mask_phone, clock, fresh, load_card}

-- `len(account) > 0`
abbrev has_entries : Dict Text Text → Bool
has_entries [] = false
has_entries (e ∷ m) = true

-- The card of `reregister`, before it is stored.
unfoldable pub reregistered : ℤ → CardsCreateParams → Card → Card
unfolding register
reregistered now p c = record (register now c) {
  recurrent = c.recurrent || p.save;
  account = if has_entries p.account then p.account else c.account;
  customer = if not (is_empty p.customer) then p.customer else c.customer;
}

module _ {W : Type 0} (ports : Ports W) (settings : Settings) where
  -- The zero `Outcome` and `Source` of Go are empty texts.
  unfoldable pub new_card : Text → ℤ → CardsCreateParams → Card
  unfolding format_expire
  new_card token now p = record {
    id = pos 0;
    sandbox_id = settings.sandbox_id;
    token = token;
    number_full = p.number;
    expire = format_expire p.expire;
    recurrent = p.save;
    verify = false;
    verify_code = [];
    phone = [];
    balance = settings.card_balance;
    removed = false;
    outcome = Outcome.other [];
    source = Source.other [];
    sms_enabled = true;
    frozen = false;
    delay_millis = pos 0;
    account = p.account;
    customer = p.customer;
    verify_code_sent_at = pos 0;
    verify_wait_millis = pos 0;
    registered_at = now;
  }

  -- `reregister`: a failure to store is dropped.
  unfoldable pub reregister : Card → CardsCreateParams → Action W Card
  reregister held p = do
    now ← clock ports settings
    let c = reregistered now p held
    ignore (ports.update_card c)
    pure c

  -- A number that the merchant already holds.
  hand_back : Text → CardsCreateParams → Card → Action W CardView
  hand_back offered p held = do
    token ← ports.token_for held.id offered
    c ← reregister (record held { token = token }) p
    pure (view_of c)

  store_card : Card → Action W CardView
  store_card c = do id ← ports.create_card c; pure (view_of (record c { id = id }))

  create_or_hand_back : Card → CardsCreateParams → Result Card → Action W CardView
  unfolding hand_back store_card
  create_or_hand_back card p (ok held) = hand_back card.token p held
  create_or_hand_back card p (err e) = if is_not_found e then store_card card else raise e

  -- `CardsCreate`
  unfoldable pub cards_create : CardsCreateParams → Action W CardView
  unfolding create_or_hand_back new_card
  cards_create p = if is_empty p.number || is_empty p.expire then refuse err_invalid_request else do
    token ← fresh ports settings ports.card_token
    now ← clock ports settings
    let card = new_card token now p
    λ w. create_or_hand_back card p (ports.card_by_number card.number_full w) w

  -- The text message with the code, where there is a sender and a phone; its failure is dropped.
  send_code : Option (Text → Text → Action W (Unit {0})) → Text → Text → Action W (Unit {0})
  send_code none phone code = pure tt
  send_code (some send) phone code = when (not (is_empty phone)) (ignore (send phone code))

  abbrev effective_wait : ℤ
  effective_wait =
      if leb_ℤ settings.verify_wait_millis (pos 0)
      then default_verify_wait_millis
      else settings.verify_wait_millis

  -- `CardsGetVerifyCode`
  unfoldable pub cards_get_verify_code : Text → Action W VerifyCodeResult
  unfolding send_code
  cards_get_verify_code token = do
    card ← load_card ports settings token
    lift (operable card)
    lift (sms_reachable card)
    now ← clock ports settings
    let code = expected_verify_code settings.verify_code card
    ports.update_card (send_verify_code code now effective_wait card)
    send_code ports.sms card.phone code
    pure (record { sent = true; phone = mask_phone card.phone; wait = effective_wait })

  -- `CardsVerify`
  unfoldable pub cards_verify : Text → Text → Action W CardView
  cards_verify token code = do
    card ← load_card ports settings token
    now ← clock ports settings
    let verified = verify_with code now card
    lift verified.0
    ports.update_card verified.1
    pure (view_of verified.1)

  -- `CardsCheck`
  unfoldable pub cards_check : Text → Action W CardView
  cards_check token = do
    card ← load_card ports settings token
    lift (operable card)
    pure (view_of card)

  -- `CardsRemove`; the result is `success`.
  unfoldable pub cards_remove : Text → Action W Bool
  cards_remove token = do
    card ← load_card ports settings token
    ports.update_card (record card { removed = true })
    pure true
