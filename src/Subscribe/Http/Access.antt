-- ===== src/Subscribe/Http/Access.antt =====
-- Who reaches which method of the Subscribe API through subscribe/interfaces/http/handler.go.
use payme_mock.Base.{
  ◌≡◌, refl, ◌∙◌, ◌≤◌, Bool, true, false, ◌&&◌, none, some, List, ◌||◌, [], ◌∷◌, ◌++◌,
  if◌then◌else◌, arith,
}
use payme_mock.Base.Text.{Text, text, length, eq_text, is_empty}
use payme_mock.Base.Strings.{cut}
use payme_mock.Base.Strings.Laws.{Lacks, cut-append}
use payme_mock.Kernel.Effect.{Result, ok}
use payme_mock.Kernel.JsonRpc.{Json, Router, with_version, dispatch}
use payme_mock.Kernel.Http.{Request, Handler, header, method_post}
use payme_mock.Kernel.Http.Reading.{whole, read_limited-whole, header_body, is_post}
use payme_mock.Kernel.Base64.Laws.{Plain, Plain-append, trim_space-Plain}
use payme_mock.Kernel.Http.Auth.{SubscribeAuth, colon, parse_subscribe_auth, auth_of}
use payme_mock.Subscribe.Http.{
  Credentials, serve, write_response, max_body_bytes, is_browser_method, allowed, parsed, resolved,
  entitled, after_read, unauthorized,
}

-- What a caller presents: a browser the register's id, a server the key as well.
pub data Caller : Type 0 where
  browser : Text → Caller
  server : Text → Text → Caller

-- The X-Auth header as the documentation writes it.
abbrev pub x_auth : Caller → Text
x_auth (browser id) = id
x_auth (server id key) = id ++ (colon ∷ key)

abbrev pub auth_for : Caller → SubscribeAuth
auth_for (browser id) = record { merchant_id = id; key = []; backend = false }
auth_for (server id key) = record { merchant_id = id; key = key; backend = true }

-- The id is not empty and holds no colon, and neither it nor the key holds white space.
abbrev pub IsClean : Caller → Type 0
IsClean (browser id) = (is_empty id ≡ false) × Lacks colon id × Plain id
IsClean (server id key) = (is_empty id ≡ false) × Lacks colon id × Plain id × Plain key

-- The methods of card entry, which the documentation shows with the id alone.
abbrev pub card_entry : List Text
card_entry =
    text "cards.create"
    ∷ text "cards.get_verify_code"
    ∷ text "cards.verify"
    ∷ text "cards.check"
    ∷ []

abbrev pub one_of : List Text → Text → Bool
one_of [] m = false
one_of (t ∷ ts) m = eq_text m t || one_of ts m

-- A server with the key reaches every method, a browser only the four that it is meant to call.
abbrev pub may_call : Credentials → Caller → Text → Bool
may_call creds (browser id) method = eq_text id creds.merchant_id && one_of card_entry method
may_call creds (server id key) method = eq_text id creds.merchant_id && eq_text key creds.key

cut_lacking : (s : Text) → Lacks colon s → cut colon s ≡ none
unfolding cut
cut_lacking [] h = refl
cut_lacking (x ∷ s) h = ground (arith, cut_lacking s h.1)

nonempty_append : (s t : Text) → is_empty s ≡ false → is_empty (s ++ t) ≡ false
nonempty_append [] t h = cc
nonempty_append (x ∷ s) t h = refl

pub parse-x_auth : (c : Caller) → IsClean c → parse_subscribe_auth (x_auth c) ≡ some (auth_for c)
unfolding parse_subscribe_auth auth_of
parse-x_auth (browser id) h = rw (trim_space-Plain id h.2, cut_lacking id h.1, h.0)
parse-x_auth (server id key) h = rw (
  trim_space-Plain (id ++ (colon ∷ key)) (Plain-append id (colon ∷ key) h.2 (omega arith, h.3)),
  cut-append colon id key h.1,
  nonempty_append id (colon ∷ key) h.0,
  h.0,
)

module _ {W R : Type 0} (json : Json R) (methods : Router W R)
    (resolve : Request → W → Result Credentials) where
  entitled-may_call :
      (creds : Credentials) (c : Caller) (method : Text)
      → entitled json methods resolve creds (auth_for c) method ≡ may_call creds c method
  unfolding entitled
  entitled-may_call creds (browser id) method = ground (arith, is_browser_method)
  entitled-may_call creds (server id key) method = ground arith

  -- The answer of the router to a body, with nothing of it left to read.
  abbrev pub dispatched : Text → Handler W
  dispatched bytes r w =
      let (resp, w') = dispatch json methods bytes w in
      (write_response json (with_version resp), record r { body = whole [] }, w')

  allowed-may_call :
      (r : Request) (c : Caller) (creds : Credentials) (bytes : Text) (w : W)
      → header (text "X-Auth") r ≡ x_auth c
      → IsClean c
      → resolve r w ≡ ok creds
      → allowed json methods resolve r bytes w ≡ may_call creds c (json.method_probe bytes)
  unfolding allowed parsed resolved
  allowed-may_call r c creds bytes w sent clean known =
      rw (sent, parse-x_auth c clean, known) (entitled-may_call creds c (json.method_probe bytes))

  -- Over HTTP a POST reaches the method that its body names exactly when its caller may call it: a
  -- server that holds the stand's id and key every method, a browser that holds the id alone the
  -- four methods of card entry. Any other call is answered with the unauthorized error under the
  -- body's own id, and nothing is written. The body is within the limit and reads to its end.
  pub serve-x_auth :
      (r : Request) (c : Caller) (creds : Credentials) (bytes : Text) (w : W)
      → r.method ≡ method_post
      → header (text "X-Auth") r ≡ x_auth c
      → IsClean c
      → length bytes ≤ max_body_bytes
      → resolve (record r { body = whole [] }) w ≡ ok creds
      → serve json methods resolve (record r { body = whole bytes }) w ≡ (
          if may_call creds c (json.method_probe bytes)
          then dispatched bytes r w
          else (unauthorized json methods resolve bytes, record r { body = whole [] }, w))
  unfolding serve after_read
  serve-x_auth r c creds bytes w post sent clean fits known =
      rw
        (
          is_post r post,
          read_limited-whole max_body_bytes bytes fits,
          allowed-may_call (record r { body = whole [] }) c creds bytes w
              (header_body (text "X-Auth") r (whole []) ∙ sent) clean known,
        )
        (ground arith)
