-- ===== src/Kernel/Http.antt =====
-- net/http as the middleware uses it, and internal/kernel/httpx/body.go. A handler gives back the
-- request beside its answer: the body is a stream, and what one reader took is gone for the next.
pub mod Auth
pub mod Reading
pub mod Capture
pub mod Faults
pub mod Allowlist
pub mod Idempotency
pub mod Traffic
use payme_mock.Base.{
  Bool, true, false, ◌&&◌, Option, none, some, List, [], ◌++◌, ltb, ℕ, if◌then◌else◌,
}
use payme_mock.Base.Int.{ℤ, pos}
use payme_mock.Base.Text.{Text, text, length, take, drop}
use payme_mock.Base.Dict.{Dict, lookup, text_eq}

-- What reading gives: the bytes that are left, and whether an error stands behind them instead of
-- the end.
pub record Body : Type 0 where
  pub bytes : Text
  pub broken : Bool

-- The stand in the request's context, as internal/kernel/sandboxctx carries it.
pub record Sandbox : Type 0 where
  pub id : ℤ
  pub slug : Text
  pub merchant_id : Text
  pub merchant_name : Text
  pub key : Text
  pub test_key : Text
  pub config_id : ℤ
  pub kind : Text

-- Header names are in their canonical form. A server's request has a body, if only an empty one.
pub record Request : Type 0 where
  pub method : Text
  pub headers : Dict Text Text
  pub remote_addr : Text
  pub sandbox : Option Sandbox
  pub body : Body

-- `reply` holds the status, the content type and the body; `closed` is a connection closed with no
-- answer.
pub data Answer : Type 0 where
  reply : ℤ → Text → Text → Answer
  closed : Answer

-- A served request: the answer, the request as the handler leaves it, and the world behind.
abbrev pub Handler : Type 0 → Type 0
Handler W = Request → W → Answer × Request × W

abbrev pub status_ok : ℤ
status_ok = pos 200

abbrev pub method_post : Text
method_post = text "POST"

abbrev value_or_empty : Option Text → Text
value_or_empty none = []
value_or_empty (some v) = v

-- `r.Header.Get(name)`
unfoldable pub header : Text → Request → Text
unfolding lookup
header name r = value_or_empty (lookup name r.headers)

-- `http.Error` and its texts
abbrev pub http_error : ℤ → Text → Answer
http_error status message = reply status (text "text/plain; charset=utf-8") (message ++ text "\n")

abbrev pub forbidden : Answer
forbidden = http_error (pos 403) (text "Forbidden")

abbrev pub internal_error : Answer
internal_error = http_error (pos 500) (text "Internal Server Error")

-- `io.ReadAll(io.LimitReader(r.Body, limit))`: `none` is an error, which a limit that is reached
-- first hides. The second part is what is left to read.
unfoldable pub read_limited : ℕ → Body → Option Text × Body
read_limited limit b =
    if b.broken && ltb (length b.bytes) limit
    then (none, record b { bytes = [] })
    else (some (take limit b.bytes), record b { bytes = drop limit b.bytes })

abbrev pub max_read_bytes : ℕ
max_read_bytes = 1048576

abbrev put_back : Request → Option Text × Body → Option Text × Request
put_back r (none, rest) = (none, record r { body = rest })
put_back r (some bytes, rest) =
    (some bytes, record r { body = record { bytes = bytes; broken = false } })

-- `readAndRestoreBody`
unfoldable pub read_and_restore : Request → Option Text × Request
read_and_restore r = put_back r (read_limited max_read_bytes r.body)
