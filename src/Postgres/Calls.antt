-- ===== src/Postgres/Calls.antt =====
-- kernel/postgres/calls.go: the answers that the idempotency middleware keeps, in the table
-- control.idempotent_calls. `jsonb` is what a column of that type gives back of a text, if it takes it,
-- and `now` the database's clock in microseconds.
pub mod Replay
use payme_mock.Base.{
  ℕ, ◌+◌, ◌/◌, ◌*◌, ◌&&◌, Bool, Option, none, some, List, [], ◌∷◌, ◌++◌, if◌then◌else◌,
}
use payme_mock.Base.Int.{ℤ, pos, negsuc, minus, eq_ℤ, ltb_ℤ, ◌-ℤ◌}
use payme_mock.Base.Text.{Text, eq_text}
use payme_mock.Kernel.Effect.{Error, Result, ok, err, Action}
use payme_mock.Kernel.Http.Idempotency.{CallKey, IdempotencyMiddleware}
use payme_mock.Postgres.{first_row, update_rows}

-- control.idempotent_calls
pub record CallRow : Type 0 where
  pub sandbox_id : ℤ
  pub method : Text
  pub request_id : Text
  pub body_hash : Text
  pub response : Text
  pub at : ℤ

-- The columns of the primary key.
abbrev pub same_call : CallKey → CallRow → Bool
same_call key row =
    eq_ℤ row.sandbox_id key.sandbox_id
    && eq_text row.method key.method
    && eq_text row.request_id key.request_id

-- `window.Milliseconds()` of a duration in nanoseconds, as microseconds: rounded towards zero.
abbrev pub microseconds : ℤ → ℤ
microseconds (pos n) = pos (n / 1000000 * 1000)
microseconds (negsuc n) = minus ((n + 1) / 1000000 * 1000)

abbrev pub recent : CallKey → ℤ → ℤ → CallRow → Bool
recent key window now row =
    same_call key row
    && eq_text row.body_hash key.body_hash
    && ltb_ℤ (now -ℤ microseconds window) row.at

abbrev pub response_of : Option CallRow → Option Text
response_of none = none
response_of (some row) = some row.response

abbrev pub row_of : CallKey → Text → ℤ → CallRow
row_of key stored now = record {
  sandbox_id = key.sandbox_id;
  method = key.method;
  request_id = key.request_id;
  body_hash = key.body_hash;
  response = stored;
  at = now;
}

abbrev pub answered_again : Text → ℤ → CallRow → CallRow
answered_again stored now row = record row { response = stored; at = now }

-- `INSERT ... ON CONFLICT`: `o` is the row that stands under the key.
abbrev pub upserted : Option CallRow → CallKey → Text → ℤ → List CallRow → List CallRow
upserted none key stored now rows = rows ++ (row_of key stored now ∷ [])
upserted (some row) key stored now rows =
    if eq_text row.body_hash key.body_hash
    then update_rows (same_call key) (answered_again stored now) rows
    else rows

module _ {X : Type 0} (now : X → ℤ) where
  -- `CallStore.Recall`
  unfoldable pub recall : CallKey → ℤ → List CallRow × X → Result (Option Text)
  unfolding first_row
  recall key window (rows, x) = ok (response_of (first_row (recent key window (now x)) rows))

module _ {X : Type 0} (jsonb : Text → Option Text) (now : X → ℤ) where
  abbrev pub taken : Option Text → CallKey → Action (List CallRow × X) (Unit {0})
  taken none key w = (err (Error.other "invalid input syntax for type json"), w)
  taken (some stored) key (rows, x) =
      (ok tt, (upserted (first_row (same_call key) rows) key stored (now x) rows, x))

  -- `CallStore.Remember`
  unfoldable pub remember : CallKey → Text → Action (List CallRow × X) (Unit {0})
  unfolding first_row update_rows
  remember key response w = taken (jsonb response) key w

  -- The middleware with this store.
  abbrev pub with_calls :
      IdempotencyMiddleware (List CallRow × X) → IdempotencyMiddleware (List CallRow × X)
  with_calls m = record m { recall = recall now; remember = remember }
