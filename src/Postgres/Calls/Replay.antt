-- ===== src/Postgres/Calls/Replay.antt =====
-- kernel/httpx/idempotency.go over kernel/postgres/calls.go: a call that is delivered again.
use payme_mock.Base.{
  ◌≡◌, refl, ap, ◌∙◌, sym, ◌≤◌, ◌++◌, true, false, Option, none, some, List, [], ◌∷◌, arith,
  Bool-cases, inl, inr, if◌then◌else◌,
}
use payme_mock.Base.Int.{ℤ, ltb_ℤ, ◌≤ℤ◌, ◌-ℤ◌, eq_ℤ_iff}
use payme_mock.Base.Text.{Text, length, eq_text_refl, eq_text_iff}
use payme_mock.Kernel.Effect.{ok}
use payme_mock.Kernel.Http.{Request, Answer, Handler, status_ok, max_read_bytes}
use payme_mock.Kernel.Http.Reading.{whole}
use payme_mock.Kernel.Http.Capture.{max_recorded_body}
use payme_mock.Kernel.Http.Idempotency.{
  CallKey, IdempotencyMiddleware, text_json, key_of, has_result, wrap,
}
use payme_mock.Kernel.Http.Idempotency.Replay.{wrap-recall}
use payme_mock.Postgres.{first_row, update_rows}
use payme_mock.Postgres.Rows.{first_row-append}
use payme_mock.Postgres.Calls.{
  CallRow, same_call, microseconds, recent, response_of, row_of, answered_again, upserted, recall,
  remember, with_calls,
}

-- What a row of the call that is under this key is after it was answered again.
abbrev again : CallKey → Text → ℤ → CallRow → CallRow
again key stored at row = if same_call key row then answered_again stored at row else row

-- The row that a recall looks for is that of the key, if it has the hash and is young enough.
first_recent :
    (key : CallKey) (window at : ℤ) (rows : List CallRow)
    → first_row (same_call key) rows ≡ none
    → first_row (recent key window at) rows ≡ none
unfolding first_row
first_recent key window at [] h = refl
first_recent key window at (row ∷ rows) h = ground (arith, first_recent key window at rows)

own_call : (key : CallKey) (stored : Text) (at : ℤ) → same_call key (row_of key stored at) ≡ true
own_call key stored at =
    rw
      (
        (eq_ℤ_iff key.sandbox_id key.sandbox_id).1 refl,
        eq_text_refl key.method,
        eq_text_refl key.request_id,
      )
      refl

-- A row that was just written is young while the window is open.
young :
    (window at later : ℤ)
    → ¬ (at ≤ℤ (later -ℤ microseconds window))
    → ltb_ℤ (later -ℤ microseconds window) at ≡ true
young window at later open_ = ground arith

same_row : {A : Type 0} (x y : A) → some x ≡ some y → x ≡ y
same_row x y h = cc

recent-again :
    (key : CallKey) (window at later : ℤ) (stored : Text) (row : CallRow)
    → same_call key row ≡ true
    → row.body_hash ≡ key.body_hash
    → ltb_ℤ (later -ℤ microseconds window) at ≡ true
    → recent key window later (again key stored at row) ≡ true
recent-again key window at later stored row mine same fresh =
    rw (mine, mine, (eq_text_iff row.body_hash key.body_hash).1 same, fresh) refl

again_other :
    (key : CallKey) (window at later : ℤ) (stored : Text) (row : CallRow)
    → same_call key row ≡ false
    → recent key window later (again key stored at row) ≡ false
again_other key window at later stored row other = rw (other, other) refl

again_response :
    (key : CallKey) (stored : Text) (at : ℤ) (row : CallRow)
    → same_call key row ≡ true
    → (again key stored at row).response ≡ stored
again_response key stored at row mine = rw mine refl

recalled_again :
    (key : CallKey) (window at later : ℤ) (stored : Text) (rows : List CallRow) (row : CallRow)
    → first_row (same_call key) rows ≡ some row
    → row.body_hash ≡ key.body_hash
    → ltb_ℤ (later -ℤ microseconds window) at ≡ true
    → response_of (
        first_row
          (recent key window later)
          (update_rows (same_call key) (answered_again stored at) rows))
      ≡ some stored
unfolding first_row update_rows
recalled_again key window at later stored [] row h same fresh = cc
recalled_again key window at later stored (x ∷ xs) row h same fresh =
    elim (Bool-cases (same_call key x)) [
      | inl e ↦
          let x-row : x ≡ row =
            same_row x row
              (ap (λ b. if b then some x else first_row (same_call key) xs) (sym e) ∙ h) in
          rw
            (recent-again key window at later stored x e
              (ap (λ (r : CallRow). r.body_hash) x-row ∙ same) fresh)
            (ap some (again_response key stored at x e))
      | inr e ↦ rw (again_other key window at later stored x e) (
          recalled_again key window at later stored xs row
            (ap (λ b. if b then some x else first_row (same_call key) xs) (sym e) ∙ h) same fresh)
    ]

recent_new :
    (key : CallKey) (window at later : ℤ) (stored : Text)
    → ltb_ℤ (later -ℤ microseconds window) at ≡ true
    → recent key window later (row_of key stored at) ≡ true
recent_new key window at later stored fresh =
    rw (own_call key stored at, eq_text_refl key.body_hash, fresh) refl

recalled_new :
    (key : CallKey) (window at later : ℤ) (stored : Text) (rows : List CallRow)
    → first_row (same_call key) rows ≡ none
    → ltb_ℤ (later -ℤ microseconds window) at ≡ true
    → response_of (first_row (recent key window later) (rows ++ (row_of key stored at ∷ [])))
      ≡ some stored
unfolding first_row
recalled_new key window at later stored rows h fresh =
    rw
      (
        first_row-append (recent key window later) rows (row_of key stored at ∷ []),
        first_recent key window later rows h,
        recent_new key window at later stored fresh,
      )
      refl

-- A row that stands under the key, if one does, is of a call with the same body.
abbrev pub SameBody : CallKey → List CallRow → Type 0
SameBody key rows =
    (row : CallRow) → first_row (same_call key) rows ≡ some row → row.body_hash ≡ key.body_hash

upserted_recalled :
    (key : CallKey) (window at later : ℤ) (stored : Text) (rows : List CallRow) (o : Option CallRow)
    → first_row (same_call key) rows ≡ o
    → SameBody key rows
    → ltb_ℤ (later -ℤ microseconds window) at ≡ true
    → response_of (first_row (recent key window later) (upserted o key stored at rows))
      ≡ some stored
upserted_recalled key window at later stored rows none h same fresh =
    recalled_new key window at later stored rows h fresh
upserted_recalled key window at later stored rows (some row) h same fresh =
    rw ((eq_text_iff row.body_hash key.body_hash).1 (same row h))
      (recalled_again key window at later stored rows row h (same row h) fresh)

module _ {X : Type 0} (jsonb : Text → Option Text) (now : X → ℤ) where
  remember_taken :
      (key : CallKey) (answer stored : Text) (rows : List CallRow) (x : X)
      → jsonb answer ≡ some stored
      → (remember jsonb now key answer (rows, x)).1
        ≡ (upserted (first_row (same_call key) rows) key stored (now x) rows, x)
  unfolding remember
  remember_taken key answer stored rows x h = rw h refl

  recall-remember :
      (key : CallKey) (window : ℤ) (answer stored : Text) (rows : List CallRow) (x later : X)
      → jsonb answer ≡ some stored
      → SameBody key rows
      → ¬ (now x ≤ℤ (now later -ℤ microseconds window))
      → recall now key window ((remember jsonb now key answer (rows, x)).1.0, later)
        ≡ ok (some stored)
  unfolding recall
  recall-remember key window answer stored rows x later taken same open_ =
      rw (remember_taken key answer stored rows x taken) (
        ap ok (
          upserted_recalled key window (now x) (now later) stored rows
            (first_row (same_call key) rows) refl same (young window (now x) (now later) open_)))

  -- A call that the middleware keeps an answer for does its work once while the window is open. The first
  -- delivery, of which the table knows no young answer and no other body under the same identifier, runs
  -- the handler; if that answered 200 with a result of at most 64 KiB that is JSON to the database, a
  -- later delivery of the same request, whatever happened outside the table since, is answered with that
  -- JSON as the column gives it back, the handler does not run, and nothing changes.
  pub wrap-wrap :
      (m : IdempotencyMiddleware (List CallRow × X)) (next : Handler (List CallRow × X))
      (r r' : Request) (bytes kind answer stored : Text) (rows rows' : List CallRow)
      (x x' later : X) (key : CallKey)
      → length bytes ≤ max_read_bytes
      → (key_of (with_calls jsonb now m) (record r { body = whole bytes })).0 ≡ some key
      → recall now key m.window (rows, x) ≡ ok none
      → next (record r { body = whole bytes }) (rows, x)
        ≡ (Answer.reply status_ok kind answer, r', (rows', x'))
      → length answer ≤ max_recorded_body
      → has_result (with_calls jsonb now m) answer ≡ true
      → jsonb answer ≡ some stored
      → SameBody key rows'
      → ¬ (now x' ≤ℤ (now later -ℤ microseconds m.window))
      → let kept = remember jsonb now key answer (rows', x') in
        (wrap (with_calls jsonb now m) next (record r { body = whole bytes }) (rows, x)
          ≡ (Answer.reply status_ok kind answer, r', kept.1))
        × (wrap (with_calls jsonb now m) next (record r { body = whole bytes }) (kept.1.0, later)
            ≡ (
              Answer.reply status_ok text_json stored,
              record r { body = whole bytes },
              (kept.1.0, later),
            ))
  wrap-wrap m next r r' bytes kind answer stored rows rows' x x' later key fits named fresh served
        short success json same open_ =
      wrap-recall (with_calls jsonb now m) next r r' bytes kind answer stored (rows, x) (rows', x')
        _ key fits named fresh served short success
        (recall-remember key m.window answer stored rows' x' later json same open_)
