-- ===== src/Kernel/Http/Idempotency/Replay.antt =====
-- A repeated call through internal/kernel/httpx/idempotency.go.
use payme_mock.Base.{◌≡◌, ◌≤◌, true, none, some, arith}
use payme_mock.Base.Text.{Text, length}
use payme_mock.Kernel.Effect.{ok}
use payme_mock.Kernel.Http.{Request, Answer, Handler, status_ok, max_read_bytes}
use payme_mock.Kernel.Http.Reading.{whole, take_whole, read_and_restore-whole}
use payme_mock.Kernel.Http.Capture.{max_recorded_body}
use payme_mock.Kernel.Http.Idempotency.{
  CallKey, IdempotencyMiddleware, text_json, key_of, has_result, remember_answer, first_attempt,
  recalled, keyed, wrap,
}

module _ {W : Type 0} (m : IdempotencyMiddleware W) where
  -- Reading the key leaves a whole body as it was.
  key_of-whole :
      (r : Request) (bytes : Text)
      → length bytes ≤ max_read_bytes
      → (key_of m (record r { body = whole bytes })).1 ≡ record r { body = whole bytes }
  unfolding key_of
  key_of-whole r bytes fits = rw (read_and_restore-whole r bytes fits) (ground arith)

  key_found :
      (r : Request) (bytes : Text) {key : CallKey}
      → length bytes ≤ max_read_bytes
      → (key_of m (record r { body = whole bytes })).0 ≡ some key
      → key_of m (record r { body = whole bytes }) ≡ (some key, record r { body = whole bytes })
  key_found r bytes fits e = λ i. (e i, key_of-whole r bytes fits i)

  remember_success :
      (key : CallKey) (kind answer : Text) (w : W)
      → length answer ≤ max_recorded_body
      → has_result m answer ≡ true
      → remember_answer m key (Answer.reply status_ok kind answer) w ≡ (m.remember key answer w).1
  unfolding remember_answer
  remember_success key kind answer w fits success =
      rw (take_whole max_recorded_body answer fits, success)

  -- A call whose answer the store took, and a second delivery of it for which the store has `stored`.
  pub wrap-recall :
      (next : Handler W) (r r' : Request) (bytes kind answer stored : Text) (w w' w'' : W)
      (key : CallKey)
      → length bytes ≤ max_read_bytes
      → (key_of m (record r { body = whole bytes })).0 ≡ some key
      → m.recall key m.window w ≡ ok none
      → next (record r { body = whole bytes }) w ≡ (Answer.reply status_ok kind answer, r', w')
      → length answer ≤ max_recorded_body
      → has_result m answer ≡ true
      → m.recall key m.window w'' ≡ ok (some stored)
      → (wrap m next (record r { body = whole bytes }) w
          ≡ (Answer.reply status_ok kind answer, r', (m.remember key answer w').1))
        × (wrap m next (record r { body = whole bytes }) w''
            ≡ (Answer.reply status_ok text_json stored, record r { body = whole bytes }, w''))
  unfolding wrap keyed recalled first_attempt
  wrap-recall next r r' bytes kind answer stored w w' w'' key fits named fresh served short success
        known =
      (
        rw (
          key_found r bytes fits named,
          fresh,
          served,
          remember_success key kind answer w' short success,
        ),
        rw (key_found r bytes fits named, known),
      )
