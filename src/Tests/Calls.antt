-- ===== src/Tests/Calls.antt =====
-- A payout that is delivered twice, over a table of kept answers.
use payme_mock.Base.{◌≡◌, refl, true, Option, none, some, List, [], ◌∷◌, arith}
use payme_mock.Base.Int.{ℤ, pos, ◌≤ℤ◌, ◌-ℤ◌}
use payme_mock.Base.Text.{Text, text, take}
use payme_mock.Base.Dict.{text_eq}
use payme_mock.Kernel.Effect.{ok}
use payme_mock.Kernel.Http.{Request, Answer, Handler, status_ok, read_and_restore, read_limited}
use payme_mock.Kernel.Http.Reading.{whole}
use payme_mock.Kernel.Http.Idempotency.{
  CallKey, IdempotencyMiddleware, text_json, key_of, wrap, has_result,
}
use payme_mock.Postgres.{first_row}
use payme_mock.Postgres.Calls.{CallRow, microseconds, recall, remember, with_calls}
use payme_mock.Postgres.Calls.Replay.{SameBody, wrap-wrap}
use payme_mock.Tests.Http.{signed}

-- A table of kept answers, whose column drops the last byte of a text, and a clock.
abbrev calls : IdempotencyMiddleware (List CallRow × ℤ)
calls = record {
  recall = λ key window w. ok none;
  remember = λ key answer w. (ok tt, w);
  methods = text "transactions.create" ∷ [];
  window = pos 60000000000;
  sandbox = λ r. some (pos 1);
  call_probe = λ body. some (text "7", body);
  result_probe = λ body. some body;
  hash = λ body. body;
}

abbrev column : Text → Option Text
column t = some (take 2 t)

abbrev time : ℤ → ℤ
time t = t

abbrev kept_calls : IdempotencyMiddleware (List CallRow × ℤ)
kept_calls = with_calls column time calls

abbrev payout_call : Request
payout_call = record signed { body = whole (text "transactions.create") }

abbrev call_key : CallKey
call_key = record {
  sandbox_id = pos 1;
  method = text "transactions.create";
  request_id = text "7";
  body_hash = text "transactions.create";
}

call_named : (key_of kept_calls payout_call).0 ≡ some call_key
unfolding key_of read_and_restore read_limited
call_named = refl

answered : has_result kept_calls (text "{} ") ≡ true
unfolding has_result
answered = refl

abbrev pay_out : Handler (List CallRow × ℤ)
pay_out r w = (Answer.reply status_ok text_json (text "{} "), r, w)

unknown : recall time call_key calls.window ([], pos 5) ≡ ok none
unfolding recall first_row
unknown = refl

no_body : SameBody call_key []
unfolding first_row
no_body row h = cc

not_over : ¬ (time (pos 5) ≤ℤ (time (pos 900) -ℤ microseconds calls.window))
unfolding ◌-ℤ◌
not_over = omega arith

wrap-wrap_example :
    let kept = remember column time call_key (text "{} ") ([], pos 5) in
    (wrap kept_calls pay_out payout_call ([], pos 5)
      ≡ (Answer.reply status_ok text_json (text "{} "), payout_call, kept.1))
    × (wrap kept_calls pay_out payout_call (kept.1.0, pos 900)
        ≡ (Answer.reply status_ok text_json (text "{}"), payout_call, (kept.1.0, pos 900)))
wrap-wrap_example =
    wrap-wrap column time calls pay_out payout_call payout_call (text "transactions.create")
      text_json (text "{} ") (text "{}") [] [] (pos 5) (pos 5) (pos 900) call_key (omega arith)
      call_named unknown refl (omega arith) answered refl no_body not_over
