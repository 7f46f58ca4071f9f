-- ===== src/Kernel/Http/Capture.antt =====
-- The captureWriter of internal/kernel/httpx/logging.go, on an answer that is written at once.
use payme_mock.Base.{ℕ, []}
use payme_mock.Base.Int.{ℤ}
use payme_mock.Base.Text.{Text, take}
use payme_mock.Kernel.Http.{Answer, status_ok}

abbrev pub max_recorded_body : ℕ
max_recorded_body = 65536

-- A connection closed with no answer leaves the status that capturing starts with.
abbrev pub captured_status : Answer → ℤ
captured_status (Answer.reply status kind body) = status
captured_status Answer.closed = status_ok

-- What is kept of a body; the body is delivered in full.
abbrev pub captured_body : Answer → Text
captured_body (Answer.reply status kind body) = take max_recorded_body body
captured_body Answer.closed = []
