-- ===== src/Kernel/Http/Reading.antt =====
-- What internal/kernel/httpx/body.go leaves for the handler downstream.
use payme_mock.Base.{◌≡◌, refl, ap, ◌∙◌, ◌≤◌, ℕ, true, false, some, [], ◌∷◌, arith, suc, zero}
use payme_mock.Base.Text.{Text, length, take, drop, eq_text, eq_text_refl}
use payme_mock.Kernel.Http.{
  Body, Request, header, method_post, read_limited, read_and_restore, max_read_bytes,
}

pub take_whole : (n : ℕ) (s : Text) → length s ≤ n → take n s ≡ s
take_whole zero [] h = refl
take_whole zero (x ∷ s) h = absurd (omega arith)
take_whole (suc n) [] h = refl
take_whole (suc n) (x ∷ s) h = rw (take_whole n s (omega arith))

drop_whole : (n : ℕ) (s : Text) → length s ≤ n → drop n s ≡ []
drop_whole zero [] h = refl
drop_whole zero (x ∷ s) h = absurd (omega arith)
drop_whole (suc n) [] h = refl
drop_whole (suc n) (x ∷ s) h = drop_whole n s (omega arith)

pub read_limited-whole :
    (limit : ℕ) (bytes : Text)
    → length bytes ≤ limit
    → read_limited limit (record { bytes = bytes; broken = false })
      ≡ (some bytes, record { bytes = []; broken = false })
unfolding read_limited
read_limited-whole limit bytes h = rw (take_whole limit bytes h, drop_whole limit bytes h)

abbrev pub whole : Text → Body
whole bytes = record { bytes = bytes; broken = false }

-- A body that reads to its end within the limit is handed on as it came.
pub read_and_restore-whole :
    (r : Request) (bytes : Text)
    → length bytes ≤ max_read_bytes
    → read_and_restore (record r { body = whole bytes })
      ≡ (some bytes, record r { body = whole bytes })
unfolding read_and_restore
read_and_restore-whole r bytes h = rw (read_limited-whole max_read_bytes bytes h, read_and_restore)

pub header_body :
    (name : Text) (r : Request) (b : Body) → header name (record r { body = b }) ≡ header name r
unfolding header
header_body name r b = refl

pub is_post : (r : Request) → r.method ≡ method_post → eq_text r.method method_post ≡ true
is_post r post = ap (λ m. eq_text m method_post) post ∙ eq_text_refl method_post
