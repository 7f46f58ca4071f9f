-- ===== src/Tests/Console.antt =====
-- A reader who pages through a list of thirty rows, figures, and a recorded call.
use payme_mock.Base.{ℕ, zero, suc, some, ◌≡◌, refl, ap, [], ◌∷◌, arith, List, Bool-cases, inl, inr}
use payme_mock.Base.Int.{pos, negsuc}
use payme_mock.Base.Int64.{sub64}
use payme_mock.Base.Text.{Text, text, replicate, eq_text, drop, length}
use payme_mock.Base.Decimal.{format_int, digits_value, parse_int}
use payme_mock.Base.Dict.{lookup, insert, text_eq}
use payme_mock.Console.Paging.{Query, get, first_value, offered, page_size_of, page_query, page_url}
use payme_mock.Console.Format.{format_sum}
use payme_mock.Console.Curl.{TrafficDetail, curl_of}
use payme_mock.Base.Strings.{trim_space, trim_suffix}
use payme_mock.Console.Paging.Walk.{ReadsBack, read_on, read_on-page_query}

-- The stand's screen of calls, at twenty-five rows a page.
abbrev query : Query
query = (text "per", text "25" ∷ []) ∷ []

abbrev rows : List ℕ
rows = replicate 30 7

-- An encoding of a query that reads back: every text stands before a zero, its bytes one higher.
put : Text → Text → Text
put [] rest = 0 ∷ rest
put (c ∷ cs) rest = suc c ∷ put cs rest

encode : Query → Text
unfolding put
encode [] = []
encode ((name, values) ∷ query) = put name (put (first_value (some values)) (encode query))

longer : ℕ → List Text → List Text
longer c [] = []
longer c (t ∷ ts) = (c ∷ t) ∷ ts

texts : Text → List Text
unfolding longer
texts [] = []
texts (zero ∷ s) = [] ∷ texts s
texts (suc c ∷ s) = longer c (texts s)

pairs : List Text → Query
pairs [] = []
pairs (name ∷ []) = []
pairs (name ∷ value ∷ rest) = (name, value ∷ []) ∷ pairs rest

abbrev path : Text
path = text "/traffic"

opened : Text → Query
unfolding texts pairs
opened url = pairs (texts (drop (suc (length path)) url))

texts-put : (s rest : Text) → texts (put s rest) ≡ s ∷ texts rest
unfolding texts put longer
texts-put [] rest = refl
texts-put (c ∷ cs) rest = ap (longer c) (texts-put cs rest)

pairs-encode : (name : Text) (q : Query) → get name (pairs (texts (encode q))) ≡ get name q
unfolding get lookup encode pairs texts
pairs-encode name [] = refl
pairs-encode name ((key, values) ∷ q) =
    rw
      (
        texts-put key (put (first_value (some values)) (encode q)),
        texts-put (first_value (some values)) (encode q),
      )
      (elim (Bool-cases (eq_text key name)) [
        | inl e ↦ rw e refl
        | inr e ↦ rw e (pairs-encode name q)
      ])

opened-ReadsBack : ReadsBack encode opened path
unfolding opened
opened-ReadsBack [] name = refl
opened-ReadsBack (x ∷ q) name = pairs-encode name (x ∷ q)

size-query : page_size_of query ≡ 25
unfolding page_size_of get lookup eq_text parse_int digits_value offered
size-query = refl

read_on-page_query_example : read_on encode opened path 2 (page_query (pos 1) query) rows ≡ rows
read_on-page_query_example =
    read_on-page_query encode opened path 2 query rows opened-ReadsBack (omega (arith, size-query))
      (omega arith)

next : page_url (λ _. text "page=2&per=25") path query (pos 2) ≡ text "/traffic?page=2&per=25"
unfolding page_url page_query insert eq_text
next = refl

figure : format_sum (pos 1234567890) ≡ text "12 345 678.90"
unfolding format_sum sub64 format_int
figure = refl

debt : format_sum (negsuc 4) ≡ text "-0.05"
unfolding format_sum sub64 format_int
debt = refl

-- The least int64 is its own negation, and each part of it is written with a sign.
least_amount : format_sum (negsuc 9223372036854775807) ≡ text "--92 233 720 368 547 758.-8"
unfolding format_sum sub64 format_int
least_amount = refl

abbrev call : TrafficDetail
call = record {
  service = text "merchant";
  sandbox = text "demo";
  request_headers = record { name = text "Host"; value = text "h" } ∷ [];
  request_body = text "it's\n";
}

command :
    curl_of (λ hs. hs) (text "http://h/") call
    ≡ text
        "curl -i -X POST 'http://h:8081/s/demo/payme/merchant' \\\n  -H 'Content-Type: application/json' \\\n  -d 'it'\\''s'"
unfolding curl_of eq_text trim_space trim_suffix
command = refl
