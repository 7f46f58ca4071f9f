-- ===== src/Console/Paging/Walk.antt =====
-- The rows that a reader sees who follows the pager of cmd/console/paging.go.
use payme_mock.Base.{
  ℕ, zero, suc, ◌+◌, ◌*◌, ◌^◌, ◌≤◌, ◌<◌, ◌≡◌, refl, sym, ap, ◌∙◌, Option, none, some, List, [], ◌∷◌,
  ◌++◌, ltb, true, inl, inr, Bool-cases, if◌then◌else◌, arith,
}
use payme_mock.Base.Int.{ℤ, pos, negsuc, ◌+ℤ◌, ◌-ℤ◌}
use payme_mock.Base.Int64.{add64, sub64, mul64, wrap64, wrap64_id}
use payme_mock.Base.Text.{Text, text, length, take, drop, eq_text}
use payme_mock.Base.Lengths.{
  length-take_more, take-take_more, drop-drop, joined, length-drop, take_all, drop_all,
}
use payme_mock.Base.Decimal.{format_int, parse_int}
use payme_mock.Base.Decimal.Laws.{parse-format_int}
use payme_mock.Base.Dict.{insert, delete, text_eq, lookup-insert, lookup-delete}
use payme_mock.Console.Paging.{
  Query, get, page_sizes, offered, size_asked, page_size_of, number_asked, page_number, page_of,
  PageView, address, page_url, page_query, trimmed, view_of, paginate,
}

-- What `LIMIT` and `OFFSET` leave of the rows of a query. A negative number is an error there.
abbrev pub window {ℓ} : {A : Type ℓ} → ℤ → ℤ → List A → List A
window (pos limit) (pos offset) xs = take limit (drop offset xs)
window (pos limit) (negsuc offset) xs = []
window (negsuc limit) offset xs = []

-- `encode` is Values.Encode and `opened` the query that the request of an address carries, which
-- net/url parses.
module _ (encode : Query → Text) (opened : Text → Query) (path : Text) where
  -- The screen of a query, over all rows of the list.
  abbrev pub screen {ℓ} : {A : Type ℓ} → Query → List A → List A × PageView
  screen query xs =
      let page = page_of query in paginate encode (window page.limit page.offset xs) page path query

  -- The rows of the screen and of those behind it, each opened by the link of the pager to the next page
  -- while one is offered.
  unfoldable pub read_on {ℓ} : {A : Type ℓ} → ℕ → Query → List A → List A
  read_on zero query xs = []
  read_on (suc fuel) query xs =
      let (shown, view) = screen query xs in
      let rest = read_on fuel (opened view.next_url) xs in
      shown ++ (if view.has_next then rest else [])

  -- An address carries the query that it was made of: each parameter has the value that it had.
  abbrev pub ReadsBack : Type 0
  ReadsBack =
      (query : Query) (name : Text) → get name (opened (address encode path query)) ≡ get name query

page_query_later :
    (k : ℕ) (query : Query)
    → page_query (pos (suc (suc k))) query
      ≡ insert (text "page") (format_int (pos (suc (suc k))) ∷ []) query
unfolding page_query
page_query_later k query = ground arith

page_query_first : (query : Query) → page_query (pos 1) query ≡ delete (text "page") query
unfolding page_query
page_query_first query = ground arith

number_missing : number_asked (parse_int []) ≡ pos 1
unfolding parse_int
number_missing = refl

page_number-page_query :
    (k : ℕ) (query : Query)
    → suc k < 2 ^ 63
    → page_number (page_query (pos (suc k)) query) ≡ pos (suc k)
unfolding page_number get eq_text
page_number-page_query zero query h =
    rw (page_query_first query, lookup-delete (text "page") (text "page") query) number_missing
page_number-page_query (suc k) query h =
    rw
      (
        page_query_later k query,
        lookup-insert (text "page") (text "page") (format_int (pos (suc (suc k))) ∷ []) query,
        parse-format_int (suc (suc k)) h,
      )
      (ground arith)

page_size_of-page_query :
    (number : ℤ) (query : Query) → page_size_of (page_query number query) ≡ page_size_of query
unfolding page_size_of get page_query eq_text
page_size_of-page_query number query = ground (
  arith,
  lookup-delete (text "page") (text "per") query,
  lookup-insert (text "page") (text "per") (format_int number ∷ []) query,
)

page_number_of :
    (q q' : Query) → get (text "page") q ≡ get (text "page") q' → page_number q ≡ page_number q'
unfolding page_number
page_number_of q q' e = ap (λ t. number_asked (parse_int t)) e

page_size_of_of :
    (q q' : Query) → get (text "per") q ≡ get (text "per") q' → page_size_of q ≡ page_size_of q'
unfolding page_size_of
page_size_of_of q q' e = ap (λ t. size_asked (parse_int t)) e

offered_bounds : (asked : ℤ) → (0 < offered page_sizes asked) × (offered page_sizes asked ≤ 200)
unfolding offered
offered_bounds asked = ground arith

size_asked_bounds : (asked : Option ℤ) → (0 < size_asked asked) × (size_asked asked ≤ 200)
size_asked_bounds none = (omega arith, omega arith)
size_asked_bounds (some asked) = offered_bounds asked

page_size_of_bounds : (query : Query) → (0 < page_size_of query) × (page_size_of query ≤ 200)
unfolding page_size_of
page_size_of_bounds query = size_asked_bounds (parse_int (get (text "per") query))

one_more : (n : ℕ) → pos n +ℤ pos 1 ≡ pos (suc n)
unfolding ◌+ℤ◌
one_more n = ground arith

one_less : (n : ℕ) → pos (suc n) -ℤ pos 1 ≡ pos n
unfolding ◌-ℤ◌
one_less n = ground arith

after_number : (n : ℕ) → suc n < 2 ^ 63 → add64 (pos n) (pos 1) ≡ pos (suc n)
unfolding add64
after_number n small = ap wrap64 (one_more n) ∙ wrap64_id (pos (suc n)) (small, omega arith)

before_number : (k : ℕ) → k < 2 ^ 63 → sub64 (pos (suc k)) (pos 1) ≡ pos k
unfolding sub64
before_number k low = ap wrap64 (one_less k) ∙ wrap64_id (pos k) (low, omega arith)

-- What a page asks the database for.
limit-page_of : (query : Query) → (page_of query).limit ≡ pos (suc (page_size_of query))
unfolding page_of
limit-page_of query =
    let few = page_size_of_bounds query in after_number (page_size_of query) (omega (arith, few.1))

offset-page_of :
    (k : ℕ) (query : Query)
    → page_number query ≡ pos (suc k)
    → k < 2 ^ 63
    → k * page_size_of query < 2 ^ 63
    → (page_of query).offset ≡ pos (k * page_size_of query)
unfolding page_of mul64
offset-page_of k query h low small =
    rw (h, before_number k low) (wrap64_id (pos (k * page_size_of query)) (small, omega arith))

size-page_of : (query : Query) → (page_of query).size ≡ page_size_of query
unfolding page_of
size-page_of query = refl

number-page_of : (query : Query) → (page_of query).number ≡ page_number query
unfolding page_of
number-page_of query = refl

trimmed-take {ℓ} : {A : Type ℓ} (n : ℕ) (ys : List A) → trimmed n (take (suc n) ys) ≡ take n ys
trimmed-take n ys = elim (Bool-cases (ltb n (length ys))) [
  | inl e ↦ rw (length-take_more n ys, e) (take-take_more n ys)
  | inr e ↦
      rw (length-take_more n ys, e)
        (take_all (suc n) ys (ground arith) ∙ sym (take_all n ys (ground arith)))
]

ltb_more {ℓ} : {A : Type ℓ} (n : ℕ) (ys : List A) → n < length ys → ltb n (length ys) ≡ true
ltb_more n ys h = ground arith

suc_mul : (k n : ℕ) → suc k * n ≡ k * n + n
suc_mul k n = grind arith

zero_mul : (n : ℕ) → 0 * n ≡ 0
zero_mul n = omega arith

mul_bound : (k n : ℕ) → 0 < n → k ≤ k * n
mul_bound k n h = grind arith

module _ (encode : Query → Text) (opened : Text → Query) (path : Text) where
  -- What the screen of a page shows.
  abbrev Shows {ℓ} : {A : Type ℓ} → ℕ → Query → List A → Type ℓ
  Shows k query xs =
      let rest = drop (k * page_size_of query) xs in
      let view = (screen encode opened path query xs).1 in
      ((screen encode opened path query xs).0 ≡ take (page_size_of query) rest)
      × (view.has_next ≡ ltb (page_size_of query) (length rest))
      × (view.next_url ≡ (
          if ltb (page_size_of query) (length rest)
          then address encode path (page_query (pos (suc (suc k))) query)
          else []))

  screen-Shows {ℓ} :
      {A : Type ℓ} (k : ℕ) (query : Query) (xs : List A)
      → page_number query ≡ pos (suc k)
      → suc (suc k) < 2 ^ 63
      → k * page_size_of query < 2 ^ 63
      → Shows k query xs
  unfolding paginate view_of page_url page_query
  screen-Shows k query xs h low small =
      let rest = drop (k * page_size_of query) xs in
      let link = address encode path (page_query (pos (suc (suc k))) query) in
      rw (limit-page_of query, offset-page_of k query h (omega arith) small, size-page_of query)
        (
          trimmed-take (page_size_of query) rest,
          length-take_more (page_size_of query) rest,
          rw (number-page_of query, h, after_number (suc k) low)
              (ap (λ b. if b then link else []) (length-take_more (page_size_of query) rest)),
        )

  -- From any page on, which shows `n` rows, the rest of the list.
  read_on_from {ℓ} :
      {A : Type ℓ} (fuel k n : ℕ) (query : Query) (xs : List A)
      → ReadsBack encode opened path
      → page_size_of query ≡ n
      → page_number query ≡ pos (suc k)
      → k * n ≤ length xs
      → length xs ≤ (k + fuel) * n
      → suc (suc (length xs)) < 2 ^ 63
      → read_on encode opened path fuel query xs ≡ drop (k * n) xs
  unfolding read_on
  read_on_from zero k n query xs back e h here enough small =
      sym (drop_all (k * n) xs (grind arith))
  read_on_from (suc fuel) k n query xs back e h here enough small =
      let few = page_size_of_bounds query in
      let low = mul_bound k n (omega (arith, e)) in
      let (rows, next, url) = screen-Shows k query xs h (omega arith) (rw e (omega arith)) in
      let link = page_query (pos (suc (suc k))) query in
      rw (rows, next, url, e)
        (joined n (drop (k * n) xs) _ (λ more. rw (ltb_more n (drop (k * n) xs) more) (
          read_on_from fuel (suc k) n (opened (address encode path link)) xs back
            (page_size_of_of _ link (back link (text "per"))
              ∙ page_size_of-page_query (pos (suc (suc k))) query
              ∙ e)
            (page_number_of _ link (back link (text "page"))
              ∙ page_number-page_query (suc k) query (omega arith))
            (omega (arith, suc_mul k n, length-drop (k * n) xs, more)) (grind arith) small
          ∙ ap (λ m. drop m xs) (suc_mul k n ∙ omega arith)
          ∙ sym (drop-drop (k * n) n xs))))

  -- Whatever size was picked, a reader who begins at the first page of a list and opens the link to the
  -- next page that the pager of each screen shows, while it offers one, is shown every row of the list
  -- once, in its order. The list stays the same on the way and has fewer rows than an int64 counts; the
  -- pages that the fuel allows hold it; and an address carries the query that it was made of.
  pub read_on-page_query {ℓ} :
      {A : Type ℓ} (fuel : ℕ) (query : Query) (xs : List A)
      → ReadsBack encode opened path
      → length xs ≤ fuel * page_size_of query
      → suc (suc (length xs)) < 2 ^ 63
      → read_on encode opened path fuel (page_query (pos 1) query) xs ≡ xs
  read_on-page_query fuel query xs back enough small =
      read_on_from fuel 0 (page_size_of query) (page_query (pos 1) query) xs back
        (page_size_of-page_query (pos 1) query) (page_number-page_query 0 query (omega arith))
        (omega arith) (grind arith) small
      ∙ ap (λ m. drop m xs) (zero_mul (page_size_of query))
