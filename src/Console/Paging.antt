-- ===== src/Console/Paging.antt =====
-- cmd/console/paging.go: the page of a list that a screen shows, and the links of its pager. A request
-- is its path and its query; `encode` is `url.Values.Encode`.
pub mod Walk
use payme_mock.Base.{
  ℕ, Bool, true, false, Option, none, some, List, [], ◌∷◌, ◌++◌, not, ltb, if◌then◌else◌, map,
}
use payme_mock.Base.Int.{ℤ, pos, eq_ℤ, ltb_ℤ, leb_ℤ}
use payme_mock.Base.Int64.{add64, sub64, mul64}
use payme_mock.Base.Text.{Text, text, length, take}
use payme_mock.Base.Decimal.{format_int, parse_int}
use payme_mock.Base.Dict.{Dict, lookup, insert, delete, text_eq}

-- `url.Values`
abbrev pub Query : Type 0
Query = Dict Text (List Text)

abbrev pub first_value : Option (List Text) → Text
first_value none = []
first_value (some []) = []
first_value (some (v ∷ vs)) = v

-- `Values.Get`
unfoldable pub get : Text → Query → Text
get name query = first_value (lookup name query)

abbrev pub default_page_size : ℕ
default_page_size = 50

-- `pageSizes`
abbrev pub page_sizes : List ℕ
page_sizes = 25 ∷ 50 ∷ 100 ∷ 200 ∷ []

-- The size that was asked for, if it is on offer.
unfoldable pub offered : List ℕ → ℤ → ℕ
offered [] asked = default_page_size
offered (size ∷ sizes) asked = if eq_ℤ (pos size) asked then size else offered sizes asked

abbrev pub size_asked : Option ℤ → ℕ
size_asked none = default_page_size
size_asked (some asked) = offered page_sizes asked

-- `pageSizeOf`
unfoldable pub page_size_of : Query → ℕ
unfolding offered
page_size_of query = size_asked (parse_int (get (text "per") query))

pub record PageRequest : Type 0 where
  pub limit : ℤ
  pub offset : ℤ
  pub number : ℤ
  pub size : ℕ

abbrev pub number_asked : Option ℤ → ℤ
number_asked none = pos 1
number_asked (some n) = if ltb_ℤ n (pos 1) then pos 1 else n

unfoldable pub page_number : Query → ℤ
page_number query = number_asked (parse_int (get (text "page") query))

-- `pageOf`
unfoldable pub page_of : Query → PageRequest
page_of query =
    let number = page_number query in
    let size = page_size_of query in
    record {
      limit = add64 (pos size) (pos 1);
      offset = mul64 (sub64 number (pos 1)) (pos size);
      number = number;
      size = size;
    }

pub record PageSizeOption : Type 0 where
  pub value : ℕ
  pub url : Text
  pub on : Bool

pub record PageView : Type 0 where
  pub number : ℤ
  pub has_prev : Bool
  pub has_next : Bool
  pub prev_url : Text
  pub next_url : Text
  pub from : ℤ
  pub to : ℤ
  pub sizes : List PageSizeOption
  pub rows : Bool

-- The query with the page changed, of `pageURL`.
unfoldable pub page_query : ℤ → Query → Query
page_query number query =
    if leb_ℤ number (pos 1)
    then delete (text "page") query
    else insert (text "page") (format_int number ∷ []) query

-- The query with the page size changed, of `sizeURL`.
unfoldable pub size_query : ℕ → Query → Query
size_query size query =
    let first = delete (text "page") query in
    if eq_ℤ (pos size) (pos default_page_size)
    then delete (text "per") first
    else insert (text "per") (format_int (pos size) ∷ []) first

-- The rows without the extra one.
abbrev pub trimmed {ℓ} : {A : Type ℓ} → ℕ → List A → List A
trimmed size rows = if ltb size (length rows) then take size rows else rows

module _ (encode : Query → Text) where
  abbrev pub address : Text → Query → Text
  address path [] = path
  address path (x ∷ query) = path ++ (text "?" ++ encode (x ∷ query))

  -- `pageURL`
  unfoldable pub page_url : Text → Query → ℤ → Text
  unfolding page_query
  page_url path query number = address path (page_query number query)

  -- `sizeURL`
  unfoldable pub size_url : Text → Query → ℕ → Text
  unfolding size_query
  size_url path query size = address path (size_query size query)

  unfoldable pub size_options : Text → Query → ℕ → List ℕ → List PageSizeOption
  unfolding size_url
  size_options path query picked [] = []
  size_options path query picked (size ∷ sizes) =
      record { value = size; url = size_url path query size; on = eq_ℤ (pos size) (pos picked) }
      ∷ size_options path query picked sizes

  -- The view of the rows that are shown.
  unfoldable pub view_of {ℓ} : {A : Type ℓ} → List A → Bool → PageRequest → Text → Query → PageView
  unfolding page_url size_options
  view_of shown has_next page path query =
      let has_prev = ltb_ℤ (pos 1) page.number in
      let some_rows = ltb 0 (length shown) in
      record {
        number = page.number;
        has_prev = has_prev;
        has_next = has_next;
        prev_url = if has_prev then page_url path query (sub64 page.number (pos 1)) else [];
        next_url = if has_next then page_url path query (add64 page.number (pos 1)) else [];
        from = if some_rows then add64 page.offset (pos 1) else pos 0;
        to = add64 page.offset (pos (length shown));
        sizes = size_options path query page.size page_sizes;
        rows = some_rows;
      }

  -- `paginate`
  unfoldable pub paginate {ℓ} :
      {A : Type ℓ} → List A → PageRequest → Text → Query → List A × PageView
  unfolding view_of
  paginate rows page path query =
      let shown = trimmed page.size rows in
      (shown, view_of shown (ltb page.size (length rows)) page path query)
