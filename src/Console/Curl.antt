-- ===== src/Console/Curl.antt =====
-- cmd/console/curlof.go: a recorded call as the command that makes it again. `sort_by_name` is
-- `sort.Slice` by the header's name.
use payme_mock.Base.{
  ℕ, ◌≡◌, refl, ap, Bool, false, ◌||◌, Option, none, some, List, [], ◌∷◌, Bool-cases, inl, inr,
  ◌++◌, map, ◌==◌, if◌then◌else◌, arith,
}
use payme_mock.Base.Text.{Text, text, eq_text, is_empty}
use payme_mock.Base.Strings.{trim_space, trim_suffix, to_lower, equal_fold}

pub record AccountField : Type 0 where
  pub name : Text
  pub value : Text

-- What the command takes of `trafficDetail`.
pub record TrafficDetail : Type 0 where
  pub service : Text
  pub sandbox : Text
  pub request_headers : List AccountField
  pub request_body : Text

-- `endpointOf`
unfoldable pub endpoint_of : Text → TrafficDetail → Text
unfolding trim_suffix eq_text
endpoint_of base d =
    let plain = trim_suffix 47 base in
    if eq_text d.service (text "merchant")
    then plain ++ (text ":8081/s/" ++ (d.sandbox ++ text "/payme/merchant"))
    else plain ++ text ":8082/api"

abbrev pub skipped_headers : List Text
skipped_headers =
    text "content-length"
    ∷ text "accept-encoding"
    ∷ text "connection"
    ∷ text "host"
    ∷ text "user-agent"
    ∷ []

abbrev pub skips : List Text → Text → Bool
skips [] name = false
skips (s ∷ ss) name = eq_text s name || skips ss name

unfoldable pub resent : List AccountField → List AccountField
unfolding eq_text
resent [] = []
resent (h ∷ hs) =
    let rest = resent hs in if skips skipped_headers (map to_lower h.name) then rest else h ∷ rest

-- `hasHeader`
unfoldable pub has_header : List AccountField → Text → Bool
unfolding equal_fold
has_header [] name = false
has_header (h ∷ hs) name = equal_fold h.name name || has_header hs name

-- `curlHeaders`
unfoldable pub curl_headers :
    (List AccountField → List AccountField) → List AccountField → List AccountField
unfolding resent has_header
curl_headers sort_by_name headers =
    let out = sort_by_name (resent headers) in
    if has_header out (text "content-type")
    then out
    else out ++ (record { name = text "Content-Type"; value = text "application/json" } ∷ [])

-- `strings.ReplaceAll(value, "'", "'\\''")`
unfoldable pub escaped : Text → Text
escaped [] = []
escaped (x ∷ s) = if x == 39 then 39 ∷ 92 ∷ 39 ∷ 39 ∷ escaped s else x ∷ escaped s

-- `shellQuote`
unfoldable pub shell_quote : Text → Text
unfolding escaped
shell_quote value = 39 ∷ (escaped value ++ (39 ∷ []))

unfoldable pub header_options : List AccountField → Text
unfolding shell_quote
header_options [] = []
header_options (h ∷ hs) =
    text " \\\n  -H " ++ (shell_quote (h.name ++ (text ": " ++ h.value)) ++ header_options hs)

-- `curlOf`
unfoldable pub curl_of : (List AccountField → List AccountField) → Text → TrafficDetail → Text
unfolding endpoint_of curl_headers header_options trim_space
curl_of sort_by_name base d =
    let body = trim_space d.request_body in
    let body_option = if is_empty body then [] else text " \\\n  -d " ++ shell_quote body in
    text "curl -i -X POST "
    ++ (shell_quote (endpoint_of base d)
        ++ (header_options (curl_headers sort_by_name d.request_headers) ++ body_option))

-- Where a shell stands in a word: outside quotes, inside single quotes, behind a backslash.
data Mode : Type 0 where
  plain quoted literal : Mode

abbrev after : ℕ → Option Text → Option Text
after x none = none
after x (some s) = some (x ∷ s)

-- The word that a shell reads; `none` is a quote or a backslash that nothing ends.
unfoldable shell_word : Mode → Text → Option Text
shell_word Mode.plain [] = some []
shell_word Mode.quoted [] = none
shell_word Mode.literal [] = none
shell_word Mode.literal (x ∷ s) = after x (shell_word Mode.plain s)
shell_word Mode.quoted (x ∷ s) =
    let closed = shell_word Mode.plain s in
    let inside = shell_word Mode.quoted s in if x == 39 then closed else after x inside
shell_word Mode.plain (x ∷ s) =
    let opened = shell_word Mode.quoted s in
    let behind = shell_word Mode.literal s in
    let outside = shell_word Mode.plain s in
    if x == 39 then opened else if x == 92 then behind else after x outside

escaped_read : (value : Text) → shell_word Mode.quoted (escaped value ++ (39 ∷ [])) ≡ some value
unfolding shell_word escaped
escaped_read [] = refl
escaped_read (x ∷ s) = elim (Bool-cases (x == 39)) [
  | inl e ↦ rw (e, escaped_read s) (ap (λ c. some (c ∷ s)) (ground arith))
  | inr e ↦ rw (e, e, escaped_read s) refl
]

-- A shell hands the quoted value on unchanged, quotes inside it included.
shell_word-shell_quote : (value : Text) → shell_word Mode.plain (shell_quote value) ≡ some value
unfolding shell_word shell_quote
shell_word-shell_quote value = escaped_read value
