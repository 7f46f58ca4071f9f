-- ===== src/Base/Strings.antt =====
-- Go's package strings on byte strings: Cut, CutPrefix, Split and Join at one byte, TrimSpace, and
-- EqualFold for ASCII.
pub mod Laws
use Prim.Native.Nat.{ℕ, zero, suc, ◌+◌, ◌-◌}
use mathlib.Core.Bool.{Bool, true, false, ◌&&◌, ◌||◌}
use mathlib.Core.Option.{Option, none, some}
use mathlib.Core.List.{List, [], ◌∷◌, ◌++◌, reverse}
use payme_mock.Base.Tests.{◌==◌, ltb, leb, if◌then◌else◌}
use payme_mock.Base.Text.{Text, length, has_prefix}

abbrev cons_before : ℕ → Option (Text × Text) → Option (Text × Text)
cons_before x none = none
cons_before x (some (before, after)) = some (x ∷ before, after)

-- `strings.Cut(s, c)`: `none` where `c` is not found.
unfoldable pub cut : ℕ → Text → Option (Text × Text)
cut c [] = none
cut c (x ∷ s) = if x == c then some ([], s) else cons_before x (cut c s)

-- `strings.CutPrefix(s, p)`
unfoldable pub cut_prefix : Text → Text → Option Text
cut_prefix [] s = some s
cut_prefix (y ∷ p) [] = none
cut_prefix (y ∷ p) (x ∷ s) = if x == y then cut_prefix p s else none

abbrev pub cons_first : ℕ → List Text → List Text
cons_first x [] = (x ∷ []) ∷ []
cons_first x (t ∷ ts) = (x ∷ t) ∷ ts

-- `strings.Contains(s, c)`
unfoldable pub contains : ℕ → Text → Bool
contains c [] = false
contains c (x ∷ s) = x == c || contains c s

-- `strings.Split(s, c)`
unfoldable pub split : ℕ → Text → List Text
split c [] = [] ∷ []
split c (x ∷ s) = let rest = split c s in if x == c then [] ∷ rest else cons_first x rest

-- `strings.Join(parts, c)`
unfoldable pub join : ℕ → List Text → Text
join c [] = []
join c (t ∷ []) = t
join c (t ∷ u ∷ ts) = t ++ (c ∷ join c (u ∷ ts))

-- ASCII white space, all that the texts in question can hold.
abbrev pub is_space : ℕ → Bool
is_space x = (leb 9 x && leb x 13) || x == 32

unfoldable pub trim_left : Text → Text
trim_left [] = []
trim_left (x ∷ s) = if is_space x then trim_left s else x ∷ s

-- `strings.TrimSpace`
unfoldable pub trim_space : Text → Text
unfolding trim_left
trim_space s = reverse (trim_left (reverse (trim_left s)))

abbrev pub to_lower : ℕ → ℕ
to_lower x = if leb b'A' x && leb x b'Z' then x + 32 else x

unfoldable pub equal_fold : Text → Text → Bool
equal_fold [] [] = true
equal_fold [] (y ∷ t) = false
equal_fold (x ∷ s) [] = false
equal_fold (x ∷ s) (y ∷ t) = to_lower x == to_lower y && equal_fold s t

-- `strings.TrimSuffix(s, c)`
unfoldable pub trim_suffix : ℕ → Text → Text
trim_suffix c [] = []
trim_suffix c (x ∷ []) = if x == c then [] else x ∷ []
trim_suffix c (x ∷ y ∷ s) = x ∷ trim_suffix c (y ∷ s)

abbrev before_suffix : ℕ → Option Text → Option Text
before_suffix x none = none
before_suffix x (some s) = some (x ∷ s)

-- `strings.CutSuffix(s, c)`
unfoldable pub cut_suffix : ℕ → Text → Option Text
cut_suffix c [] = none
cut_suffix c (x ∷ []) = if x == c then some [] else none
cut_suffix c (x ∷ y ∷ s) = before_suffix x (cut_suffix c (y ∷ s))

-- `strings.ReplaceAll(s, old, new)` for an `old` that is not empty; the number counts the bytes of
-- an occurrence that are still to pass over.
unfoldable pub replace_from : Text → Text → ℕ → Text → Text
replace_from old new skip [] = []
replace_from old new (suc k) (x ∷ s) = replace_from old new k s
replace_from old new zero (x ∷ s) =
    let replaced = new ++ replace_from old new (length old - 1) s in
    let kept = x ∷ replace_from old new zero s in if has_prefix (x ∷ s) old then replaced else kept

-- The order of strings: byte by byte.
unfoldable pub text_leb : Text → Text → Bool
text_leb [] t = true
text_leb (x ∷ s) [] = false
text_leb (x ∷ s) (y ∷ t) = ltb x y || (x == y && text_leb s t)

unfoldable pub insert_text : Text → List Text → List Text
unfolding text_leb
insert_text t [] = t ∷ []
insert_text t (u ∷ us) = if text_leb t u then t ∷ u ∷ us else u ∷ insert_text t us

-- `sort.Strings`
unfoldable pub sort_texts : List Text → List Text
unfolding insert_text
sort_texts [] = []
sort_texts (t ∷ ts) = insert_text t (sort_texts ts)
