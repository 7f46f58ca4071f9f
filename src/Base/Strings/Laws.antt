-- ===== src/Base/Strings/Laws.antt =====
-- What cutting, splitting and joining give back.
use Prim.Native.Nat.{ℕ}
use mathlib.Core.Path.{◌≡◌, refl, ap, ◌∙◌}
use mathlib.Core.Logic.{◌≢◌, inl, inr}
use mathlib.Core.Option.{some}
use mathlib.Core.List.{List, [], ◌∷◌, ◌++◌}
use native.Mathlib.Omega.{arith}
use payme_mock.Base.Tests.{◌==◌, Bool-cases}
use payme_mock.Base.Text.{Text}
use payme_mock.Base.Strings.{cut, cut_prefix, split, cons_first, join}

-- The byte does not occur.
abbrev pub Lacks : ℕ → Text → Type 0
Lacks c [] = Unit {0}
Lacks c (x ∷ s) = (x ≢ c) × Lacks c s

abbrev pub AllLack : ℕ → List Text → Type 0
AllLack c [] = Unit {0}
AllLack c (t ∷ ts) = Lacks c t × AllLack c ts

pub cut-append : (c : ℕ) (s t : Text) → Lacks c s → cut c (s ++ (c ∷ t)) ≡ some (s, t)
unfolding cut
cut-append c [] t h = ground arith
cut-append c (x ∷ s) t h = ground (arith, cut-append c s t h.1)

pub cut_sound :
    (c : ℕ) (s before after : Text) → cut c s ≡ some (before, after) → s ≡ before ++ (c ∷ after)
unfolding cut
cut_sound c [] before after h = cc
cut_sound c (x ∷ s) [] after h = ground arith
cut_sound c (x ∷ s) (y ∷ before) after h = ground (arith, cut_sound c s before after)

pub cut_prefix-append : (p s : Text) → cut_prefix p (p ++ s) ≡ some s
unfolding cut_prefix
cut_prefix-append [] s = refl
cut_prefix-append (y ∷ p) s = ground (arith, cut_prefix-append p s)

split_one : (c : ℕ) (t : Text) → Lacks c t → split c t ≡ t ∷ []
unfolding split
split_one c [] h = refl
split_one c (x ∷ s) h = ground (arith, split_one c s h.1)

split-append : (c : ℕ) (t rest : Text) → Lacks c t → split c (t ++ (c ∷ rest)) ≡ t ∷ split c rest
unfolding split
split-append c [] rest h = ground arith
split-append c (x ∷ s) rest h = ground (arith, split-append c s rest h.1)

-- Parts without the separator are read back, where there is at least one.
pub split-join :
    (c : ℕ) (t : Text) (ts : List Text) → AllLack c (t ∷ ts) → split c (join c (t ∷ ts)) ≡ t ∷ ts
unfolding join
split-join c t [] h = split_one c t h.0
split-join c t (u ∷ ts) h = split-append c t _ h.0 ∙ ap (λ us. t ∷ us) (split-join c u ts h.1)

cons_first-append :
    (x c : ℕ) (s : Text) (ts : List Text)
    → cons_first x (split c s ++ ts) ≡ cons_first x (split c s) ++ ts
unfolding split
cons_first-append x c [] ts = refl
cons_first-append x c (y ∷ s) ts = elim (Bool-cases (y == c)) [
  | inl e ↦ rw e
  | inr e ↦ ground (arith, cons_first-append y c s ts)
]

-- What stands behind the last separator is the last part, whatever stands before.
pub split_last : (c : ℕ) (s t : Text) → Lacks c t → split c (s ++ (c ∷ t)) ≡ split c s ++ (t ∷ [])
unfolding split
split_last c [] t h = ground (arith, split_one c t h)
split_last c (x ∷ s) t h = ground (arith, split_last c s t h, cons_first-append x c s (t ∷ []))

pub Lacks-append : (c : ℕ) (s t : Text) → Lacks c s → Lacks c t → Lacks c (s ++ t)
Lacks-append c [] t h k = k
Lacks-append c (x ∷ s) t h k = (h.0, Lacks-append c s t h.1 k)
