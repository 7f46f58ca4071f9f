-- ===== src/Base/Lengths.antt =====
-- How long the parts of a list are, where a part is all or nothing, and how parts join.
use Prim.Native.Nat.{ℕ, zero, suc, ◌+◌, ◌-◌, ◌≤◌, ◌<◌}
use mathlib.Core.Path.{◌≡◌, refl, sym, ap, ◌∙◌}
use mathlib.Core.List.{List, [], ◌∷◌, ◌++◌}
use native.Mathlib.Omega.{arith}
use mathlib.Core.Logic.{inl, inr}
use payme_mock.Base.Tests.{ltb, Bool-cases, if◌then◌else◌}
use payme_mock.Base.Text.{length, take, drop, replicate}

pub length-take {ℓ} : {A : Type ℓ} (n : ℕ) (xs : List A) → n ≤ length xs → length (take n xs) ≡ n
length-take zero xs h = refl
length-take (suc n) [] h = absurd (omega arith)
length-take (suc n) (x ∷ xs) h = ap suc (length-take n xs (omega arith))

pub length-drop {ℓ} : {A : Type ℓ} (n : ℕ) (xs : List A) → length (drop n xs) ≡ length xs - n
length-drop zero xs = omega arith
length-drop (suc n) [] = omega arith
length-drop (suc n) (x ∷ xs) = omega (arith, length-drop n xs)

pub length-replicate : (n x : ℕ) → length (replicate n x) ≡ n
length-replicate zero x = refl
length-replicate (suc n) x = ap suc (length-replicate n x)

pub take_all {ℓ} : {A : Type ℓ} (n : ℕ) (xs : List A) → length xs ≤ n → take n xs ≡ xs
take_all zero [] h = refl
take_all zero (x ∷ xs) h = absurd (omega arith)
take_all (suc n) [] h = refl
take_all (suc n) (x ∷ xs) h = ap (λ ys. x ∷ ys) (take_all n xs (omega arith))

pub drop_all {ℓ} : {A : Type ℓ} (n : ℕ) (xs : List A) → length xs ≤ n → drop n xs ≡ []
drop_all zero [] h = refl
drop_all zero (x ∷ xs) h = absurd (omega arith)
drop_all (suc n) [] h = refl
drop_all (suc n) (x ∷ xs) h = drop_all n xs (omega arith)

pub length-take_more {ℓ} :
    {A : Type ℓ} (n : ℕ) (ys : List A) → ltb n (length (take (suc n) ys)) ≡ ltb n (length ys)
length-take_more zero [] = refl
length-take_more zero (y ∷ ys) = ground arith
length-take_more (suc n) [] = refl
length-take_more (suc n) (y ∷ ys) = ground (arith, length-take_more n ys)

pub take-take_more {ℓ} : {A : Type ℓ} (n : ℕ) (ys : List A) → take n (take (suc n) ys) ≡ take n ys
take-take_more zero ys = refl
take-take_more (suc n) [] = refl
take-take_more (suc n) (y ∷ ys) = ap (λ zs. y ∷ zs) (take-take_more n ys)

drop_none {ℓ} : {A : Type ℓ} (n : ℕ) → drop {A = A} n [] ≡ []
drop_none zero = refl
drop_none (suc n) = refl

later_drop {ℓ} :
    {A : Type ℓ} (k m : ℕ) (x : A) (xs : List A) → k ≡ suc m → drop m xs ≡ drop k (x ∷ xs)
later_drop k m x xs e = rw e refl

pub drop-drop {ℓ} : {A : Type ℓ} (m n : ℕ) (xs : List A) → drop n (drop m xs) ≡ drop (n + m) xs
drop-drop zero n xs = ap (λ k. drop k xs) (omega arith)
drop-drop (suc m) n [] = drop_none n ∙ sym (drop_none (n + suc m))
drop-drop (suc m) n (x ∷ xs) = drop-drop m n xs ∙ later_drop (n + suc m) (n + m) x xs (omega arith)

take-drop_rest {ℓ} :
    {A : Type ℓ} (n : ℕ) (ys : List A)
    → take n ys ++ (if ltb n (length ys) then drop n ys else []) ≡ ys
take-drop_rest zero [] = refl
take-drop_rest zero (y ∷ ys) = ground arith
take-drop_rest (suc n) [] = ground arith
take-drop_rest (suc n) (y ∷ ys) = ground (arith, take-drop_rest n ys)

pub joined {ℓ} :
    {A : Type ℓ} (n : ℕ) (ys zs : List A)
    → (n < length ys → zs ≡ drop n ys)
    → take n ys ++ (if ltb n (length ys) then zs else []) ≡ ys
joined n ys zs rest = elim (Bool-cases (ltb n (length ys))) [
  | inl e ↦ rw (rest (ground arith)) (take-drop_rest n ys)
  | inr e ↦
      ap (λ b. take n ys ++ (if b then zs else [])) e
      ∙ sym (ap (λ b. take n ys ++ (if b then drop n ys else [])) e)
      ∙ take-drop_rest n ys
]
