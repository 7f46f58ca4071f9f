-- ===== src/Checkout/Account.antt =====
-- The account of internal/context/payment/checkout/domain: written to a link in the order of its
-- fields, and collected again.
use payme_mock.Base.{
  ◌≡◌, refl, ◌∙◌, ap, Bool, true, false, ◌||◌, Option, none, some, List, [], ◌∷◌, if◌then◌else◌,
  arith, Bool-cases, inl, inr,
}
use payme_mock.Base.Text.{Text, eq_text, eq_text_iff}
use payme_mock.Base.Strings.{sort_texts, insert_text, text_leb}
use payme_mock.Base.Dict.{Dict, lookup, insert, lookup-insert, text_eq}
use payme_mock.Checkout.{fields_of, value_at, value_or_empty, no_account}

mem : Text → List Text → Bool
mem f [] = false
mem f (k ∷ ks) = eq_text k f || mem f ks

mem-insert_text :
    (f k : Text) (ks : List Text) → mem f (insert_text k ks) ≡ (eq_text k f || mem f ks)
unfolding mem insert_text
mem-insert_text f k [] = refl
mem-insert_text f k (u ∷ us) = ground (arith, mem-insert_text f k us)

mem-sort_texts : (f : Text) (ks : List Text) → mem f (sort_texts ks) ≡ mem f ks
unfolding mem sort_texts
mem-sort_texts f [] = refl
mem-sort_texts f (k ∷ ks) =
    mem-insert_text f k (sort_texts ks) ∙ ap (λ b. eq_text k f || b) (mem-sort_texts f ks)

-- What the fields that are written, one after the other, leave behind what was collected.
unfoldable pub inserted : List Text → Dict Text Text → Dict Text Text → Dict Text Text
inserted [] account collected = collected
inserted (f ∷ fs) account collected = inserted fs account (insert f (value_at f account) collected)

lookup-inserted :
    (f : Text) (ks : List Text) (account collected : Dict Text Text)
    → lookup f (inserted ks account collected)
      ≡ (if mem f ks then some (value_at f account) else lookup f collected)
unfolding inserted mem
lookup-inserted f [] account collected = refl
lookup-inserted f (k ∷ ks) account collected =
    lookup-inserted f ks account (insert k (value_at k account) collected)
    ∙ ground (arith, lookup-insert k f (value_at k account) collected, eq_text_iff k f)

abbrev is_some : Option Text → Bool
is_some none = false
is_some (some v) = true

mem-fields_of : (f : Text) (m : Dict Text Text) → mem f (fields_of m) ≡ is_some (lookup f m)
unfolding mem fields_of lookup
mem-fields_of f [] = refl
mem-fields_of f ((k, v) ∷ m) = ground (arith, mem-fields_of f m)

known_value : (o : Option Text) → (if is_some o then some (value_or_empty o) else none) ≡ o
known_value none = refl
known_value (some v) = refl

found_value :
    (f : Text) (m : Dict Text Text)
    → (if mem f (fields_of m) then some (value_at f m) else none) ≡ lookup f m
unfolding value_at
found_value f m = rw (mem-fields_of f m) (known_value (lookup f m))

pub lookup-collected :
    (f : Text) (account : Dict Text Text)
    → lookup f (inserted (sort_texts (fields_of account)) account []) ≡ lookup f account
unfolding lookup
lookup-collected f account =
    lookup-inserted f (sort_texts (fields_of account)) account []
    ∙ rw (mem-sort_texts f (fields_of account)) (found_value f account)

insert-Nonempty : (f v : Text) (m : Dict Text Text) → no_account (insert f v m) ≡ false
unfolding insert
insert-Nonempty f v [] = refl
insert-Nonempty f v ((k, u) ∷ m) = ground arith

inserted-Nonempty :
    (ks : List Text) (account collected : Dict Text Text)
    → no_account collected ≡ false
    → no_account (inserted ks account collected) ≡ false
unfolding inserted
inserted-Nonempty [] account collected h = h
inserted-Nonempty (k ∷ ks) account collected h =
    inserted-Nonempty ks account (insert k (value_at k account) collected)
      (insert-Nonempty k (value_at k account) collected)

insert_text-Nonempty :
    (k : Text) (ks : List Text) → (u : Text) × (us : List Text) × (insert_text k ks ≡ u ∷ us)
unfolding insert_text
insert_text-Nonempty k [] = (k, [], refl)
insert_text-Nonempty k (u ∷ us) = elim (Bool-cases (text_leb k u)) [
  | inl e ↦ (k, u ∷ us, rw e)
  | inr e ↦ (u, insert_text k us, rw e)
]

pub collected-Nonempty :
    (account : Dict Text Text)
    → no_account account ≡ false
    → no_account (inserted (sort_texts (fields_of account)) account []) ≡ false
unfolding fields_of sort_texts inserted
collected-Nonempty [] h = cc
collected-Nonempty ((k, v) ∷ m) h =
    let (u, us, e) = insert_text-Nonempty k (sort_texts (fields_of m)) in
    rw e (
      inserted-Nonempty us ((k, v) ∷ m) (insert u (value_at u ((k, v) ∷ m)) [])
        (insert-Nonempty u (value_at u ((k, v) ∷ m)) []))

-- A predicate of all fields survives their sorting.
abbrev pub AllOf : (Text → Type 0) → List Text → Type 0
AllOf P [] = Unit {0}
AllOf P (k ∷ ks) = P k × AllOf P ks

insert_text-AllOf :
    (P : Text → Type 0) (k : Text) (ks : List Text) → P k → AllOf P ks → AllOf P (insert_text k ks)
unfolding insert_text
insert_text-AllOf P k [] p h = (p, tt)
insert_text-AllOf P k (u ∷ us) p h = elim (Bool-cases (text_leb k u)) [
  | inl e ↦ rw e (p, h)
  | inr e ↦ rw e (h.0, insert_text-AllOf P k us p h.1)
]

pub sort_texts-AllOf : (P : Text → Type 0) (ks : List Text) → AllOf P ks → AllOf P (sort_texts ks)
unfolding sort_texts
sort_texts-AllOf P [] h = tt
sort_texts-AllOf P (k ∷ ks) h =
    insert_text-AllOf P k (sort_texts ks) h.0 (sort_texts-AllOf P ks h.1)
