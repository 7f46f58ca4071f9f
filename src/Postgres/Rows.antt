-- ===== src/Postgres/Rows.antt =====
-- What a query finds in a table, after a statement that wrote to it.
use payme_mock.Base.{
  ◌≡◌, refl, Bool, true, false, Option, none, some, List, [], ◌∷◌, ◌++◌, arith, if◌then◌else◌,
  Bool-cases, inl, inr,
}
use payme_mock.Postgres.{first_row, update_rows}
use payme_mock.Postgres.Mock.{any_row}

module _ {A : Type 0} where
  abbrev pub mapped : (A → A) → Option A → Option A
  mapped f none = none
  mapped f (some x) = some (f x)

  abbrev pub or_else : Option A → Option A → Option A
  or_else none o = o
  or_else (some x) o = some x

  pub first_row_holds :
      (p : A → Bool) (rows : List A) (x : A) → first_row p rows ≡ some x → p x ≡ true
  unfolding first_row
  first_row_holds p [] x h = cc
  first_row_holds p (y ∷ ys) x h = ground (arith, first_row_holds p ys x)

  pub first_row-append :
      (p : A → Bool) (rows others : List A)
      → first_row p (rows ++ others) ≡ or_else (first_row p rows) (first_row p others)
  unfolding first_row
  first_row-append p [] others = refl
  first_row-append p (y ∷ ys) others = ground (arith, first_row-append p ys others)

  pub first_row-any_row :
      (p : A → Bool) (rows : List A) → any_row p rows ≡ false → first_row p rows ≡ none
  unfolding first_row any_row
  first_row-any_row p [] h = refl
  first_row-any_row p (y ∷ ys) h = ground (arith, first_row-any_row p ys)

  -- A query that asks after an update for what another one asks before finds its row, updated.
  pub first_row-update_rows :
      (p p' q : A → Bool) (f : A → A) (rows : List A)
      → ((x : A) → p' (if q x then f x else x) ≡ p x)
      → first_row p' (update_rows q f rows)
        ≡ mapped (λ x. if q x then f x else x) (first_row p rows)
  unfolding first_row update_rows
  first_row-update_rows p p' q f [] h = refl
  first_row-update_rows p p' q f (x ∷ xs) h = elim (Bool-cases (p x)) [
    | inl e ↦ rw (h x, e) refl
    | inr e ↦ rw (h x, e) (first_row-update_rows p p' q f xs h)
  ]
