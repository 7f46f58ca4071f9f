-- ===== src/Subscribe/Inmem.antt =====
-- subscribe/infrastructure/inmem/inmem.go: the ports of the Subscribe API held in memory, and
-- kernel/clock's fake clock. The maps and counters of all parts are the fields of one record; a
-- stored value is a copy, so a caller's later change of its own is not seen.
pub mod Ids
pub mod Wiring
pub mod Laws
pub mod Pages
use payme_mock.Base.{
  ℕ, suc, ◌+◌, Bool, true, false, not, ◌&&◌, ◌||◌, Option, none, some, List, [], ◌∷◌, ◌++◌, reverse,
  leb, ltb, if◌then◌else◌,
}
use payme_mock.Base.Int.{ℤ, pos, leb_ℤ, ltb_ℤ, pos_part, neg_part}
use payme_mock.Base.Int64.{add64, sub64}
use payme_mock.Base.Text.{Text, text, length, take, drop, is_empty, eq_text}
use payme_mock.Base.Dict.{Dict, lookup, insert, text_eq, int_eq}
use payme_mock.Kernel.Effect.{Error, Result, ok, err, Action}
use payme_mock.Subscribe.Card.{Card}
use payme_mock.Subscribe.Receipt.{Receipt}
use payme_mock.Subscribe.Ports.{Ports, Ledger, Payout}
use payme_mock.Subscribe.Inmem.Ids.{pad}

pub record Stand : Type 0 where
  -- Cards.
  pub cards : Dict ℤ Card
  pub tokens : Dict Text ℤ
  pub next : ℤ
  -- Receipts.
  pub receipts : Dict Text Receipt
  pub order : List Text
  -- The ledger.
  pub balance : ℤ
  pub payouts : List Payout
  pub settled : Dict Text Bool
  -- The merchant's calls, the outbox, the counter of identifiers and the clock.
  pub calls : List Text
  pub sent : List (Text × Text)
  pub issued : ℕ
  pub time : ℤ

abbrev pub found : {A : Type 0} → Option A → Result A
found none = err Error.not_found
found (some a) = ok a

-- A read through a nil pointer.
abbrev pub panic : {A : Type 0} → Result A
panic = err (Error.other "nil pointer dereference")

-- `c.byID[id]` where the code does not test for a miss.
abbrev deref : {A : Type 0} → Option A → Result A
deref none = panic
deref (some a) = ok a

card_at : Option ℤ → Stand → Result Card
unfolding lookup
card_at none s = err Error.not_found
card_at (some id) s = deref (lookup id s.cards)

-- `Cards.ByToken`
unfoldable pub by_token : Text → Stand → Result Card
unfolding card_at lookup
by_token token s = card_at (lookup token s.tokens) s

-- `Cards.ByID`
unfoldable pub by_id : ℤ → Stand → Result Card
unfolding lookup
by_id id s = found (lookup id s.cards)

find_number : Text → Dict ℤ Card → Option Card
unfolding eq_text
find_number number [] = none
find_number number ((id, c) ∷ m) =
    if eq_text c.number_full number then some c else find_number number m

-- `Cards.ByNumber`: Go's order of a map is not fixed; here it is that of insertion.
unfoldable pub by_number : Text → Stand → Result Card
unfolding find_number
by_number number s = found (find_number number s.cards)

-- `Cards.Create`
unfoldable pub create_card : Card → Action Stand ℤ
unfolding insert
create_card card s =
    let id = add64 s.next (pos 1) in
    let stored = record card { id = id } in
    (
      ok id,
      record s {
        next = id;
        cards = insert id stored s.cards;
        tokens = if is_empty card.token then s.tokens else insert card.token id s.tokens;
      },
    )

update_found : Option Card → Card → Action Stand (Unit {0})
unfolding insert
update_found none card s = (err Error.not_found, s)
update_found (some old) card s = (ok tt, record s { cards = insert card.id card s.cards })

-- `Cards.Update`
unfoldable pub update_card : Card → Action Stand (Unit {0})
unfolding update_found lookup
update_card card s = update_found (lookup card.id s.cards) card s

issue_token : Option Card → ℤ → Text → Action Stand Text
unfolding insert
issue_token none id offered s = (err Error.not_found, s)
issue_token (some card) id offered s =
    let token = if is_empty card.token then offered else card.token in
    (
      ok token,
      record s {
        cards = insert id (record card { token = token }) s.cards;
        tokens = insert token id s.tokens;
      },
    )

-- `Cards.TokenFor`
unfoldable pub token_for : ℤ → Text → Action Stand Text
unfolding issue_token lookup
token_for id offered s = issue_token (lookup id s.cards) id offered s

-- `Receipts.ByReceiptID`
unfoldable pub by_receipt_id : Text → Stand → Result Receipt
unfolding lookup
by_receipt_id id s = found (lookup id s.receipts)

-- `Receipts.Create`
unfoldable pub create_receipt : Receipt → Action Stand (Unit {0})
unfolding insert
create_receipt r s = (
  ok tt,
  record s { receipts = insert r.receipt_id r s.receipts; order = s.order ++ (r.receipt_id ∷ []) },
)

replace_receipt : Option Receipt → Receipt → Action Stand (Unit {0})
unfolding insert
replace_receipt none r s = (err Error.not_found, s)
replace_receipt (some old) r s = (ok tt, record s { receipts = insert r.receipt_id r s.receipts })

-- `Receipts.Update`
unfoldable pub update_receipt : Receipt → Action Stand (Unit {0})
unfolding replace_receipt lookup
update_receipt r s = replace_receipt (lookup r.receipt_id s.receipts) r s

-- Created in the window; an end of zero or less is no end.
unfoldable pub in_window : ℤ → ℤ → Receipt → Bool
in_window from to r = not (ltb_ℤ r.create_time from || (ltb_ℤ (pos 0) to && ltb_ℤ to r.create_time))

keep_if : ℤ → ℤ → Option Receipt → List Receipt → List Receipt
unfolding in_window
keep_if from to none rest = rest
keep_if from to (some r) rest = if in_window from to r then r ∷ rest else rest

-- The loop of `Receipts.List` over the identifiers, newest first. `order` names stored receipts
-- alone, so the miss that `keep_if` passes over does not occur.
unfoldable pub matching : ℤ → ℤ → Stand → List Text → List Receipt
unfolding keep_if lookup
matching from to s [] = []
matching from to s (id ∷ ids) = keep_if from to (lookup id s.receipts) (matching from to s ids)

-- `matched[offset:]` and the cut to `count`, with Go's panic on a negative offset.
unfoldable pub page : ℤ → ℤ → List Receipt → Result (List Receipt)
page count offset matched =
    if leb_ℤ (pos (length matched)) offset
    then ok []
    else if ltb_ℤ offset (pos 0)
    then err (Error.other "slice bounds out of range")
    else let rest = drop (pos_part offset) matched in
      if ltb_ℤ (pos 0) count && ltb_ℤ count (pos (length rest))
      then ok (take (pos_part count) rest)
      else ok rest

-- `Receipts.List`
unfoldable pub list_receipts : ℤ → ℤ → ℤ → ℤ → Stand → Result (List Receipt)
unfolding matching page
list_receipts from to count offset s = page count offset (matching from to s (reverse s.order))
