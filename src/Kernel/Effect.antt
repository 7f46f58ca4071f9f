-- ===== src/Kernel/Effect.antt =====
-- The errors of Go as values, and the effects of a call: a port may fail, and what was written
-- before a failure stays written, so the state comes back beside the error too.
pub mod Ensures
use payme_mock.Base.{String, Bool, true, false}
use payme_mock.Kernel.Errors.{ProtocolError}

-- The error values that the program tells apart. `not_found` and `duplicate` are the sentinels of
-- the repositories; `other` is any other error, such as a lost database.
pub data Error : Type 0 where
  protocol : ProtocolError → Error
  not_found duplicate : Error
  other : String → Error

pub data Result (A : Type 0) : Type 0 where
  ok : A → Result A
  err : Error → Result A

-- `errors.Is(err, ErrNotFound)`
abbrev pub is_not_found : Error → Bool
is_not_found not_found = true
is_not_found (protocol e) = false
is_not_found duplicate = false
is_not_found (other s) = false

abbrev pub is_ok : {A : Type 0} → Result A → Bool
is_ok (ok a) = true
is_ok (err e) = false

-- `return payerr.Err...`
abbrev pub fail : {A : Type 0} → ProtocolError → Result A
fail e = err (protocol e)

abbrev pub Action : Type 0 → Type 0 → Type 0
Action W A = W → Result A × W

module _ {W A : Type 0} where
  abbrev pub pure : A → Action W A
  pure a w = (ok a, w)

  abbrev pub raise : Error → Action W A
  raise e w = (err e, w)

  abbrev pub refuse : ProtocolError → Action W A
  refuse e w = (fail e, w)

  abbrev pub lift : Result A → Action W A
  lift r w = (r, w)

  abbrev pub read : (W → Result A) → Action W A
  read f w = (f w, w)

infixl 5 ◌>>=◌ ◌>>◌
unfoldable pub ◌>>=◌ : {W A B : Type 0} → Action W A → (A → Action W B) → Action W B
◌>>=◌ m f w = let (r, w') = m w in elim r [ ok a ↦ f a w' | err e ↦ (err e, w') ]

abbrev pub ◌>>◌ : {W A B : Type 0} → Action W A → Action W B → Action W B
m >> k = m >>= λ _. k

abbrev pub when : {W : Type 0} → Bool → Action W (Unit {0}) → Action W (Unit {0})
when true m = m
when false m = pure tt

-- `_ = port(...)`: the error is dropped, what the port did stays.
abbrev pub ignore : {W A : Type 0} → Action W A → Action W (Unit {0})
ignore m w = let (r, w') = m w in (ok tt, w')
