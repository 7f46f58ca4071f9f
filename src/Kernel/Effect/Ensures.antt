-- ===== src/Kernel/Effect/Ensures.antt =====
-- Postconditions of calls, with a rule for each way to build one.
use payme_mock.Base.{◌≡◌, refl, ap}
use payme_mock.Kernel.Effect.{Error, Result, ok, err, Action, raise, ◌>>=◌}

-- If the call returns a result from `w`, the result and the world that it leaves satisfy `Q`.
pub record Ensures {W A : Type 0} (Q : A → W → Type 0) (m : Action W A) (w : W) : Type 0 where
  pub at : (r : A) → (m w).0 ≡ ok r → Q r (m w).1

module _ {W A B : Type 0} {Q : B → W → Type 0} where
  then_at :
      (f : A → Action W B) (x : Result A × W)
      → ((a : A) → x.0 ≡ ok a → Ensures Q (f a) x.1)
      → (r : B)
      → let y : Result B × W = elim x.0 [ ok a ↦ f a x.1 | err e ↦ (err e, x.1) ] in
        y.0 ≡ ok r → Q r y.1
  then_at f (ok a, w') k r h = (k a refl).at r h
  then_at f (err e, w') k r h = cc

  pub Ensures-bind :
      (m : Action W A) (f : A → Action W B) (w : W)
      → ((a : A) → (m w).0 ≡ ok a → Ensures Q (f a) (m w).1)
      → Ensures Q (m >>= f) w
  unfolding ◌>>=◌
  Ensures-bind m f w k = record { at = then_at f (m w) k }

pub Ensures-raise :
    {W A : Type 0} {Q : A → W → Type 0} (e : Error) (w : W) → Ensures Q (raise {A = A} e) w
Ensures-raise e w = record { at = λ r h. cc }

-- A bind whose first part is known.
pub >>=-ok :
    {W A B : Type 0} (m : Action W A) (f : A → Action W B) {a : A} (w w' : W)
    → m w ≡ (ok a, w')
    → (m >>= f) w ≡ f a w'
unfolding ◌>>=◌
>>=-ok {B} m f w w' e =
    ap (λ x. let y : Result B × _ = elim x.0 [ ok a ↦ f a x.1 | err e ↦ (err e, x.1) ] in y) e

pub ok_injective : {A : Type 0} {a b : A} → ok a ≡ ok b → a ≡ b
ok_injective h = cc
