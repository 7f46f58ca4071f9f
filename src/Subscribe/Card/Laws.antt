-- ===== src/Subscribe/Card/Laws.antt =====
-- subscribe/domain/card.go: the checks of a card, its verification and its balance.
use payme_mock.Base.{◌≡◌, Bool, true, false, List, [], ◌∷◌, ◌⊎◌, arith, ◌≢◌}
use payme_mock.Base.Int.{ℤ, pos, ◌≤ℤ◌, ◌-ℤ◌}
use payme_mock.Base.Int64.{IsInt64, sub64, add64-sub64, wrap64_id}
use payme_mock.Base.Text.{Text, eq_text_iff, is_empty}
use payme_mock.Kernel.Errors.{err_cannot_perform}
use payme_mock.Kernel.Effect.{ok, fail}
use payme_mock.Subscribe.Outcome.{Outcome, is_verify_failed}
use payme_mock.Subscribe.Card.{
  Card, operable, usable, verify_with, verify_expired, send_verify_code, charge, refund,
  default_verify_code,
}

-- Refunding what was charged gives the card back as it was, frozen or not.
pub refund-charge :
    (amount : ℤ) (c : Card) → IsInt64 c.balance → refund amount (charge amount c) ≡ c
unfolding refund charge
refund-charge amount c h = ground (arith, add64-sub64 amount c.balance h)

-- After a code was issued to a card in working order that does not fail its verification, and while
-- less than 2^63 ms have passed, a confirmation does exactly this: with the issued code or the stand's
-- shared code, until the wait is over (in mathematical integers; a wait that is not positive never is)
-- it verifies the card and spends the code; after it, or with any other code, it is refused with -31008
-- and leaves the card alone.
pub verify_with-send :
    (code given : Text) (sent now wait : ℤ) (c : Card)
    → operable c ≡ ok tt
    → is_verify_failed c.outcome ≡ false
    → is_empty code ≡ false
    → IsInt64 (now -ℤ sent)
    → let issued = send_verify_code code sent wait c in
      (((given ≡ code) ⊎ (given ≡ default_verify_code))
        × ((wait ≤ℤ pos 0) ⊎ ((now -ℤ sent) ≤ℤ wait))
        × (verify_with given now issued ≡ (
          ok tt,
          record c {
            verify = true;
            verify_code = [];
            verify_code_sent_at = sent;
            verify_wait_millis = wait;
          },
        )))
      ⊎ (((given ≡ code) ⊎ (given ≡ default_verify_code))
          × (¬ (wait ≤ℤ pos 0))
          × (¬ ((now -ℤ sent) ≤ℤ wait))
          × (verify_with given now issued ≡ (fail err_cannot_perform, issued)))
      ⊎ ((given ≢ code)
          × (given ≢ default_verify_code)
          × (verify_with given now issued ≡ (fail err_cannot_perform, issued)))
unfolding verify_with send_verify_code verify_expired sub64
verify_with-send code given sent now wait c o v e small = ground (
  arith,
  eq_text_iff given code,
  eq_text_iff given default_verify_code,
  wrap64_id (now -ℤ sent) small,
)

-- A spent code cannot be spent again: once a confirmation has succeeded, every further one is
-- refused with -31008 whatever the code and the time, and leaves the card alone.
pub verify_with-verify_with :
    (code code' : Text) (now now' : ℤ) (c : Card)
    → (verify_with code now c).0 ≡ ok tt
    → verify_with code' now' (verify_with code now c).1
      ≡ (fail err_cannot_perform, (verify_with code now c).1)
unfolding verify_with
verify_with-verify_with code code' now now' c e = ground arith

-- What can be asked of a card's verification.
pub data Op : Type 0 where
  send : Text → ℤ → ℤ → Op
  confirm : Text → ℤ → Op

abbrev pub after : Op → Card → Card
after (Op.send code now wait) c = send_verify_code code now wait c
after (Op.confirm code now) c = (verify_with code now c).1

abbrev pub run : List Op → Card → Card
run [] c = c
run (o ∷ os) c = run os (after o c)

-- An outcome under which no confirmation succeeds.
abbrev pub refuses_verification : Outcome → Bool
refuses_verification Outcome.verify_failed = true
refuses_verification Outcome.blocked = true
refuses_verification Outcome.expired = true
refuses_verification Outcome.system_error = true
refuses_verification _ = false

after_refuses :
    (o : Op) (c : Card)
    → refuses_verification c.outcome ≡ true
    → c.verify ≡ false
    → (refuses_verification (after o c).outcome ≡ true) × ((after o c).verify ≡ false)
unfolding verify_with send_verify_code
after_refuses (Op.send code now wait) c o v = (o, v)
after_refuses (Op.confirm code now) c o v = ground arith

-- A card rigged to be blocked, expired, broken or to fail its verification is never verified and
-- never usable, whatever codes are sent to it and tried on it.
pub run_refuses :
    (os : List Op) (amount : ℤ) (c : Card)
    → refuses_verification c.outcome ≡ true
    → c.verify ≡ false
    → ((run os c).verify ≡ false) × (usable amount (run os c) ≢ ok tt)
unfolding usable
run_refuses [] amount c o v = (v, ground arith)
run_refuses (x ∷ os) amount c o v =
    let (o', v') = after_refuses x c o v in run_refuses os amount (after x c) o' v'
