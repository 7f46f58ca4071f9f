-- ===== src/Simulation/Fault/Engine/Order.antt =====
-- The order of simulation/fault/domain/engine.go: sortByPriority, and what the store's order means.
use payme_mock.Base.{◌≡◌, ◌≢◌, refl, ◌∙◌, true, false, List, [], ◌∷◌, arith, ap}
use payme_mock.Base.Int.{ℤ, eq_of_parts}
use payme_mock.Kernel.Effect.{Result, ok}
use payme_mock.Simulation.Fault.{Rule, Request}
use payme_mock.Simulation.Fault.Engine.{
  Engine, before, insert_rule, sort_by_priority, fire, loses, choose, evaluate,
}

module _ {F : Type 0} where
  -- Two lists of rules that differ by exchanges of neighbours with distinct identifiers.
  pub data Reordered : List (Rule F) → List (Rule F) → Type 0 where
    same : {rules : List (Rule F)} → Reordered rules rules
    exchange :
        {a b : Rule F} {rules : List (Rule F)}
        → a.id ≢ b.id
        → Reordered (a ∷ b ∷ rules) (b ∷ a ∷ rules)
    behind :
        {r : Rule F} {rules rules' : List (Rule F)}
        → Reordered rules rules'
        → Reordered (r ∷ rules) (r ∷ rules')
    followed :
        {rules others rest : List (Rule F)}
        → Reordered rules others
        → Reordered others rest
        → Reordered rules rest

  pub before_asym : (a b : Rule F) → before a b ≡ true → before b a ≡ false
  unfolding before
  before_asym a b h = ground arith

  pub before_total : (a b : Rule F) → a.id ≢ b.id → before a b ≡ false → before b a ≡ true
  unfolding before
  before_total a b d h = ground (arith, eq_of_parts a.id b.id)

  -- What is not before another is not before what comes after it either.
  pub before_weak : (a b c : Rule F) → before a b ≡ false → before a c ≡ true → before b c ≡ true
  unfolding before
  before_weak a b c h k = ground arith

  pub insert_rule_comm :
      (a b : Rule F) (rules : List (Rule F))
      → a.id ≢ b.id
      → insert_rule a (insert_rule b rules) ≡ insert_rule b (insert_rule a rules)
  unfolding insert_rule
  insert_rule_comm a b [] d =
      ground (arith, before_asym a b, before_asym b a, before_total a b, before_total b a)
  insert_rule_comm a b (x ∷ rules) d = ground (
    arith,
    before_asym a b,
    before_asym b a,
    before_total a b,
    before_total b a,
    before_weak x a b,
    before_weak x b a,
    insert_rule_comm a b rules d,
  )

  pub sort_by_priority-Reordered :
      {rules rules' : List (Rule F)}
      → Reordered rules rules'
      → sort_by_priority rules ≡ sort_by_priority rules'
  unfolding sort_by_priority
  sort_by_priority-Reordered same = refl
  sort_by_priority-Reordered (exchange {a} {b} {rules} d) =
      insert_rule_comm a b (sort_by_priority rules) d
  sort_by_priority-Reordered (behind {r} h) = ap (insert_rule r) (sort_by_priority-Reordered h)
  sort_by_priority-Reordered (followed h k) =
      sort_by_priority-Reordered h ∙ sort_by_priority-Reordered k

module _ {F W : Type 0} (engine : Engine F W) (active : ℤ → W → Result (List (Rule F))) where
  -- The loop does not read the store.
  pub choose_active :
      (req : Request) (rules : List (Rule F))
      → choose (record engine { active = active }) req rules ≡ choose engine req rules
  unfolding choose fire loses
  choose_active req [] = refl
  choose_active req (r ∷ rules) = rw (choose_active req rules)

  -- Which rule answers does not depend on the order in which the store lists the rules, if their
  -- identifiers differ: the engine over another store, whose list for the call's sandbox is the same
  -- one reordered, gives the same decision and leaves the same world.
  pub evaluate-Reordered :
      (req : Request) (w : W) {rules rules' : List (Rule F)}
      → engine.active req.sandbox_id w ≡ ok rules
      → active req.sandbox_id w ≡ ok rules'
      → Reordered rules rules'
      → evaluate engine req w ≡ evaluate (record engine { active = active }) req w
  unfolding evaluate
  evaluate-Reordered req w {rules} {rules'} e e' h =
      rw (e, evaluate)
        (rw (e', evaluate)
          (rw (sort_by_priority-Reordered h, choose_active req (sort_by_priority rules'))))
