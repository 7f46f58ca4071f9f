-- ===== src/Simulation/Fault/Engine/Choice.antt =====
-- The choice of simulation/fault/domain/engine.go, beside a search of the list as the store gives it.
use payme_mock.Base.{
  ◌≡◌, refl, ◌∙◌, Bool, false, not, ◌||◌, Option, none, some, List, [], ◌∷◌, if◌then◌else◌, arith,
  Bool-cases, inl, inr, ap, ◌&&◌,
}
use payme_mock.Kernel.Effect.{ok, Action as Call, pure}
use payme_mock.Base.Int.{eq_ℤ, ltb_ℤ}
use payme_mock.Simulation.Fault.{Rule, Request, matches, exhausted}
use payme_mock.Simulation.Fault.Engine.{
  Engine, Decision, before, insert_rule, sort_by_priority, fire, loses, choose, evaluate,
  nothing_fires,
}
use payme_mock.Simulation.Fault.Engine.Order.{before_asym, before_weak}

module _ {F : Type 0} where
  abbrev pub Behind : Rule F → List (Rule F) → Type 0
  Behind x [] = Unit
  Behind x (y ∷ rules) = (before y x ≡ false) × Behind x rules

  abbrev pub Sorted : List (Rule F) → Type 0
  Sorted [] = Unit
  Sorted (x ∷ rules) = Behind x rules × Sorted rules

  not_before : (y x r : Rule F) → before y x ≡ false → before x r ≡ false → before y r ≡ false
  not_before y x r h k = ground (arith, before_weak y x r)

  Behind-trans :
      (x r : Rule F) (rules : List (Rule F)) → Behind x rules → before x r ≡ false → Behind r rules
  Behind-trans x r [] h k = tt
  Behind-trans x r (y ∷ rules) h k = (not_before y x r h.0 k, Behind-trans x r rules h.1 k)

  insert_rule-Behind :
      (x r : Rule F) (rules : List (Rule F))
      → Behind x rules
      → before r x ≡ false
      → Behind x (insert_rule r rules)
  unfolding insert_rule
  insert_rule-Behind x r [] h k = (k, tt)
  insert_rule-Behind x r (y ∷ rules) h k = elim (Bool-cases (before y r)) [
    | inl e ↦ rw e (h.0, insert_rule-Behind x r rules h.1 k)
    | inr e ↦ rw e (k, h)
  ]

  insert_rule-Sorted :
      (r : Rule F) (rules : List (Rule F)) → Sorted rules → Sorted (insert_rule r rules)
  unfolding insert_rule
  insert_rule-Sorted r [] h = (tt, tt)
  insert_rule-Sorted r (x ∷ rules) h = elim (Bool-cases (before x r)) [
    | inl e ↦
        rw e (insert_rule-Behind x r rules h.0 (before_asym x r e), insert_rule-Sorted r rules h.1)
    | inr e ↦ rw e ((e, Behind-trans x r rules h.0 e), h)
  ]

  pub sort_by_priority-Sorted : (rules : List (Rule F)) → Sorted (sort_by_priority rules)
  unfolding sort_by_priority
  sort_by_priority-Sorted [] = tt
  sort_by_priority-Sorted (r ∷ rules) =
      insert_rule-Sorted r (sort_by_priority rules) (sort_by_priority-Sorted rules)

  -- A lower priority value comes first, and of equals the lower identifier.
  abbrev pub outranks : Rule F → Rule F → Bool
  outranks m r = ltb_ℤ m.priority r.priority || (eq_ℤ m.priority r.priority && ltb_ℤ m.id r.id)

  pub best : Rule F → Option (Rule F) → Rule F
  best r none = r
  best r (some m) = if outranks m r then m else r

  better : Rule F → Option (Rule F) → Rule F
  better r none = r
  better r (some m) = if before m r then m else r

  better-best : (r : Rule F) (o : Option (Rule F)) → better r o ≡ best r o
  unfolding better best before
  better-best r none = refl
  better-best r (some m) = ground arith

module _ {F W : Type 0} (engine : Engine F W) (req : Request) where
  -- The rule matches the call and has uses left.
  abbrev pub applies : Rule F → Bool
  applies r = not (not (matches engine.path_match r req) || exhausted r)

  -- Of the rules that apply, the one with the lowest priority, and then the lowest identifier.
  pub lowest : List (Rule F) → Option (Rule F)
  unfolding best
  lowest [] = none
  lowest (r ∷ rules) = let rest = lowest rules in if applies r then some (best r rest) else rest

  pub first : List (Rule F) → Option (Rule F)
  first [] = none
  first (r ∷ rules) = let rest = first rules in if applies r then some r else rest

  better-Behind :
      (x r : Rule F) (rules : List (Rule F))
      → Behind x rules
      → before x r ≡ false
      → better r (first rules) ≡ r
  unfolding better first
  better-Behind x r [] h k = refl
  better-Behind x r (y ∷ rules) h k =
      ground (arith, not_before y x r, better-Behind x r rules h.1 k)

  first-insert_rule :
      (r : Rule F) (rules : List (Rule F))
      → Sorted rules
      → first (insert_rule r rules)
        ≡ (if applies r then some (better r (first rules)) else first rules)
  unfolding insert_rule first better
  first-insert_rule r [] h = refl
  first-insert_rule r (x ∷ rules) h = elim (Bool-cases (before x r)) [
    | inl e ↦ rw e (ground (arith, first-insert_rule r rules h.1))
    | inr e ↦ rw e (ground (arith, better-Behind x r rules h.0 e))
  ]

  first-sort_by_priority : (rules : List (Rule F)) → first (sort_by_priority rules) ≡ lowest rules
  unfolding first lowest sort_by_priority
  first-sort_by_priority [] = refl
  first-sort_by_priority (r ∷ rules) =
      rw
        (
          first-insert_rule r (sort_by_priority rules) (sort_by_priority-Sorted rules),
          first-sort_by_priority rules,
        )
        (ground (arith, better-best r (lowest rules)))

  -- Certain: the rule's probability is not below one.
  abbrev pub AllCertain : List (Rule F) → Type 0
  AllCertain [] = Unit
  AllCertain (r ∷ rules) = (engine.below_one r.probability ≡ false) × AllCertain rules

  insert_rule-AllCertain :
      (r : Rule F) (rules : List (Rule F))
      → engine.below_one r.probability ≡ false
      → AllCertain rules
      → AllCertain (insert_rule r rules)
  unfolding insert_rule
  insert_rule-AllCertain r [] c h = (c, tt)
  insert_rule-AllCertain r (x ∷ rules) c h = elim (Bool-cases (before x r)) [
    | inl e ↦ rw e (h.0, insert_rule-AllCertain r rules c h.1)
    | inr e ↦ rw e (c, h)
  ]

  sort_by_priority-AllCertain :
      (rules : List (Rule F)) → AllCertain rules → AllCertain (sort_by_priority rules)
  unfolding sort_by_priority
  sort_by_priority-AllCertain [] h = tt
  sort_by_priority-AllCertain (r ∷ rules) h =
      insert_rule-AllCertain r (sort_by_priority rules) h.0 (sort_by_priority-AllCertain rules h.1)

  -- What the call meets where that rule is chosen.
  abbrev pub fire_it : Option (Rule F) → Call W (Decision F)
  fire_it none = pure (nothing_fires engine)
  fire_it (some r) = fire engine r

  choose-first :
      (rules : List (Rule F)) (w : W)
      → AllCertain rules
      → choose engine req rules w ≡ fire_it (first rules) w
  unfolding choose loses first
  choose-first [] w h = refl
  choose-first (r ∷ rules) w h = ground (arith, choose-first rules w h.1)

  -- For a call whose rules all fire with certainty, the loop over the rules sorted by priority is a
  -- single search of the store's list: the rule that answers is, of those that match the call and
  -- have uses left, the one with the lowest priority, then with the lowest identifier; its use is
  -- recorded if its uses are counted, nothing else is written, and no roll is made. No such rule,
  -- and the call goes on untouched.
  pub evaluate-lowest :
      (rules : List (Rule F)) (w : W)
      → engine.active req.sandbox_id w ≡ ok rules
      → AllCertain rules
      → evaluate engine req w ≡ fire_it (lowest rules) w
  unfolding evaluate
  evaluate-lowest rules w e h =
      rw (e, evaluate)
        (choose-first (sort_by_priority rules) w (sort_by_priority-AllCertain rules h)
          ∙ ap (λ found. fire_it found w) (first-sort_by_priority rules))
