-- ===== src/Simulation/Fault/Engine.antt =====
-- simulation/fault/domain/engine.go: which rule answers a call.
pub mod Order
pub mod Choice
use payme_mock.Base.{
  Bool, true, false, not, ◌&&◌, ◌||◌, Option, none, some, List, [], ◌∷◌, if◌then◌else◌,
}
use payme_mock.Base.Int.{ℤ, pos, ltb_ℤ, eq_ℤ}
use payme_mock.Base.Text.{Text}
use payme_mock.Kernel.Effect.{Result, ok, err, Action as Call, pure, ◌>>=◌, ◌>>◌}
use payme_mock.Simulation.Fault.{Action, Rule, Request, matches, exhausted}

-- `F` is float64, with its tests `x < 1` and `x >= y`; `W` is the world behind the store and the
-- randomizer.
pub record Engine (F W : Type 0) : Type 0 where
  pub active : ℤ → W → Result (List (Rule F))
  pub consume : ℤ → Call W (Unit {0})
  pub float64 : W → F × W
  pub below_one : F → Bool
  pub at_least : F → F → Bool
  pub path_match : Text → Text → Option Bool

pub record Decision (F : Type 0) : Type 0 where
  pub rule : Option (Rule F)
  pub delay_millis : ℤ

abbrev pub is_passthrough : Action → Bool
is_passthrough Action.passthrough = true
is_passthrough _ = false

abbrev faulted_by : {F : Type 0} → Option (Rule F) → Bool
faulted_by none = false
faulted_by (some r) = not (is_passthrough r.action)

unfoldable pub faulted : {F : Type 0} → Decision F → Bool
faulted d = faulted_by d.rule

-- The `less` of `sortByPriority`.
unfoldable pub before : {F : Type 0} → Rule F → Rule F → Bool
before a b =
    if not (eq_ℤ a.priority b.priority) then ltb_ℤ a.priority b.priority else ltb_ℤ a.id b.id

module _ {F : Type 0} where
  -- A rule goes behind those that it is not before, as a stable sort puts it.
  unfoldable pub insert_rule : Rule F → List (Rule F) → List (Rule F)
  unfolding before
  insert_rule r [] = r ∷ []
  insert_rule r (x ∷ xs) = if before x r then x ∷ insert_rule r xs else r ∷ x ∷ xs

  -- `sortByPriority`, by sort.SliceStable.
  unfoldable pub sort_by_priority : List (Rule F) → List (Rule F)
  sort_by_priority [] = []
  sort_by_priority (r ∷ rs) = insert_rule r (sort_by_priority rs)

module _ {F W : Type 0} (engine : Engine F W) where
  abbrev pub decided : Rule F → Decision F
  decided r = record { rule = some r; delay_millis = r.delay_millis }

  unfoldable pub consume_if : Option ℤ → ℤ → Call W (Unit {0})
  consume_if none id = pure tt
  consume_if (some left) id = engine.consume id

  -- The rule applies: one of its uses is recorded, where they are counted.
  unfoldable pub fire : Rule F → Call W (Decision F)
  unfolding consume_if
  fire r = consume_if r.times_left r.id >> pure (decided r)

  -- `rule.Probability < 1 && e.rand.Float64() >= rule.Probability`, with the roll made in order.
  unfoldable pub loses : Rule F → W → Bool × W
  loses r w =
      if engine.below_one r.probability
      then (let (roll, w') = engine.float64 w in (engine.at_least roll r.probability, w'))
      else (false, w)

  abbrev pub nothing_fires : Decision F
  nothing_fires = record { rule = none; delay_millis = pos 0 }

  -- The loop of `Evaluate`.
  unfoldable pub choose : Request → List (Rule F) → Call W (Decision F)
  unfolding fire loses
  choose req [] = pure nothing_fires
  choose req (r ∷ rs) =
      let rest = choose req rs in
      if not (matches engine.path_match r req) || exhausted r then rest else λ w.
      let (lost, w') = loses r w in let later = rest w' in if lost then later else fire r w'

  -- `Evaluate`
  unfoldable pub evaluate : Request → Call W (Decision F)
  evaluate req w = elim (engine.active req.sandbox_id w) [
    | ok rules ↦ choose req (sort_by_priority rules) w
    | err e ↦ (err e, w)
  ]
