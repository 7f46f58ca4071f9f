-- ===== src/Tests/Faults.antt =====
-- Three fault rules over a store that counts the uses it recorded.
use payme_mock.Base.{ℕ, ◌≡◌, refl, ◌+◌, true, false, none, some, List, [], ◌∷◌, arith}
use payme_mock.Base.Int.{pos}
use payme_mock.Base.Text.{text, eq_text}
use payme_mock.Kernel.Errors.{err_cannot_perform}
use payme_mock.Kernel.Effect.{ok, ◌>>=◌}
use payme_mock.Simulation.Fault.{Action, Rule, Request, service_any, matches, exhausted}
use payme_mock.Simulation.Fault.Engine.{
  Engine, evaluate, choose, sort_by_priority, insert_rule, decided, fire, loses,
}
use payme_mock.Simulation.Fault.Engine.Order.{
  Reordered, exchange, behind, followed, evaluate-Reordered,
}
use payme_mock.Simulation.Fault.Engine.Choice.{lowest, evaluate-lowest, fire_it}

-- Probabilities in percent.
abbrev slow : Rule ℕ
slow = record {
  id = pos 1;
  name = [];
  enabled = true;
  priority = pos 10;
  config_id = pos 1;
  sandbox_id = none;
  service = service_any;
  method = [];
  match_account = [];
  match_payme_id = [];
  amount_min = none;
  amount_max = none;
  action = Action.delay;
  delay_millis = pos 50;
  error_code = pos 0;
  error_message = err_cannot_perform.message;
  error_data = [];
  http_status = pos 0;
  probability = 100;
  times_left = none;
  hit_count = pos 0;
  note = [];
}

abbrev once : Rule ℕ
once = record slow { id = pos 2; priority = pos 5; action = Action.drop; times_left = some (pos 1) }

abbrev for_others : Rule ℕ
for_others = record slow { id = pos 3; priority = pos 1; service = text "merchant" }

abbrev stored : List (Rule ℕ)
stored = slow ∷ once ∷ for_others ∷ []

abbrev turned : List (Rule ℕ)
turned = once ∷ for_others ∷ slow ∷ []

abbrev engine : Engine ℕ ℕ
engine = record {
  active = λ id w. ok stored;
  consume = λ id w. (ok tt, w + 1);
  float64 = λ w. (50, w);
  below_one = λ p. false;
  at_least = λ roll p. false;
  path_match = λ pattern value. some (eq_text pattern value);
}

abbrev call : Request
call = record {
  service = text "subscribe";
  method = text "cards.create";
  sandbox_id = pos 1;
  account = [];
  payme_id = [];
  amount = pos 0;
}

-- The second rule fires, and its use is recorded.
fired : evaluate engine call 0 ≡ (ok (decided engine once), 1)
unfolding evaluate choose sort_by_priority fire loses matches insert_rule exhausted ◌>>=◌
fired = refl

slow_first : Reordered stored turned
slow_first =
    followed (exchange (λ e. ground (arith, e))) (behind (exchange (λ e. ground (arith, e))))

evaluate-Reordered_example :
    evaluate engine call 0 ≡ evaluate (record engine { active = λ id w. ok turned }) call 0
evaluate-Reordered_example =
    evaluate-Reordered engine (λ id w. ok turned) call 0 refl refl slow_first

evaluate-lowest_example : evaluate engine call 0 ≡ fire_it engine call (lowest engine call stored) 0
evaluate-lowest_example = evaluate-lowest engine call stored 0 refl (refl, (refl, (refl, tt)))
