-- ===== src/Policy/Engine/Refines.antt =====
-- `evaluate_policy` with no deadline is the specification, on every branch.
use openterms.Prelude.{
  ℕ, ◌||◌, List, [], ◌∷◌, map, any, ◌≡◌, refl, ◌≢◌, inl, inr, arith, ltb, if◌then◌else◌,
}
use openterms.Python.{
  Fields, Builtins, Error, policy_timeout, value_error, Result, ok, fail, ◌>>=◌, Result-cases,
}
use openterms.Policy.Types.{DecisionOutcome, allow, deny, escalate, Policy, EvalContext, Decision}
use openterms.Policy.Clock.{Clock}
use openterms.Policy.Clock.Meaning.{without_deadline}
use openterms.Policy.Engine.{
  precedence, max_outcome, final_outcome, conclude, evaluate_policy, evaluated_at_of, Trail,
  no_trail,
}
use openterms.Policy.Engine.Spec.{
  Verdict, verdicts, fired_only, denies, escalates, outcome_is, decide_fired, id_of, reason_of,
  outranks,
}
use openterms.Policy.Engine.Untimed.{outcome_of, run_rules-ok, run_rules-fail}

max_outcome-outranks :
    (best : DecisionOutcome) (ws : List Verdict)
    → max_outcome best (map outcome_of ws)
      ≡ outranks
          (denies best || any (outcome_is denies) ws)
          (escalates best || any (outcome_is escalates) ws)
unfolding max_outcome
max_outcome-outranks allow [] = refl
max_outcome-outranks deny [] = refl
max_outcome-outranks escalate [] = refl
max_outcome-outranks best ((rule, result) ∷ ws) = ground (
  arith,
  max_outcome-outranks
      (if ltb (precedence best) (precedence rule.outcome) then rule.outcome else best) ws,
)

pub final_outcome-outranks :
    (ws : List Verdict) → final_outcome (map outcome_of ws) ≡ decide_fired ws
unfolding final_outcome decide_fired
final_outcome-outranks [] = refl
final_outcome-outranks ((rule, result) ∷ ws) = ground (arith, max_outcome-outranks rule.outcome ws)

pub conclude-fail :
    (pol : Policy) (receipt : Fields) (ctx : EvalContext) (e : Error) (trail : Trail)
    → e ≢ policy_timeout
    → conclude pol receipt ctx (fail e) trail ≡ fail e
unfolding conclude
conclude-fail pol receipt ctx policy_timeout trail h = absurd (h refl)
conclude-fail pol receipt ctx (value_error m) trail h = refl
conclude-fail pol receipt ctx _ trail h = refl

module _ (py : Builtins) (clock : Clock) (receipt : Fields) (ctx : EvalContext) (pol : Policy) where
  -- the decision that the verdicts of the policy's rules call for
  abbrev pub decision_on : List Verdict → Decision
  decision_on vs = record {
    decision = decide_fired (fired_only vs);
    triggered_rules = map id_of (fired_only vs);
    reasons = map reason_of (fired_only vs);
    policy_version = pol.version;
    evaluated_at = evaluated_at_of receipt ctx;
  }

  unfoldable pub specified : Result Decision
  specified = do vs ← verdicts py receipt ctx.aggregates pol.rules; ok (decision_on vs)

  -- With no deadline, and from any state of the clock, `evaluate_policy` returns exactly what the
  -- specification says: the error of the first rule that raises, or the decision in which deny beats
  -- escalate beats allow among the rules that fired, with the ids and the reasons of all of these in
  -- declared order.
  pub evaluate_policy-specified :
      (n : ℕ) → (evaluate_policy py clock receipt pol (without_deadline ctx) n).0 ≡ specified
  unfolding evaluate_policy specified evaluated_at_of fired_only
  evaluate_policy-specified n = elim (Result-cases (verdicts py receipt ctx.aggregates pol.rules)) [
    | inl (vs, h) ↦
        rw (h, run_rules-ok py clock receipt ctx pol.rules vs no_trail n h, final_outcome-outranks)
    | inr (e, h) ↦
        let (stops, other) = run_rules-fail py clock receipt ctx pol.rules no_trail n e h in
        rw (h, stops) (conclude-fail pol receipt (without_deadline ctx) e _ other)
  ]
