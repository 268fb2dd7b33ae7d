-- ===== src/Policy/Engine.antt =====
-- packages/openterms-py/openterms/policy/engine.py: the evaluation of a policy on a receipt.
pub mod Spec
pub mod Untimed
pub mod Refines
pub mod Deadline
pub mod Order
use openterms.Prelude.{
  ℕ, zero, suc, ◌+◌, ◌≤◌, String, Bool, List, [], ◌∷◌, ◌++◌, Option, none, some, leb, ltb,
  if◌then◌else◌, ◌==◌,
}
use openterms.Prelude.Int.{ℤ, pos, negsuc}
use openterms.Python.{
  Value, null, str, dict, Fields, end, Builtins, Error, type_error, key_error, policy_timeout,
  Result, ok, fail, get_or, as_text,
}
use openterms.Policy.Types.{
  DecisionOutcome, allow, deny, escalate, Rule, Policy, RuleResult, EvalContext, Decision,
  policy_from_dict,
}
use openterms.Policy.Clock.{Clock, Timed, ◌>>=◌, ◌>>◌, untimed, check_deadline}
use openterms.Policy.Rules.{dispatch, find_evaluator, applied}

-- `_PRECEDENCE`
abbrev pub precedence : DecisionOutcome → ℕ
precedence allow = 0
precedence escalate = 1
precedence deny = 2

-- A `Policy`, or the JSON value that stands for one.
pub data PolicyInput : Type 0 where
  ready : Policy → PolicyInput
  raw : Value → PolicyInput

-- `_coerce_policy`
unfoldable pub coerce_policy : Builtins → PolicyInput → Result Policy
coerce_policy py (ready pol) = ok pol
coerce_policy py (raw (dict d)) = policy_from_dict py d
coerce_policy py (raw _) = fail type_error

-- isinstance(val, str) and val
unfoldable pub non_empty_text : Value → Option String
non_empty_text (str s) = if s == "" then none else some s
non_empty_text _ = none

-- `_evaluated_at`
unfoldable pub evaluated_at_of : Fields → EvalContext → String
unfolding get_or non_empty_text
evaluated_at_of receipt ctx = elim ctx.evaluated_at [
  | some t ↦ t
  | none ↦ elim (non_empty_text (get_or receipt "created_at" null)) [
    | some t ↦ t
    | none ↦ elim (non_empty_text (get_or receipt "timestamp" null)) [
      | some t ↦ t
      | none ↦ "1970-01-01T00:00:00Z"
    ]
  ]
]

-- `_apply_rule`; DISPATCH[rule.type] raises KeyError for a type that is not in the table
unfoldable pub apply_rule : Builtins → Clock → Rule → Fields → EvalContext → Timed RuleResult
unfolding find_evaluator dispatch
apply_rule py clock rule receipt ctx =
    applied (find_evaluator rule.kind (dispatch py clock)) rule receipt ctx

-- The lists that the loop of `evaluate_with_context` appends to.
pub record Trail : Type 0 where
  pub triggered : List String
  pub reasons : List String
  pub fired_outcomes : List DecisionOutcome

abbrev pub no_trail : Trail
no_trail = record { triggered = []; reasons = []; fired_outcomes = [] }

-- if result.fired: …
unfoldable pub record_result : Rule → RuleResult → Trail → Trail
record_result rule result trail =
    if result.fired
    then record {
      triggered = trail.triggered ++ rule.id ∷ [];
      reasons = trail.reasons ++ result.reason ∷ [];
      fired_outcomes = trail.fired_outcomes ++ rule.outcome ∷ [];
    }
    else trail

-- the body of the loop up to the result
unfoldable pub run_rule : Builtins → Clock → Rule → Fields → EvalContext → Timed RuleResult
run_rule py clock rule receipt ctx = do
  check_deadline clock ctx
  apply_rule py clock rule receipt ctx

abbrev pub LoopEnd : Type 0
LoopEnd = Result (Unit {0}) × Trail × ℕ

-- What an exception or a result of the body does to the loop, whose next round is `next`. What was
-- appended before a rule raised stays appended.
abbrev pub stepped : (Trail → ℕ → LoopEnd) → Rule → Trail → Result RuleResult × ℕ → LoopEnd
stepped next rule trail (fail e, n) = (fail e, trail, n)
stepped next rule trail (ok result, n) = next (record_result rule result trail) n

-- The `try` block.
unfoldable pub run_rules : Builtins → Clock → List Rule → Fields → EvalContext → Trail → ℕ → LoopEnd
run_rules py clock [] receipt ctx trail n = (ok tt, trail, n)
run_rules py clock (rule ∷ rules) receipt ctx trail n =
    stepped (run_rules py clock rules receipt ctx) rule trail (run_rule py clock rule receipt ctx n)

-- max(fired_outcomes, key=…): the first of the greatest, or `allow` if none fired
unfoldable pub max_outcome : DecisionOutcome → List DecisionOutcome → DecisionOutcome
max_outcome best [] = best
max_outcome best (o ∷ os) =
    max_outcome (if ltb (precedence best) (precedence o) then o else best) os

unfoldable pub final_outcome : List DecisionOutcome → DecisionOutcome
unfolding max_outcome
final_outcome [] = allow
final_outcome (o ∷ os) = max_outcome o os

abbrev pub timeout_reason : String
timeout_reason = "TIMEOUT: rule evaluation exceeded the per-evaluation budget"

-- The handler of PolicyTimeout, and the code behind the `try` block.
unfoldable pub conclude :
    Policy → Fields → EvalContext → Result (Unit {0}) → Trail → Result Decision
conclude pol receipt ctx (fail policy_timeout) trail = ok (record {
  decision = deny;
  triggered_rules = trail.triggered;
  reasons = trail.reasons ++ timeout_reason ∷ [];
  policy_version = pol.version;
  evaluated_at = evaluated_at_of receipt ctx;
})
conclude pol receipt ctx (ok _) trail = ok (record {
  decision = final_outcome trail.fired_outcomes;
  triggered_rules = trail.triggered;
  reasons = trail.reasons;
  policy_version = pol.version;
  evaluated_at = evaluated_at_of receipt ctx;
})
conclude pol receipt ctx (fail e) trail = fail e

unfoldable pub evaluate_policy : Builtins → Clock → Fields → Policy → EvalContext → Timed Decision
unfolding conclude
evaluate_policy py clock receipt pol ctx n =
    let (r, trail, n') = run_rules py clock pol.rules receipt ctx no_trail n in
    (conclude pol receipt ctx r trail, n')

unfoldable pub evaluate_with_context :
    Builtins → Clock → Fields → PolicyInput → EvalContext → Timed Decision
unfolding coerce_policy
evaluate_with_context py clock receipt policy ctx = do
  pol ← untimed (coerce_policy py policy)
  evaluate_policy py clock receipt pol ctx

-- budget_seconds, in ticks
abbrev pub deadline_of : Clock → ℤ → ℕ → Option ℕ × ℕ
deadline_of clock (pos (suc budget)) n = (some (clock n + suc budget), suc n)
deadline_of clock (pos zero) n = (none, n)
deadline_of clock (negsuc _) n = (none, n)

-- aggregates or {}
abbrev pub or_empty : Option Fields → Fields
or_empty none = end
or_empty (some d) = d

unfoldable pub evaluate :
    Builtins → Clock → Fields → PolicyInput → Option Fields → ℤ → Option String → Timed Decision
unfolding evaluate_with_context
evaluate py clock receipt policy aggregates budget evaluated_at n =
    let (deadline, n') = deadline_of clock budget n in
    evaluate_with_context py clock receipt policy
      (record {
        aggregates = or_empty aggregates;
        deadline = deadline;
        evaluated_at = evaluated_at;
      })
      n'
