-- ===== src/Policy/Engine/Spec.antt =====
-- What an evaluation promises, with no clock and no loop state: every rule has a verdict, and the
-- decision is read off the rules that fired.
use openterms.Prelude.{String, Bool, true, false, List, [], ◌∷◌, any}
use openterms.Python.{Fields, Builtins, Result, ok, ◌>>=◌}
use openterms.Policy.Types.{DecisionOutcome, allow, deny, escalate, Rule, RuleResult}
use openterms.Policy.Rules.Meaning.{verdict}

abbrev pub Verdict : Type 0
Verdict = Rule × RuleResult

-- the verdicts of the rules, in declared order, or the error of the first that has none
unfoldable pub verdicts : Builtins → Fields → Fields → List Rule → Result (List Verdict)
verdicts py receipt aggregates [] = ok []
verdicts py receipt aggregates (rule ∷ rules) = do
  result ← verdict py receipt aggregates rule
  rest ← verdicts py receipt aggregates rules
  ok ((rule, result) ∷ rest)

unfoldable pub fired_only : List Verdict → List Verdict
fired_only [] = []
fired_only ((rule, result) ∷ vs) = elim result.fired [
  | true ↦ (rule, result) ∷ fired_only vs
  | false ↦ fired_only vs
]

abbrev pub denies : DecisionOutcome → Bool
denies deny = true
denies _ = false

abbrev pub escalates : DecisionOutcome → Bool
escalates escalate = true
escalates _ = false

abbrev pub outcome_is : (DecisionOutcome → Bool) → Verdict → Bool
outcome_is test (rule, result) = test rule.outcome

-- deny beats escalate beats allow
abbrev pub outranks : Bool → Bool → DecisionOutcome
outranks true e = deny
outranks false true = escalate
outranks false false = allow

unfoldable pub decide_fired : List Verdict → DecisionOutcome
decide_fired vs = outranks (any (outcome_is denies) vs) (any (outcome_is escalates) vs)

unfoldable pub id_of : Verdict → String
id_of (rule, result) = rule.id

unfoldable pub reason_of : Verdict → String
reason_of (rule, result) = result.reason
