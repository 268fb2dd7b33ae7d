-- ===== src/Policy/Examples.antt =====
-- Runs of the policy engine, and its theorems at concrete inputs.
use mathlib.Core.List.{Permᴰ}
use openterms.Prelude.{
  ◌+◌, Bool, String, ◌≡◌, refl, List, [], ◌∷◌, none, some, false, true, arith, ◌≤◌, ◌↔◌,
}
use openterms.Prelude.Int.{pos}
use openterms.Python.{Value, int, str, Fields, end, field, Builtins, ok, codes}
use openterms.Policy.Types.{deny, escalate, Rule, Policy, EvalContext, Decision}
use openterms.Policy.Clock.{Clock, check_deadline}
use openterms.Policy.Clock.Meaning.{without_deadline}
use openterms.Policy.Pattern.{glob_match, glob_run, start, glob_loop}
use openterms.Policy.Pattern.Matches.{Matches}
use openterms.Policy.Pattern.GlobLoop.{glob_match_iff}
use openterms.Policy.Pattern.Backtracking.{star_as_b, letters, glob_loop-quadratic}
use openterms.Policy.Rules.{dispatch, find_evaluator}
use openterms.Policy.Rules.Params.{require_int, amount_of}
use openterms.Policy.Rules.Amounts.{eval_max_amount, eval_escalation_threshold}
use openterms.Policy.Engine.{
  precedence, evaluate_policy, run_rules, run_rule, apply_rule, record_result, final_outcome,
  evaluated_at_of,
}
use openterms.Policy.Engine.Refines.{specified, evaluate_policy-specified}
use openterms.Policy.Engine.Deadline.{Outcome, evaluate_policy-or-timeout}
use openterms.Policy.Engine.Order.{
  evaluate_policy-reorder, evaluate_policy-monotone, evaluate_policy-fail_safe,
}

-- renderings of a few values, enough to run the examples
abbrev some_str : Value → String
some_str (str s) = s
some_str _ = "…"

abbrev plain : Builtins
plain = record {
  str_of = some_str;
  repr_of = some_str;
  type_name = some_str;
  sorted_of = ok;
  equals = λ v w. false;
}

abbrev ticking : Clock
ticking n = n

abbrev max_100 : Rule
max_100 = record {
  id = "max";
  kind = "max_amount";
  outcome = deny;
  parameters = field "threshold" (int (pos 100)) end;
}

abbrev escalate_50 : Rule
escalate_50 = record {
  id = "esc";
  kind = "escalation_threshold";
  outcome = escalate;
  parameters = field "threshold" (int (pos 50)) end;
}

abbrev receipt_120 : Fields
receipt_120 = field "amount_charged" (int (pos 120)) (field "created_at" (str "2026-01-01") end)

abbrev policy_of : List Rule → Policy
policy_of rules = record { version = "v1"; rules = rules }

abbrev no_deadline : EvalContext
no_deadline = record { aggregates = end; deadline = none; evaluated_at = none }

abbrev due_at_0 : EvalContext
due_at_0 = record { aggregates = end; deadline = some 0; evaluated_at = none }

abbrev d_both : Decision
d_both = record {
  decision = deny;
  triggered_rules = "esc" ∷ "max" ∷ [];
  reasons =
      "ESCALATION_THRESHOLD: amount_charged … meets escalation threshold …"
      ∷ "MAX_AMOUNT: amount_charged … exceeds threshold …" ∷ [];
  policy_version = "v1";
  evaluated_at = "2026-01-01";
}

runs_both :
    (evaluate_policy plain ticking receipt_120
      (policy_of (escalate_50 ∷ max_100 ∷ []))
      no_deadline
      0).0
    ≡ ok d_both
unfolding evaluate_policy run_rules run_rule apply_rule check_deadline dispatch find_evaluator
    eval_max_amount eval_escalation_threshold require_int amount_of record_result final_outcome
    evaluated_at_of
runs_both = refl

abbrev d_max : Decision
d_max = record {
  decision = deny;
  triggered_rules = "max" ∷ [];
  reasons = "MAX_AMOUNT: amount_charged … exceeds threshold …" ∷ [];
  policy_version = "v1";
  evaluated_at = "2026-01-01";
}

runs_max :
    (evaluate_policy plain ticking receipt_120 (policy_of (max_100 ∷ [])) no_deadline 0).0
    ≡ ok d_max
unfolding evaluate_policy run_rules run_rule apply_rule check_deadline dispatch find_evaluator
    eval_max_amount require_int amount_of record_result final_outcome evaluated_at_of
runs_max = refl

abbrev d_late : Decision
d_late = record {
  decision = deny;
  triggered_rules = "esc" ∷ [];
  reasons =
      "ESCALATION_THRESHOLD: amount_charged … meets escalation threshold …"
      ∷ "TIMEOUT: rule evaluation exceeded the per-evaluation budget" ∷ [];
  policy_version = "v1";
  evaluated_at = "2026-01-01";
}

-- the first reading is in time, the second is late
runs_late :
    (evaluate_policy plain ticking receipt_120
      (policy_of (escalate_50 ∷ max_100 ∷ []))
      due_at_0
      0).0
    ≡ ok d_late
unfolding evaluate_policy run_rules run_rule apply_rule check_deadline dispatch find_evaluator
    eval_max_amount eval_escalation_threshold require_int amount_of record_result final_outcome
    evaluated_at_of
runs_late = refl

evaluate_policy-specified_example :
    (evaluate_policy plain ticking receipt_120
      (policy_of (escalate_50 ∷ max_100 ∷ []))
      (without_deadline due_at_0)
      3).0
    ≡ specified plain ticking receipt_120 due_at_0 (policy_of (escalate_50 ∷ max_100 ∷ []))
evaluate_policy-specified_example =
    evaluate_policy-specified plain ticking receipt_120 due_at_0
      (policy_of (escalate_50 ∷ max_100 ∷ [])) 3

evaluate_policy-or-timeout_example :
    Outcome plain ticking receipt_120 due_at_0
      (policy_of (escalate_50 ∷ max_100 ∷ []))
      (evaluate_policy plain ticking receipt_120
        (policy_of (escalate_50 ∷ max_100 ∷ []))
        due_at_0
        0).0
evaluate_policy-or-timeout_example =
    evaluate_policy-or-timeout plain ticking receipt_120 due_at_0
      (policy_of (escalate_50 ∷ max_100 ∷ [])) 0

evaluate_policy-fail_safe_example : precedence deny ≤ precedence deny
evaluate_policy-fail_safe_example =
    evaluate_policy-fail_safe plain ticking receipt_120 due_at_0
      (policy_of (escalate_50 ∷ max_100 ∷ [])) 0 d_late d_both runs_late runs_both

evaluate_policy-monotone_example : precedence deny ≤ precedence deny
evaluate_policy-monotone_example =
    evaluate_policy-monotone plain ticking receipt_120 no_deadline (policy_of (max_100 ∷ []))
      (policy_of (escalate_50 ∷ max_100 ∷ [])) [] (escalate_50 ∷ []) (max_100 ∷ []) d_max d_both
      refl refl runs_max runs_both

evaluate_policy-reorder_example :
    (d' : Decision) × ((evaluate_policy plain ticking receipt_120
        (policy_of (max_100 ∷ escalate_50 ∷ []))
        no_deadline
        0).0
      ≡ ok d')
    × (d'.decision ≡ deny)
evaluate_policy-reorder_example =
    evaluate_policy-reorder plain ticking receipt_120 no_deadline
      (policy_of (escalate_50 ∷ max_100 ∷ [])) (policy_of (max_100 ∷ escalate_50 ∷ [])) d_both
      (Permᴰ.swap refl refl) runs_both

glob_match_iff_example :
    (answer : Bool) × (glob_run (codes "a*c") (codes "abcc") ≡ some answer)
    × (glob_match "a*c" "abcc" ≡ answer)
    × ((answer ≡ true) ↔ Matches (codes "a*c") (codes "abcc"))
glob_match_iff_example = glob_match_iff "a*c" "abcc"

glob_runs : (glob_match "*.t?t" "a.tt.txt" ≡ true) × (glob_match "ab?" "ab" ≡ false)
unfolding glob_match
glob_runs = (refl, refl)

glob_loop-quadratic_example : glob_loop 12 (star_as_b 3) (letters (3 + 3)) start ≡ none
glob_loop-quadratic_example = glob_loop-quadratic 3 2 12 (omega arith)
