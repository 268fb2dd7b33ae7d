-- ===== src/Policy/Rules.antt =====
-- packages/openterms-py/openterms/policy/rules.py: one evaluator for each rule type, and the table
-- that the engine dispatches on.
pub mod Params
pub mod Amounts
pub mod Listings
pub mod Entries
pub mod Arguments
pub mod PostState
pub mod Meaning
use openterms.Prelude.{String, List, [], ◌∷◌, Option, none, some, ◌==◌, if◌then◌else◌}
use openterms.Python.{Fields, Builtins, fail, key_error}
use openterms.Policy.Types.{Rule, RuleResult, EvalContext}
use openterms.Policy.Clock.{Clock, Timed, untimed}
use Amounts.{eval_max_amount, eval_daily_limit, eval_escalation_threshold}
use Listings.{eval_action_type_allowlist, eval_action_type_denylist}
use Listings.{eval_url_prefix_allowlist, eval_url_prefix_denylist, eval_tool_id_allowlist}
use PostState.{eval_post_state_assertion}
use Arguments.{eval_args_pattern_match}

abbrev pub RuleEvaluator : Type 0
RuleEvaluator = Rule → Fields → EvalContext → Timed RuleResult

-- DISPATCH
unfoldable pub dispatch : Builtins → Clock → List (String × RuleEvaluator)
dispatch py clock =
    ("max_amount", λ rule receipt ctx. untimed (eval_max_amount py rule receipt))
    ∷ ("daily_limit", λ rule receipt ctx. untimed (eval_daily_limit py rule receipt ctx))
    ∷ (
      "action_type_allowlist",
      λ rule receipt ctx. untimed (eval_action_type_allowlist py rule receipt),
    )
    ∷ (
      "action_type_denylist",
      λ rule receipt ctx. untimed (eval_action_type_denylist py rule receipt),
    )
    ∷ (
      "url_prefix_allowlist",
      λ rule receipt ctx. untimed (eval_url_prefix_allowlist py rule receipt),
    )
    ∷ (
      "url_prefix_denylist",
      λ rule receipt ctx. untimed (eval_url_prefix_denylist py rule receipt),
    )
    ∷ (
      "escalation_threshold",
      λ rule receipt ctx. untimed (eval_escalation_threshold py rule receipt),
    )
    ∷ ("tool_id_allowlist", λ rule receipt ctx. untimed (eval_tool_id_allowlist py rule receipt))
    ∷ ("args_pattern_match", eval_args_pattern_match py clock)
    ∷ (
      "post_state_assertion",
      λ rule receipt ctx. untimed (eval_post_state_assertion py rule receipt),
    )
    ∷ []

-- DISPATCH[kind]; `none` for a KeyError
unfoldable pub find_evaluator : {A : Type 0} → String → List (String × A) → Option A
find_evaluator kind [] = none
find_evaluator kind ((name, evaluator) ∷ table) =
    if name == kind then some evaluator else find_evaluator kind table

-- DISPATCH[rule.type](rule, receipt, ctx)
abbrev pub applied : Option RuleEvaluator → Rule → Fields → EvalContext → Timed RuleResult
applied none rule receipt ctx = untimed (fail (key_error rule.kind))
applied (some evaluator) rule receipt ctx = evaluator rule receipt ctx
