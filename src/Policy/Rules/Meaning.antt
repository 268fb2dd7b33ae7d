-- ===== src/Policy/Rules/Meaning.antt =====
-- What each evaluator of policy/rules.py means with no deadline set, and that it reads the clock for
-- the deadline only.
mod Errors
mod Hits
pub use Hits.{collect_hits, args_meaning, eval_args_pattern_match-Means}
use Errors.{
  eval_max_amount-NotTimeout, eval_daily_limit-NotTimeout, eval_escalation_threshold-NotTimeout,
  eval_action_type_allowlist-NotTimeout, eval_action_type_denylist-NotTimeout,
  eval_url_prefix_allowlist-NotTimeout, eval_url_prefix_denylist-NotTimeout,
  eval_tool_id_allowlist-NotTimeout, eval_post_state_assertion-NotTimeout,
}
use Hits.{args_meaning-NotTimeout}
use openterms.Prelude.{
  String, List, [], ◌∷◌, Option, none, some, ◌≡◌, refl, arith, ◌==◌, Bool-cases, inl, inr,
}
use openterms.Python.{Fields, Builtins, key_error, Result, fail}
use openterms.Policy.Types.{Rule, RuleResult, EvalContext}
use openterms.Policy.Clock.{Clock, Timed, untimed}
use openterms.Policy.Clock.Meaning.{NotTimeout, Means, Means-untimed}
use openterms.Policy.Rules.Amounts.{eval_max_amount, eval_daily_limit, eval_escalation_threshold}
use openterms.Policy.Rules.Listings.{
  eval_action_type_allowlist, eval_action_type_denylist, eval_url_prefix_allowlist,
  eval_url_prefix_denylist, eval_tool_id_allowlist,
}
use openterms.Policy.Rules.PostState.{eval_post_state_assertion}
use openterms.Policy.Rules.Arguments.{eval_args_pattern_match}
use openterms.Policy.Rules.{RuleEvaluator, dispatch, find_evaluator, applied}

-- What an evaluator computes of the rule, the receipt and the aggregates alone.
abbrev pub PureEvaluator : Type 0
PureEvaluator = Rule → Fields → Fields → Result RuleResult

abbrev snapshot : Fields → EvalContext
snapshot aggregates = record { aggregates = aggregates; deadline = none; evaluated_at = none }

pub meanings : Builtins → List (String × PureEvaluator)
meanings py =
    ("max_amount", λ rule receipt aggregates. eval_max_amount py rule receipt)
    ∷ (
      "daily_limit",
      λ rule receipt aggregates. eval_daily_limit py rule receipt (snapshot aggregates),
    )
    ∷ (
      "action_type_allowlist",
      λ rule receipt aggregates. eval_action_type_allowlist py rule receipt,
    )
    ∷ ("action_type_denylist", λ rule receipt aggregates. eval_action_type_denylist py rule receipt)
    ∷ ("url_prefix_allowlist", λ rule receipt aggregates. eval_url_prefix_allowlist py rule receipt)
    ∷ ("url_prefix_denylist", λ rule receipt aggregates. eval_url_prefix_denylist py rule receipt)
    ∷ ("escalation_threshold", λ rule receipt aggregates. eval_escalation_threshold py rule receipt)
    ∷ ("tool_id_allowlist", λ rule receipt aggregates. eval_tool_id_allowlist py rule receipt)
    ∷ ("args_pattern_match", λ rule receipt aggregates. args_meaning py rule receipt)
    ∷ ("post_state_assertion", λ rule receipt aggregates. eval_post_state_assertion py rule receipt)
    ∷ []

abbrev meant : Option PureEvaluator → Rule → Fields → Fields → Result RuleResult
meant none rule receipt aggregates = fail (key_error rule.kind)
meant (some f) rule receipt aggregates = f rule receipt aggregates

-- The result of a rule as a function of the rule, the receipt and the aggregates: no clock.
pub verdict : Builtins → Fields → Fields → Rule → Result RuleResult
unfolding find_evaluator meanings
verdict py receipt aggregates rule =
    meant (find_evaluator rule.kind (meanings py)) rule receipt aggregates

abbrev IsClocked : RuleEvaluator → PureEvaluator → Type 0
IsClocked evaluator f =
    (rule : Rule) (receipt : Fields) (ctx : EvalContext)
    → Means (evaluator rule receipt) ctx (f rule receipt ctx.aggregates)
      × NotTimeout (f rule receipt ctx.aggregates)

abbrev Agree : List (String × RuleEvaluator) → List (String × PureEvaluator) → Type 0
Agree [] [] = Unit
Agree ((name, evaluator) ∷ table) ((key, f) ∷ table') =
    (name ≡ key) × IsClocked evaluator f × Agree table table'
Agree _ _ = ⊥

abbrev Related : Option RuleEvaluator → Option PureEvaluator → Type 0
Related none none = Unit
Related (some evaluator) (some f) = IsClocked evaluator f
Related _ _ = ⊥

find_evaluator-Related :
    (kind : String) (table : List (String × RuleEvaluator)) (table' : List (String × PureEvaluator))
    → Agree table table'
    → Related (find_evaluator kind table) (find_evaluator kind table')
unfolding find_evaluator
find_evaluator-Related kind [] [] a = tt
find_evaluator-Related kind [] (_ ∷ _) a = elim a [ ]
find_evaluator-Related kind (_ ∷ _) [] a = elim a [ ]
find_evaluator-Related kind ((name, evaluator) ∷ table) ((key, f) ∷ table') a =
    elim (Bool-cases (name == kind)) [
      | inl h ↦ rw (← a.0, h) a.1
      | inr h ↦ rw (← a.0, h) (find_evaluator-Related kind table table' a.2)
    ]

applied-Means :
    (rule : Rule) (receipt : Fields) (ctx : EvalContext) (o : Option RuleEvaluator)
    (o' : Option PureEvaluator)
    → Related o o'
    → Means (applied o rule receipt) ctx (meant o' rule receipt ctx.aggregates)
      × NotTimeout (meant o' rule receipt ctx.aggregates)
applied-Means rule receipt ctx none none r =
    (Means-untimed ctx (fail (key_error rule.kind)), record { is_not = λ e. ground arith })
applied-Means rule receipt ctx (some evaluator) (some f) r = r rule receipt ctx
applied-Means rule receipt ctx none (some _) r = elim r [ ]
applied-Means rule receipt ctx (some _) none r = elim r [ ]

untimed-IsClocked :
    (f : Rule → Fields → Result RuleResult)
    → ((rule : Rule) (receipt : Fields) → NotTimeout (f rule receipt))
    → IsClocked
        (λ rule receipt ctx. untimed (f rule receipt))
        (λ rule receipt aggregates. f rule receipt)
untimed-IsClocked f h rule receipt ctx = (Means-untimed ctx (f rule receipt), h rule receipt)

module _ (py : Builtins) (clock : Clock) where
  eval_daily_limit-IsClocked :
      IsClocked
        (λ rule receipt ctx. untimed (eval_daily_limit py rule receipt ctx))
        (λ rule receipt aggregates. eval_daily_limit py rule receipt (snapshot aggregates))
  unfolding eval_daily_limit
  eval_daily_limit-IsClocked rule receipt ctx = (
    record { exact = λ n. refl; approx = λ n. inl refl },
    eval_daily_limit-NotTimeout py rule receipt (snapshot ctx.aggregates),
  )

  eval_args_pattern_match-IsClocked :
      IsClocked
        (eval_args_pattern_match py clock)
        (λ rule receipt aggregates. args_meaning py rule receipt)
  eval_args_pattern_match-IsClocked rule receipt ctx = (
    eval_args_pattern_match-Means py clock receipt ctx rule,
    args_meaning-NotTimeout py receipt rule,
  )

  dispatch-Agree : Agree (dispatch py clock) (meanings py)
  unfolding dispatch meanings
  dispatch-Agree = (
    refl,
    untimed-IsClocked (eval_max_amount py) (eval_max_amount-NotTimeout py),
    (
      refl,
      eval_daily_limit-IsClocked,
      (
        refl,
        untimed-IsClocked (eval_action_type_allowlist py)
            (eval_action_type_allowlist-NotTimeout py),
        (
          refl,
          untimed-IsClocked (eval_action_type_denylist py)
              (eval_action_type_denylist-NotTimeout py),
          (
            refl,
            untimed-IsClocked (eval_url_prefix_allowlist py)
                (eval_url_prefix_allowlist-NotTimeout py),
            (
              refl,
              untimed-IsClocked (eval_url_prefix_denylist py)
                  (eval_url_prefix_denylist-NotTimeout py),
              (
                refl,
                untimed-IsClocked (eval_escalation_threshold py)
                    (eval_escalation_threshold-NotTimeout py),
                (
                  refl,
                  untimed-IsClocked (eval_tool_id_allowlist py)
                      (eval_tool_id_allowlist-NotTimeout py),
                  (
                    refl,
                    eval_args_pattern_match-IsClocked,
                    (
                      refl,
                      untimed-IsClocked (eval_post_state_assertion py)
                          (eval_post_state_assertion-NotTimeout py),
                      tt,
                    ),
                  ),
                ),
              ),
            ),
          ),
        ),
      ),
    ),
  )

  pub apply_rule-Means :
      (rule : Rule) (receipt : Fields) (ctx : EvalContext)
      → Means
          (applied (find_evaluator rule.kind (dispatch py clock)) rule receipt)
          ctx
          (verdict py receipt ctx.aggregates rule)
        × NotTimeout (verdict py receipt ctx.aggregates rule)
  unfolding verdict
  apply_rule-Means rule receipt ctx =
      applied-Means rule receipt ctx _ _
        (find_evaluator-Related rule.kind (dispatch py clock) (meanings py) dispatch-Agree)
