-- ===== src/Policy/Rules/Meaning/Errors.antt =====
-- No evaluator raises PolicyTimeout by itself.
use openterms.Prelude.{String, Bool, List, arith}
use openterms.Python.{Value, Fields, Builtins, ensure}
use openterms.Policy.Types.{Rule, EvalContext}
use openterms.Policy.Clock.Meaning.{NotTimeout, NotTimeout-ok, NotTimeout-bind}
use openterms.Policy.Rules.Params.{int_or, require_int, require_list, amount_of, rule_error}
use openterms.Policy.Rules.Amounts.{eval_max_amount, eval_daily_limit, eval_escalation_threshold}
use openterms.Policy.Rules.Listings.{
  eval_action_type_allowlist, eval_action_type_denylist, eval_url_prefix_allowlist, url_source,
  eval_url_prefix_denylist, eval_tool_id_allowlist,
}
use openterms.Policy.Rules.PostState.{eval_post_state_assertion, text_or_none, text_or_fail}

module _ (py : Builtins) where
  pub ensure_rule-NotTimeout :
      (b : Bool) (rule_id : String) (parts : List String)
      → NotTimeout (ensure b (rule_error py rule_id parts))
  unfolding rule_error
  ensure_rule-NotTimeout b rule_id parts = record { is_not = λ e. ground arith }

  int_or_rule-NotTimeout :
      (v : Value) (rule_id : String) (parts : List String)
      → NotTimeout (int_or (rule_error py rule_id parts) v)
  unfolding rule_error int_or
  int_or_rule-NotTimeout v rule_id parts = record { is_not = λ e. ground arith }

  require_int-NotTimeout :
      (params : Fields) (key rule_id : String) → NotTimeout (require_int py params key rule_id)
  unfolding require_int
  require_int-NotTimeout params key rule_id = record { is_not = λ e. ground arith }

  amount_of-NotTimeout :
      (receipt : Fields) (rule_id : String) → NotTimeout (amount_of py receipt rule_id)
  unfolding amount_of
  amount_of-NotTimeout receipt rule_id = record { is_not = λ e. ground arith }

  require_list-NotTimeout :
      (params : Fields) (key rule_id : String) → NotTimeout (require_list py params key rule_id)
  unfolding require_list
  require_list-NotTimeout params key rule_id = record { is_not = λ e. ground arith }

  url_source-NotTimeout : (rule : Rule) (receipt : Fields) → NotTimeout (url_source py rule receipt)
  unfolding url_source
  url_source-NotTimeout rule receipt = record { is_not = λ e. ground arith }

  module _ (rule : Rule) (receipt : Fields) where
    pub eval_max_amount-NotTimeout : NotTimeout (eval_max_amount py rule receipt)
    unfolding eval_max_amount
    eval_max_amount-NotTimeout =
        NotTimeout-bind _ _ (require_int-NotTimeout rule.parameters "threshold" rule.id)
          λ t. NotTimeout-bind _ _ (amount_of-NotTimeout receipt rule.id) λ a. NotTimeout-ok _

    pub eval_escalation_threshold-NotTimeout :
        NotTimeout (eval_escalation_threshold py rule receipt)
    unfolding eval_escalation_threshold
    eval_escalation_threshold-NotTimeout =
        NotTimeout-bind _ _ (require_int-NotTimeout rule.parameters "threshold" rule.id)
          λ t. NotTimeout-bind _ _ (amount_of-NotTimeout receipt rule.id) λ a. NotTimeout-ok _

    pub eval_daily_limit-NotTimeout :
        (ctx : EvalContext) → NotTimeout (eval_daily_limit py rule receipt ctx)
    unfolding eval_daily_limit
    eval_daily_limit-NotTimeout ctx =
        NotTimeout-bind _ _ (require_int-NotTimeout rule.parameters "threshold" rule.id) λ t.
          NotTimeout-bind _ _ (ensure_rule-NotTimeout _ rule.id _) λ g.
            NotTimeout-bind _ _ (int_or_rule-NotTimeout _ rule.id _)
              λ p. NotTimeout-bind _ _ (amount_of-NotTimeout receipt rule.id) λ a. NotTimeout-ok _

    pub eval_action_type_allowlist-NotTimeout :
        NotTimeout (eval_action_type_allowlist py rule receipt)
    unfolding eval_action_type_allowlist
    eval_action_type_allowlist-NotTimeout =
        NotTimeout-bind _ _ (require_list-NotTimeout rule.parameters "allowed" rule.id)
          λ a. NotTimeout-ok _

    pub eval_action_type_denylist-NotTimeout :
        NotTimeout (eval_action_type_denylist py rule receipt)
    unfolding eval_action_type_denylist
    eval_action_type_denylist-NotTimeout =
        NotTimeout-bind _ _ (require_list-NotTimeout rule.parameters "denied" rule.id)
          λ a. NotTimeout-ok _

    pub eval_url_prefix_allowlist-NotTimeout :
        NotTimeout (eval_url_prefix_allowlist py rule receipt)
    unfolding eval_url_prefix_allowlist
    eval_url_prefix_allowlist-NotTimeout =
        NotTimeout-bind _ _ (require_list-NotTimeout rule.parameters "allowed" rule.id)
          λ a. NotTimeout-bind _ _ (url_source-NotTimeout rule receipt) λ s. NotTimeout-ok _

    pub eval_url_prefix_denylist-NotTimeout : NotTimeout (eval_url_prefix_denylist py rule receipt)
    unfolding eval_url_prefix_denylist
    eval_url_prefix_denylist-NotTimeout =
        NotTimeout-bind _ _ (require_list-NotTimeout rule.parameters "denied" rule.id)
          λ a. NotTimeout-bind _ _ (url_source-NotTimeout rule receipt) λ s. NotTimeout-ok _

    pub eval_tool_id_allowlist-NotTimeout : NotTimeout (eval_tool_id_allowlist py rule receipt)
    unfolding eval_tool_id_allowlist
    eval_tool_id_allowlist-NotTimeout =
        NotTimeout-bind _ _ (require_list-NotTimeout rule.parameters "allowed" rule.id)
          λ a. NotTimeout-ok _

    pub eval_post_state_assertion-NotTimeout :
        NotTimeout (eval_post_state_assertion py rule receipt)
    unfolding eval_post_state_assertion text_or_none text_or_fail rule_error
    eval_post_state_assertion-NotTimeout = record { is_not = λ e. ground arith }
