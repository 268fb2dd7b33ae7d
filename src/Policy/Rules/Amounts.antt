-- ===== src/Policy/Rules/Amounts.antt =====
-- policy/rules.py: the rules on the amount charged.
use openterms.Prelude.{String, List, [], ◌∷◌, if◌then◌else◌}
use openterms.Prelude.Int.{pos, ◌+ℤ◌, ltb_ℤ, leb_ℤ}
use openterms.Python.{
  int, str, Fields, Builtins, Result, ok, ◌>>=◌, ◌>>◌, ensure, get_or, value_mem, join_text,
}
use openterms.Policy.Types.{Rule, RuleResult, EvalContext}
use openterms.Policy.Rules.Params.{fires, silent, rule_error, int_or, require_int, amount_of}

-- `_VALID_DAILY_WINDOWS`
abbrev valid_daily_windows : List String
valid_daily_windows = "utc_day" ∷ "rolling_24h" ∷ []

unfoldable pub eval_max_amount : Builtins → Rule → Fields → Result RuleResult
unfolding join_text
eval_max_amount py rule receipt = do
  threshold ← require_int py rule.parameters "threshold" rule.id
  amount ← amount_of py receipt rule.id
  ok (
      if ltb_ℤ threshold amount
      then fires (
          "MAX_AMOUNT: amount_charged "
          ∷ py.str_of (int amount)
          ∷ " exceeds threshold "
          ∷ py.str_of (int threshold)
          ∷ [])
      else silent)

unfoldable pub eval_daily_limit : Builtins → Rule → Fields → EvalContext → Result RuleResult
unfolding join_text value_mem get_or
eval_daily_limit py rule receipt ctx = do
  threshold ← require_int py rule.parameters "threshold" rule.id
  let window = get_or rule.parameters "window" (str "utc_day")
  ensure (value_mem window valid_daily_windows) (
      rule_error py rule.id
        (": window must be one of ('utc_day', 'rolling_24h'), got " ∷ py.repr_of window ∷ []))
  prior_total ←
      int_or (rule_error py rule.id (": aggregate value for this rule must be an integer" ∷ []))
        (get_or ctx.aggregates rule.id (int (pos 0)))
  amount ← amount_of py receipt rule.id
  let total = prior_total +ℤ amount
  ok (
      if ltb_ℤ threshold total
      then fires (
          "DAILY_LIMIT: cumulative amount "
          ∷ py.str_of (int total)
          ∷ " in window "
          ∷ py.str_of window
          ∷ " exceeds threshold "
          ∷ py.str_of (int threshold)
          ∷ [])
      else silent)

unfoldable pub eval_escalation_threshold : Builtins → Rule → Fields → Result RuleResult
unfolding join_text
eval_escalation_threshold py rule receipt = do
  threshold ← require_int py rule.parameters "threshold" rule.id
  amount ← amount_of py receipt rule.id
  ok (
      if leb_ℤ threshold amount
      then fires (
          "ESCALATION_THRESHOLD: amount_charged "
          ∷ py.str_of (int amount)
          ∷ " meets escalation threshold "
          ∷ py.str_of (int threshold)
          ∷ [])
      else silent)
