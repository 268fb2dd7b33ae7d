-- ===== src/Policy/Rules/PostState.antt =====
-- policy/rules.py: `eval_post_state_assertion`.
use openterms.Prelude.{String, List, [], ◌∷◌, Option, none, some}
use openterms.Python.{
  Value, null, str, Fields, Builtins, Error, Result, ok, fail, ◌>>=◌, ◌>>◌, ensure, get_or, is_text,
  value_mem, join_text,
}
use openterms.Prelude.{if◌then◌else◌}
use openterms.Policy.Types.{Rule, RuleResult}
use openterms.Policy.Pattern.{resolve_path}
use openterms.Policy.Rules.Params.{fires, silent, rule_error}

abbrev pub applies_to_values : List String
applies_to_values = "post_action_only" ∷ "always" ∷ []

-- if expected is not None and not isinstance(expected, str)
unfoldable pub text_or_none : Error → Value → Result (Option String)
text_or_none e null = ok none
text_or_none e (str s) = ok (some s)
text_or_none e _ = fail e

unfoldable pub text_or_fail : Error → Value → Result String
text_or_fail e (str s) = ok s
text_or_fail e _ = fail e

unfoldable pub post_state_result : Builtins → String → Option String → Value → Value → RuleResult
unfolding join_text is_text
post_state_result py path expected applies_to null =
    if is_text applies_to "post_action_only"
    then silent
    else fires ("POST_STATE_ASSERTION: " ∷ path ∷ " absent on receipt" ∷ [])
post_state_result py path none applies_to actual = silent
post_state_result py path (some hash) applies_to actual =
    if is_text actual hash
    then silent
    else fires (
        "POST_STATE_ASSERTION: "
        ∷ path
        ∷ " "
        ∷ py.repr_of actual
        ∷ " does not equal expected "
        ∷ py.repr_of (str hash)
        ∷ [])

unfoldable pub eval_post_state_assertion : Builtins → Rule → Fields → Result RuleResult
unfolding text_or_none text_or_fail post_state_result get_or value_mem rule_error
eval_post_state_assertion py rule receipt = do
  let path_value =
      get_or rule.parameters "field" (str "action_context.ors.commitments.post_state_hash")
  let expected_value = get_or rule.parameters "expected_hash" null
  let applies_to = get_or rule.parameters "applies_to" (str "post_action_only")
  ensure (value_mem applies_to applies_to_values) (
      rule_error py rule.id
        (": applies_to must be 'post_action_only' or 'always', got " ∷ py.repr_of applies_to ∷ []))
  expected ←
      text_or_none (rule_error py rule.id (": expected_hash must be a string or absent" ∷ []))
        expected_value
  path ← text_or_fail (rule_error py rule.id (": field must be a string" ∷ [])) path_value
  ok (post_state_result py path expected applies_to (resolve_path receipt path))
