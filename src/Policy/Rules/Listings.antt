-- ===== src/Policy/Rules/Listings.antt =====
-- policy/rules.py: the rules that look a value of the receipt up in a list.
use openterms.Prelude.{String, List, [], ◌∷◌, Option, none, some, any, if◌then◌else◌}
use openterms.Python.{
  Value, null, str, Fields, Builtins, Result, ok, fail, ◌>>=◌, get_or, value_mem, as_text,
  starts_with, join_text,
}
use openterms.Policy.Types.{Rule, RuleResult}
use openterms.Policy.Pattern.{resolve_path}
use openterms.Policy.Rules.Params.{fires, silent, rule_error, require_list}

unfoldable pub eval_action_type_allowlist : Builtins → Rule → Fields → Result RuleResult
unfolding join_text get_or value_mem
eval_action_type_allowlist py rule receipt = do
  allowed ← require_list py rule.parameters "allowed" rule.id
  let action_type = get_or receipt "action_type" null
  ok (
      if value_mem action_type allowed
      then silent
      else fires (
          "ACTION_TYPE_ALLOWLIST: action_type "
          ∷ py.repr_of action_type
          ∷ " is not on the allow list"
          ∷ []))

unfoldable pub eval_action_type_denylist : Builtins → Rule → Fields → Result RuleResult
unfolding join_text get_or value_mem
eval_action_type_denylist py rule receipt = do
  denied ← require_list py rule.parameters "denied" rule.id
  let action_type = get_or receipt "action_type" null
  ok (
      if value_mem action_type denied
      then fires (
          "ACTION_TYPE_DENYLIST: action_type "
          ∷ py.repr_of action_type
          ∷ " is on the deny list"
          ∷ [])
      else silent)

-- `_url_source`: the field's name and its value
unfoldable pub url_source : Builtins → Rule → Fields → Result (String × Value)
unfolding as_text get_or rule_error
url_source py rule receipt =
    elim (as_text (get_or rule.parameters "source_field" (str "terms_url"))) [
      | none ↦ fail (rule_error py rule.id (": source_field must be a string" ∷ []))
      | some source_field ↦ ok (source_field, resolve_path receipt source_field)
    ]

-- value if isinstance(value, str) else ""
unfoldable pub text_or_empty : Value → String
text_or_empty (str s) = s
text_or_empty _ = ""

unfoldable pub eval_url_prefix_allowlist : Builtins → Rule → Fields → Result RuleResult
unfolding join_text
eval_url_prefix_allowlist py rule receipt = do
  allowed ← require_list py rule.parameters "allowed" rule.id
  (source_field, value) ← url_source py rule receipt
  let text = text_or_empty value
  ok (
      if any (starts_with text) allowed
      then silent
      else fires (
          "URL_PREFIX_ALLOWLIST: "
          ∷ source_field
          ∷ " "
          ∷ py.repr_of (str text)
          ∷ " does not match any allowed prefix"
          ∷ []))

-- the `for` loop with its early return
unfoldable pub first_prefix : String → List String → Option String
first_prefix text [] = none
first_prefix text (prefix ∷ denied) =
    if starts_with text prefix then some prefix else first_prefix text denied

unfoldable pub eval_url_prefix_denylist : Builtins → Rule → Fields → Result RuleResult
unfolding join_text
eval_url_prefix_denylist py rule receipt = do
  denied ← require_list py rule.parameters "denied" rule.id
  (source_field, value) ← url_source py rule receipt
  let text = text_or_empty value
  ok (elim (first_prefix text denied) [
    | none ↦ silent
    | some prefix ↦ fires (
        "URL_PREFIX_DENYLIST: "
        ∷ source_field
        ∷ " "
        ∷ py.repr_of (str text)
        ∷ " starts with denied prefix "
        ∷ py.repr_of (str prefix)
        ∷ [])
  ])

-- if tool_id is None, if tool_id not in allowed
tool_id_result : Builtins → Value → List String → RuleResult
unfolding join_text value_mem
tool_id_result py null allowed =
    fires ("TOOL_ID_ALLOWLIST: tool_id absent from receipt commitments" ∷ [])
tool_id_result py tool_id allowed =
    if value_mem tool_id allowed
    then silent
    else fires
        ("TOOL_ID_ALLOWLIST: tool_id " ∷ py.repr_of tool_id ∷ " is not in the allow list" ∷ [])

unfoldable pub eval_tool_id_allowlist : Builtins → Rule → Fields → Result RuleResult
unfolding tool_id_result
eval_tool_id_allowlist py rule receipt = do
  allowed ← require_list py rule.parameters "allowed" rule.id
  ok (tool_id_result py (resolve_path receipt "action_context.ors.commitments.tool_id") allowed)
