-- ===== src/Policy/Types.antt =====
-- packages/openterms-py/openterms/policy/types.py: policies as they are read from JSON, the context
-- of an evaluation and its decision.
use openterms.Prelude.{ℕ, String, Bool, Option, none, some, List, [], ◌∷◌, if◌then◌else◌, ◌==◌}
use openterms.Python.{
  texts, Value, str, list, dict, Values, nil, cons, Fields, Builtins, Result, ok, fail, value_error,
  ◌>>=◌, ◌>>◌, ensure, in_value, subscript, value_mem, as_text, get_or, join_text,
}

pub data DecisionOutcome : Type 0 where
  allow deny escalate : DecisionOutcome

abbrev pub valid_rule_types : List String
valid_rule_types =
    "max_amount" ∷ "daily_limit" ∷ "action_type_allowlist" ∷ "action_type_denylist"
    ∷ "url_prefix_allowlist" ∷ "url_prefix_denylist" ∷ "escalation_threshold" ∷ "tool_id_allowlist"
    ∷ "args_pattern_match" ∷ "post_state_assertion" ∷ []

-- The member of VALID_OUTCOMES that a text names.
unfoldable pub outcome_of_text : String → Option DecisionOutcome
outcome_of_text s =
    if s == "allow"
    then some allow
    else if s == "deny"
    then some deny
    else if s == "escalate"
    then some escalate
    else none

pub record Rule : Type 0 where
  pub id : String
  -- the field `type`
  pub kind : String
  pub outcome : DecisionOutcome
  pub parameters : Fields

pub record Policy : Type 0 where
  pub version : String
  pub rules : List Rule

pub record RuleResult : Type 0 where
  pub fired : Bool
  pub reason : String

-- `deadline` is on the monotonic clock, whose readings are numbers of ticks.
pub record EvalContext : Type 0 where
  pub aggregates : Fields
  pub deadline : Option ℕ
  pub evaluated_at : Option String

pub record Decision : Type 0 where
  pub decision : DecisionOutcome
  pub triggered_rules : List String
  pub reasons : List String
  pub policy_version : String
  pub evaluated_at : String

unfoldable pub outcome_text : DecisionOutcome → String
outcome_text allow = "allow"
outcome_text deny = "deny"
outcome_text escalate = "escalate"

-- Decision.to_dict
unfoldable pub to_dict : Decision → Fields
unfolding outcome_text
to_dict d = Fields.field "decision" (str (outcome_text d.decision)) (
    Fields.field "triggered_rules" (list (texts d.triggered_rules)) (
      Fields.field "reasons" (list (texts d.reasons)) (
        Fields.field "policy_version" (str d.policy_version)
          (Fields.field "evaluated_at" (str d.evaluated_at) Fields.end))))

-- `kind` as the text that the test `in VALID_RULE_TYPES` has found.
require_kind : Builtins → Value → Result String
unfolding value_mem as_text join_text
require_kind py v =
    let unknown : Result String =
      fail (value_error (join_text ("Unknown rule type: " ∷ py.repr_of v ∷ []))) in
    if value_mem v valid_rule_types
    then (elim (as_text v) [ none ↦ unknown | some s ↦ ok s ])
    else unknown

require_outcome : Builtins → Value → Result DecisionOutcome
unfolding as_text outcome_of_text join_text
require_outcome py v =
    let invalid : Result DecisionOutcome =
      fail (value_error (join_text ("Invalid outcome: " ∷ py.repr_of v ∷ []))) in
    elim (as_text v) [
      | none ↦ invalid
      | some s ↦ elim (outcome_of_text s) [ none ↦ invalid | some o ↦ ok o ]
    ]

require_dict : Value → Result Fields
require_dict (dict d) = ok d
require_dict _ = fail (value_error "Rule.parameters must be an object")

require_keys : List String → Value → Result (Unit {0})
unfolding in_value join_text
require_keys [] d = ok tt
require_keys (k ∷ ks) d = do
  found ← in_value k d
  ensure found (value_error (join_text ("Rule is missing required field '" ∷ k ∷ "'" ∷ [])))
  require_keys ks d

-- Rule.from_dict
unfoldable pub rule_from_dict : Builtins → Value → Result Rule
unfolding require_keys require_kind require_outcome require_dict subscript
rule_from_dict py d = do
  require_keys ("id" ∷ "type" ∷ "outcome" ∷ "parameters" ∷ []) d
  kind ← (subscript d "type" >>= require_kind py)
  outcome ← (subscript d "outcome" >>= require_outcome py)
  parameters ← (subscript d "parameters" >>= require_dict)
  id ← subscript d "id"
  ok (record { id = py.str_of id; kind = kind; outcome = outcome; parameters = parameters })

unfoldable pub rules_from_list : Builtins → Values → Result (List Rule)
unfolding rule_from_dict
rules_from_list py nil = ok []
rules_from_list py (cons v vs) = do r ← rule_from_dict py v; rs ← rules_from_list py vs; ok (r ∷ rs)

rules_of : Builtins → Value → Result (List Rule)
unfolding rules_from_list
rules_of py (list vs) = rules_from_list py vs
rules_of py _ = fail (value_error "Policy.rules must be a list")

-- Policy.from_dict
unfoldable pub policy_from_dict : Builtins → Fields → Result Policy
unfolding rules_of get_or
policy_from_dict py d = do
  let version = py.str_of (get_or d "version" (str "inline"))
  rules ← rules_of py (get_or d "rules" (list nil))
  ok (record { version = version; rules = rules })
