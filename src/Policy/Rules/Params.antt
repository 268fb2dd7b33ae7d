-- ===== src/Policy/Rules/Params.antt =====
-- policy/rules.py: the checked reading of a rule's parameters and of the receipt's amount.
use openterms.Prelude.{String, none, some, List, [], ◌∷◌, true, false}
use openterms.Prelude.Int.{ℤ}
use openterms.Python.{
  Value, null, str, list, Fields, Builtins, Error, value_error, Result, ok, fail, get, get_or,
  int_of, as_text_list, join_text,
}
use openterms.Policy.Types.{RuleResult}

abbrev pub fires : List String → RuleResult
fires parts = record { fired = true; reason = join_text parts }

abbrev pub silent : RuleResult
silent = record { fired = false; reason = "" }

-- ValueError(f"Rule {rule_id!r}" and what follows it)
unfoldable pub rule_error : Builtins → String → List String → Error
unfolding join_text
rule_error py rule_id parts = value_error (join_text ("Rule " ∷ py.repr_of (str rule_id) ∷ parts))

unfoldable pub int_or : Error → Value → Result ℤ
unfolding int_of
int_or e v = elim (int_of v) [ none ↦ fail e | some n ↦ ok n ]

-- `_require_int`
unfoldable pub require_int : Builtins → Fields → String → String → Result ℤ
unfolding get int_or rule_error
require_int py params key rule_id = elim (get params key) [
  | none ↦ fail (rule_error py rule_id (" parameters missing '" ∷ key ∷ "'" ∷ []))
  | some v ↦
      int_or
        (rule_error py rule_id (" parameter " ∷ py.repr_of (str key) ∷ " must be an integer" ∷ []))
        v
]

unfoldable pub text_list_or : Error → Value → Result (List String)
unfolding as_text_list
text_list_or e (list vs) = elim (as_text_list vs) [ none ↦ fail e | some texts ↦ ok texts ]
text_list_or e _ = fail e

-- `_require_list`
unfoldable pub require_list : Builtins → Fields → String → String → Result (List String)
unfolding get text_list_or rule_error
require_list py params key rule_id = elim (get params key) [
  | none ↦ fail (rule_error py rule_id (" parameters missing '" ∷ key ∷ "'" ∷ []))
  | some v ↦
      text_list_or
        (rule_error py rule_id
          (" parameter " ∷ py.repr_of (str key) ∷ " must be a list of strings" ∷ []))
        v
]

-- `_amount`
unfoldable pub amount_of : Builtins → Fields → String → Result ℤ
unfolding get_or int_or rule_error
amount_of py receipt rule_id =
    int_or
      (rule_error py rule_id (": receipt.amount_charged must be an integer (ORS minor units)" ∷ []))
      (get_or receipt "amount_charged" null)
