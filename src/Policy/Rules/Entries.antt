-- ===== src/Policy/Rules/Entries.antt =====
-- policy/rules.py: one pattern of `eval_args_pattern_match`.
use openterms.Prelude.{String, Option, none, some, [], ◌∷◌, if◌then◌else◌}
use openterms.Python.{
  Value, null, str, dict, Fields, Builtins, Error, Result, ok, fail, ◌>>=◌, get_or, value_mem,
  as_text,
}
use openterms.Policy.Pattern.{valid_ops, resolve_path, match_one}
use openterms.Policy.Rules.Params.{rule_error}

abbrev pub Hit : Type 0
Hit = String × String

unfoldable pub both_texts : Error → Value → Value → Result Hit
both_texts e (str path) (str value) = ok (path, value)
both_texts e _ _ = fail e

unfoldable pub op_text : Error → Value → Result String
unfolding value_mem as_text
op_text e op =
    if value_mem op valid_ops then (elim (as_text op) [ none ↦ fail e | some s ↦ ok s ]) else fail e

-- The body of the loop behind the deadline check: the pair that it appends, if it appends one.
unfoldable pub match_pattern : Builtins → String → Fields → Value → Result (Option Hit)
unfolding both_texts op_text get_or
match_pattern py rule_id receipt (dict pat) = do
  let op_value = get_or pat "op" null
  (path, value) ←
      both_texts (rule_error py rule_id (": pattern.path and pattern.value must be strings" ∷ []))
        (get_or pat "path" null) (get_or pat "value" null)
  op ←
      op_text
        (rule_error py rule_id (
          ": pattern.op must be one of ('equals', 'prefix', 'suffix', 'contains', 'glob'), got "
          ∷ py.repr_of op_value
          ∷ []))
        op_value
  matched ← match_one py op value (resolve_path receipt path)
  ok (if matched then some (path, value) else none)
match_pattern py rule_id receipt _ =
    fail (rule_error py rule_id (": each pattern must be an object" ∷ []))
