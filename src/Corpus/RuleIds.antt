-- ===== src/Corpus/RuleIds.antt =====
-- `find_rule_id` of packages/openterms-py/scripts/generate_corpus.py.
use openterms.Prelude.{String, [], ◌∷◌, ◌==◌, if◌then◌else◌}
use openterms.Python.{
  Value, str, list, dict, Values, nil, cons, Fields, end, Builtins, type_error, key_error, Result,
  ok, fail, ◌>>=◌, subscript, is_text, join_text,
}

-- the items that a `for` loop meets: those of a list, the keys of a dictionary or the characters of a
-- text, which fail where they are subscripted
unfoldable pub items_of : Value → Result Values
items_of (list vs) = ok vs
items_of (dict end) = ok nil
items_of (str s) = if s == "" then ok nil else fail type_error
items_of _ = fail type_error

-- the loop of `find_rule_id`
unfoldable pub rule_id_in : Builtins → String → Values → Result Value
unfolding subscript is_text join_text
rule_id_in py rule_type nil =
    fail (key_error (join_text ("policy has no rule of type " ∷ py.repr_of (str rule_type) ∷ [])))
rule_id_in py rule_type (cons r rules) =
    let rest = rule_id_in py rule_type rules in
    subscript r "type" >>= (λ found. if is_text found rule_type then subscript r "id" else rest)

-- `find_rule_id`
unfoldable pub find_rule_id : Builtins → Fields → String → Result Value
unfolding subscript items_of rule_id_in
find_rule_id py policy rule_type = do
  rules ← subscript (dict policy) "rules"
  items ← items_of rules
  rule_id_in py rule_type items
