-- ===== src/Policy/Rules/Arguments.antt =====
-- policy/rules.py: `eval_args_pattern_match`.
use openterms.Prelude.{
  ℕ, String, Bool, List, [], ◌∷◌, ◌++◌, Option, none, some, length, eqb, suc, not, if◌then◌else◌,
}
use openterms.Prelude.Int.{pos}
use openterms.Python.{
  Value, null, int, str, list, Values, nil, cons, Fields, Builtins, Error, index_error, Result, ok,
  fail, ensure, get_or, is_text, value_mem, join_text,
}
use openterms.Policy.Types.{Rule, RuleResult, EvalContext}
use openterms.Policy.Clock.{Clock, Timed, ◌>>=◌, ◌>>◌, untimed, check_deadline}
use openterms.Policy.Rules.Params.{fires, silent, rule_error}
use openterms.Policy.Rules.Entries.{Hit, match_pattern}

abbrev pub modes : List String
modes = "any" ∷ "all" ∷ []

-- isinstance(patterns, list) and patterns
unfoldable pub non_empty_list : Error → Value → Result Values
non_empty_list e (list (cons v vs)) = ok (cons v vs)
non_empty_list e _ = fail e

abbrev pub appended : List Hit → Option Hit → List Hit
appended matches none = matches
appended matches (some hit) = matches ++ hit ∷ []

-- the loop over the patterns
unfoldable pub match_patterns :
    Builtins → Clock → String → Fields → EvalContext → Values → List Hit → Timed (List Hit)
match_patterns py clock rule_id receipt ctx nil matches = untimed (ok matches)
match_patterns py clock rule_id receipt ctx (cons pat pats) matches = do
  check_deadline clock ctx
  hit ← untimed (match_pattern py rule_id receipt pat)
  match_patterns py clock rule_id receipt ctx pats (appended matches hit)

abbrev pub count_values : Values → ℕ
count_values nil = 0
count_values (cons v vs) = suc (count_values vs)

abbrev pub is_empty : List Hit → Bool
is_empty [] = Bool.true
is_empty (_ ∷ _) = Bool.false

-- bool(matches) if mode == "any" else len(matches) == len(patterns)
unfoldable pub mode_fires : Value → List Hit → Values → Bool
unfolding is_text
mode_fires mode matches patterns =
    if is_text mode "any"
    then not (is_empty matches)
    else eqb (length matches) (count_values patterns)

-- `matches[0]` raises on an empty list
unfoldable pub first_hit : List Hit → Result Hit
first_hit [] = fail index_error
first_hit (hit ∷ _) = ok hit

unfoldable pub args_result : Builtins → Value → List Hit → Values → Result RuleResult
unfolding first_hit join_text mode_fires
args_result py mode matches patterns =
    if mode_fires mode matches patterns
    then (elim (first_hit matches) [
      | fail e ↦ fail e
      | ok (path, value) ↦ ok (
          fires (
            "ARGS_PATTERN_MATCH: pattern at "
            ∷ path
            ∷ " matched value "
            ∷ py.repr_of (str value)
            ∷ " (mode="
            ∷ py.str_of mode
            ∷ ", matched="
            ∷ py.str_of (int (pos (length matches)))
            ∷ "/"
            ∷ py.str_of (int (pos (count_values patterns)))
            ∷ ")"
            ∷ []))
    ])
    else ok silent

unfoldable pub eval_args_pattern_match :
    Builtins → Clock → Rule → Fields → EvalContext → Timed RuleResult
unfolding non_empty_list get_or value_mem rule_error
eval_args_pattern_match py clock rule receipt ctx = do
  patterns ← untimed (
      non_empty_list (rule_error py rule.id (": parameters.patterns must be a non-empty list" ∷ []))
        (get_or rule.parameters "patterns" null))
  let mode = get_or rule.parameters "mode" (str "any")
  untimed (
      ensure (value_mem mode modes)
        (rule_error py rule.id (": mode must be 'any' or 'all', got " ∷ py.repr_of mode ∷ [])))
  matches ← match_patterns py clock rule.id receipt ctx patterns []
  untimed (args_result py mode matches patterns)
