-- ===== src/Policy/Rules/Meaning/Hits.antt =====
-- What `eval_args_pattern_match` means: the hits are collected with no clock.
use openterms.Prelude.{String, List, [], ◌∷◌, arith}
use openterms.Python.{
  Value, null, str, Values, nil, cons, Fields, Builtins, Result, ok, ensure, ◌>>=◌, ◌>>◌, get_or,
  value_mem,
}
use openterms.Policy.Types.{Rule, RuleResult, EvalContext}
use openterms.Policy.Clock.{Clock}
use openterms.Policy.Clock.Meaning.{
  NotTimeout, NotTimeout-ok, NotTimeout-bind, Means, Means-untimed, Means-check_deadline,
  Means-bind,
}
use openterms.Policy.Pattern.{match_one}
use openterms.Policy.Rules.Params.{rule_error}
use openterms.Policy.Rules.Meaning.Errors.{ensure_rule-NotTimeout}
use openterms.Policy.Rules.Entries.{Hit, match_pattern}
use openterms.Policy.Rules.Arguments.{
  modes, non_empty_list, appended, match_patterns, args_result, eval_args_pattern_match,
}

-- the pairs of the patterns that match, in the order of the patterns
pub collect_hits : Builtins → String → Fields → Values → List Hit → Result (List Hit)
collect_hits py rule_id receipt nil matches = ok matches
collect_hits py rule_id receipt (cons pat pats) matches = do
  hit ← match_pattern py rule_id receipt pat
  collect_hits py rule_id receipt pats (appended matches hit)

abbrev patterns_of : Builtins → Rule → Result Values
patterns_of py rule =
    non_empty_list (rule_error py rule.id (": parameters.patterns must be a non-empty list" ∷ []))
      (get_or rule.parameters "patterns" null)

abbrev mode_check : Builtins → Rule → Result (Unit {0})
mode_check py rule =
    let mode = get_or rule.parameters "mode" (str "any") in
    ensure (value_mem mode modes)
      (rule_error py rule.id (": mode must be 'any' or 'all', got " ∷ py.repr_of mode ∷ []))

pub args_meaning : Builtins → Rule → Fields → Result RuleResult
args_meaning py rule receipt = do
  patterns ← patterns_of py rule
  mode_check py rule
  matches ← collect_hits py rule.id receipt patterns []
  args_result py (get_or rule.parameters "mode" (str "any")) matches patterns

module _ (py : Builtins) (clock : Clock) (receipt : Fields) (ctx : EvalContext) where
  match_patterns-Means :
      (rule_id : String) (pats : Values) (matches : List Hit)
      → Means
          (λ c. match_patterns py clock rule_id receipt c pats matches)
          ctx
          (collect_hits py rule_id receipt pats matches)
  unfolding match_patterns collect_hits
  match_patterns-Means rule_id nil matches = Means-untimed ctx (ok matches)
  match_patterns-Means rule_id (cons pat pats) matches =
      Means-bind ctx _ _ (Means-check_deadline clock ctx) λ _.
        Means-bind ctx _ _ (Means-untimed ctx (match_pattern py rule_id receipt pat))
          λ hit. match_patterns-Means rule_id pats (appended matches hit)

  pub eval_args_pattern_match-Means :
      (rule : Rule)
      → Means (eval_args_pattern_match py clock rule receipt) ctx (args_meaning py rule receipt)
  unfolding eval_args_pattern_match args_meaning
  eval_args_pattern_match-Means rule =
      let mode = get_or rule.parameters "mode" (str "any") in
      Means-bind ctx _ _ (Means-untimed ctx (patterns_of py rule)) λ patterns.
        Means-bind ctx _ _ (Means-untimed ctx (mode_check py rule)) λ _.
          Means-bind ctx _ (λ matches. args_result py mode matches patterns)
            (match_patterns-Means rule.id patterns [])
            λ matches. Means-untimed ctx (args_result py mode matches patterns)

module _ (py : Builtins) (receipt : Fields) where
  patterns_of-NotTimeout : (rule : Rule) → NotTimeout (patterns_of py rule)
  unfolding non_empty_list rule_error
  patterns_of-NotTimeout rule = record { is_not = λ e. ground arith }

  args_result-NotTimeout :
      (mode : Value) (matches : List Hit) (patterns : Values)
      → NotTimeout (args_result py mode matches patterns)
  unfolding args_result
  args_result-NotTimeout mode matches patterns = record { is_not = λ e. ground arith }

  match_pattern-NotTimeout :
      (rule_id : String) (pat : Value) → NotTimeout (match_pattern py rule_id receipt pat)
  unfolding match_pattern match_one rule_error
  match_pattern-NotTimeout rule_id pat = record { is_not = λ e. ground arith }

  collect_hits-NotTimeout :
      (rule_id : String) (pats : Values) (matches : List Hit)
      → NotTimeout (collect_hits py rule_id receipt pats matches)
  unfolding collect_hits
  collect_hits-NotTimeout rule_id nil matches = NotTimeout-ok matches
  collect_hits-NotTimeout rule_id (cons pat pats) matches =
      NotTimeout-bind _ _ (match_pattern-NotTimeout rule_id pat)
        λ hit. collect_hits-NotTimeout rule_id pats (appended matches hit)

  pub args_meaning-NotTimeout : (rule : Rule) → NotTimeout (args_meaning py rule receipt)
  unfolding args_meaning
  args_meaning-NotTimeout rule =
      NotTimeout-bind (patterns_of py rule) _ (patterns_of-NotTimeout rule) λ patterns.
        NotTimeout-bind _ _ (ensure_rule-NotTimeout py _ rule.id _) λ _.
          NotTimeout-bind _ _ (collect_hits-NotTimeout rule.id patterns [])
            λ matches. args_result-NotTimeout _ matches patterns
