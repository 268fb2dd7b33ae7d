-- ===== src/Corpus/Files.antt =====
-- The values that `main` of packages/openterms-py/scripts/generate_corpus.py writes, and `_dump_json`.
use openterms.Prelude.{Option, ℕ, String, none, some, List, [], ◌∷◌, length, ◌==◌, if◌then◌else◌}
use openterms.Prelude.Int.{pos}
use openterms.Python.{
  codes, Value, int, str, list, dict, Values, nil, cons, Fields, end, field, other, Result, ok,
  ◌>>=◌, subscript, texts, join_text, lookup, insert,
}
use openterms.Receipts.Canonical.Json.{utf8}
use openterms.Receipts.Crypto.{Crypto, hex}
use openterms.Policy.Types.{Decision, outcome_text}
use openterms.Corpus.Scenario.{Scenario}
use openterms.Corpus.Decisions.{CorpusDecision, decision_value}
use openterms.Corpus.Simulation.{SimulationDiff}
use openterms.Corpus.Validation.{Stats}
use openterms.Corpus.Main.{Outputs}

-- What is read from outside: json.dumps(value, indent=2, ensure_ascii=False, sort_keys=False), the text
-- json.dumps(scenario, sort_keys=True, separators=(",", ":")), what `git rev-parse` prints, with `none` where
-- it fails or is not there, and str.strip.
pub record Outside : Type 0 where
  pub dumps : Value → String
  pub scenario_text : String
  pub git_output : Option String
  pub strip : String → String

-- `scenario_canonical_hash`
unfoldable pub scenario_canonical_hash : Crypto → Outside → String
unfolding utf8 codes hex
scenario_canonical_hash crypto outside = hex (crypto.sha256 (utf8 (codes outside.scenario_text)))

-- `module_tree_sha`
unfoldable pub module_tree_sha : Outside → String
module_tree_sha outside = elim outside.git_output [
  | none ↦ "unknown"
  | some out ↦ outside.strip out
]

unfoldable pub dicts : List Fields → Values
dicts [] = nil
dicts (d ∷ ds) = cons (dict d) (dicts ds)

unfoldable pub decision_values : List CorpusDecision → Values
unfolding decision_value
decision_values [] = nil
decision_values (d ∷ ds) = cons (decision_value d) (decision_values ds)

-- {"decision": …, "triggered_rules": …}
unfoldable pub side_value : Decision → Value
unfolding outcome_text texts
side_value d = dict (
    field "decision" (str (outcome_text d.decision))
      (field "triggered_rules" (list (texts d.triggered_rules)) end))

unfoldable pub diff_values : List SimulationDiff → Values
unfolding side_value
diff_values [] = nil
diff_values (d ∷ ds) =
    cons
      (dict (
        field "receipt_hash" d.receipt_hash
          (field "v1" (side_value d.v1) (field "v2" (side_value d.v2) end))))
      (diff_values ds)

-- dict(counter)
unfoldable pub counts_fields : List (String × ℕ) → Fields
counts_fields [] = end
counts_fields ((key, n) ∷ counts) = field key (int (pos n)) (counts_fields counts)

unfoldable pub value_counts : List (Value × ℕ) → Fields
value_counts [] = end
value_counts ((str key, n) ∷ counts) = field key (int (pos n)) (value_counts counts)
value_counts ((key, n) ∷ counts) = other key (int (pos n)) (value_counts counts)

unfoldable pub stats_value : Stats → Value
unfolding counts_fields value_counts
stats_value stats = dict (
    field "outcome_counts" (dict (counts_fields stats.outcomes)) (
      field "rule_firings" (dict (counts_fields stats.firings))
        (field "action_type_counts" (dict (value_counts stats.action_types)) end)))

unfoldable pub manifest : Crypto → Outside → Scenario → Fields → Fields → Outputs → Result Fields
unfolding subscript stats_value counts_fields scenario_canonical_hash module_tree_sha
manifest crypto outside scenario policy_v1 policy_v2 out = do
  v1 ← subscript (dict policy_v1) "version"
  v2 ← subscript (dict policy_v2) "version"
  ok (
      field "scenario_canonical_hash" (str (scenario_canonical_hash crypto outside)) (
        field "scenario_seed" (int (pos scenario.seed)) (
          field "count" (int (pos (length out.receipts))) (
            field "openterms_module_tree_sha" (str (module_tree_sha outside)) (
              field "policies" (dict (field "v1" v1 (field "v2" v2 end))) (
                field "stats" (stats_value out.stats) (
                  field "simulation_diffs_by_transition" (dict (counts_fields out.sim_by_outcome))
                    (field "simulation_total_diffs" (int (pos (length out.sim_diffs))) end))))))))

-- the list `outputs`
unfoldable pub named_outputs : Outputs → Fields → List (String × Value)
unfolding dicts decision_values diff_values
named_outputs out manifest =
    ("receipts.json", list (dicts out.receipts))
    ∷ ("decisions.json", list (decision_values out.decisions))
    ∷ ("jwks.json", dict out.jwks)
    ∷ ("simulation_expected_diffs.json", list (diff_values out.sim_diffs))
    ∷ ("manifest.json", dict manifest)
    ∷ []

-- The files of the corpus's directory, with their texts. A text is read back as it was written: it has no carriage
-- return.
abbrev pub Directory : Type 0
Directory = List (String × String)

-- the text of a value, and the end of the line behind it
unfoldable pub file_text : Outside → Value → String
unfolding join_text
file_text outside value = join_text (outside.dumps value ∷ "\n" ∷ [])

-- `_dump_json`
unfoldable pub dump_json : Outside → String → Value → Directory → Directory
unfolding insert file_text
dump_json outside name value dir = insert name (file_text outside value) dir

-- the loop that writes
unfoldable pub write_outputs : Outside → List (String × Value) → Directory → Directory
unfolding dump_json
write_outputs outside [] dir = dir
write_outputs outside ((name, value) ∷ outputs) dir =
    write_outputs outside outputs (dump_json outside name value dir)

-- the text of a file, empty if it is not there
unfoldable pub existing_text : Directory → String → String
unfolding lookup
existing_text dir name = elim (lookup dir name) [ none ↦ "" | some text ↦ text ]

-- what the buffer of --check holds
unfoldable pub printed_text : Outside → Value → String
unfolding join_text
printed_text outside value = join_text (outside.dumps value ∷ "\n" ∷ [])

-- the loop of --check: the names of the files that have another text; the manifest is passed over
unfoldable pub mismatched : Outside → Directory → List (String × Value) → List String
unfolding printed_text existing_text
mismatched outside dir [] = []
mismatched outside dir ((name, value) ∷ outputs) =
    let rest = mismatched outside dir outputs in
    if name == "manifest.json"
    then rest
    else if printed_text outside value == existing_text dir name
    then rest
    else name ∷ rest
