-- ===== src/Corpus/Main/Run.antt =====
-- `main` of packages/openterms-py/scripts/generate_corpus.py: the exit code, and the files behind it.
use openterms.Prelude.{ℕ, String, Bool, true, false, List, [], ◌∷◌}
use openterms.Python.{Value, Fields, Result, ok, ◌>>=◌}
use openterms.Corpus.Scenario.{Scenario}
use openterms.Corpus.Generate.{Tools}
use openterms.Corpus.Decisions.{Evaluator}
use openterms.Corpus.Checks.{Floats}
use openterms.Corpus.Main.{outputs}
use openterms.Corpus.Files.{Outside, manifest, named_outputs, Directory, write_outputs, mismatched}

-- what a run reads
pub record Inputs : Type 0 where
  pub tools : Tools
  pub ev : Evaluator
  pub floats : Floats
  pub outside : Outside
  pub scenario : Scenario
  pub policy_v1 : Fields
  pub policy_v2 : Fields

-- the values that are written or checked
unfoldable pub run_outputs : Inputs → Result (List (String × Value))
unfolding outputs manifest named_outputs
run_outputs inputs = do
  out ←
      outputs inputs.tools inputs.ev inputs.floats inputs.scenario inputs.policy_v1 inputs.policy_v2
  provenance ←
      manifest inputs.tools.crypto inputs.outside inputs.scenario inputs.policy_v1 inputs.policy_v2
        out
  ok (named_outputs out provenance)

abbrev pub exit_code : List String → ℕ
exit_code [] = 0
exit_code (_ ∷ _) = 1

-- `main`, with the option --check
unfoldable pub main : Inputs → Bool → Directory → Result (ℕ × Directory)
unfolding run_outputs write_outputs mismatched
main inputs check dir = do
  outs ← run_outputs inputs
  ok (elim check [
    | true ↦ (exit_code (mismatched inputs.outside dir outs), dir)
    | false ↦ (0, write_outputs inputs.outside outs dir)
  ])
