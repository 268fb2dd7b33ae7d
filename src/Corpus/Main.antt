-- ===== src/Corpus/Main.antt =====
-- `main` of packages/openterms-py/scripts/generate_corpus.py, between reading and writing its files.
pub mod Run
pub mod Sound
pub mod Checked
use openterms.Prelude.{ℕ, String, List}
use openterms.Python.{Fields, Result, ok, ◌>>=◌}
use openterms.Corpus.Scenario.{Scenario}
use openterms.Corpus.Generate.{Tools, generate_receipts}
use openterms.Corpus.Decisions.{CorpusDecision, Evaluator, evaluate_corpus}
use openterms.Corpus.Checks.{Floats}
use openterms.Corpus.Validation.{Stats, validate_corpus}
use openterms.Corpus.Simulation.{SimulationDiff, compute_simulation_diffs}

-- what goes to the files
pub record Outputs : Type 0 where
  pub receipts : List Fields
  pub decisions : List CorpusDecision
  pub jwks : Fields
  pub sim_diffs : List SimulationDiff
  pub stats : Stats
  pub sim_by_outcome : List (String × ℕ)

-- The random generator and the clock of a run are read from their first call on: another run has a
-- clock of its own, in another Evaluator.
unfoldable pub outputs : Tools → Evaluator → Floats → Scenario → Fields → Fields → Result Outputs
unfolding generate_receipts evaluate_corpus validate_corpus compute_simulation_diffs
outputs tools ev floats scenario policy_v1 policy_v2 = do
  generated ← (generate_receipts tools scenario 0).0
  let evaluated = evaluate_corpus ev generated.1 policy_v1 0
  decisions ← evaluated.0
  let validated =
      validate_corpus ev tools.crypto floats generated.1 decisions generated.0 policy_v1 evaluated.1
  stats ← validated.0
  simulated ← (compute_simulation_diffs ev generated.1 decisions policy_v2 validated.1).0
  ok (record {
    receipts = generated.1;
    decisions = decisions;
    jwks = generated.0;
    sim_diffs = simulated.0;
    stats = stats;
    sim_by_outcome = simulated.1;
  })
