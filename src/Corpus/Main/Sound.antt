-- ===== src/Corpus/Main/Sound.antt =====
-- The values that `main` of packages/openterms-py/scripts/generate_corpus.py computes.
use mathlib.Core.Path.{subst}
use openterms.Prelude.{◌≡◌, ap, ℕ, String, some, List, [], get_elem?}
use openterms.Python.{Fields, ok, bind-ok, ok-injective}
use openterms.Corpus.Scenario.{Scenario}
use openterms.Corpus.Generate.{Tools, generate_receipts}
use openterms.Corpus.Decisions.{CorpusDecision, Evaluator, evaluate_corpus}
use openterms.Corpus.Simulation.{tally, compute_simulation_diffs}
use openterms.Corpus.Simulation.Differences.{
  Differences, number, compute_simulation_diffs-differences,
}
use openterms.Corpus.Checks.{Floats}
use openterms.Corpus.Validation.{validate_corpus}
use openterms.Corpus.Validation.Accepted.{Sound, validate_corpus-Sound}
use openterms.Corpus.Chains.{Linked}
use openterms.Corpus.Chains.Built.{generate_receipts-Linked}
use openterms.Corpus.Main.{Outputs, outputs}

-- Outputs whose receipts are linked and sound, whose decisions are those of the first policy, and
-- whose differences are those of the second.
pub record Consistent (tools : Tools) (ev : Evaluator) (policy_v1 policy_v2 : Fields)
    (out : Outputs) : Type 0 where
  pub linked : Linked [] out.receipts
  pub sound :
      (i : ℕ) (r : Fields)
      → get_elem? out.receipts i ≡ some r
      → Sound ev.py tools.crypto out.receipts out.jwks i r
  pub decided : (n : ℕ) × ((evaluate_corpus ev out.receipts policy_v1 n).0 ≡ ok out.decisions)
  pub simulated :
      (n : ℕ) × (v2 : List CorpusDecision) × ((evaluate_corpus ev out.receipts policy_v2 n).0
        ≡ ok v2)
      × Differences out.receipts out.decisions v2 out.sim_diffs
      × ((key : String) → tally out.sim_by_outcome key ≡ number key out.sim_diffs)

-- When the corpus generator has computed its values, every receipt has a valid signature under the
-- JWKS beside it, a hash of its own and a parent, if any, that comes earlier; the decisions are
-- those that evaluate_corpus gives under the first policy; and the differences of the simulation
-- are those of the receipts whose decision under the second policy has another outcome or other
-- triggered rules, each transition counted as often as there are such entries.
pub outputs-Consistent :
    (tools : Tools) (ev : Evaluator) (floats : Floats) (scenario : Scenario)
    (policy_v1 policy_v2 : Fields) (out : Outputs)
    → outputs tools ev floats scenario policy_v1 policy_v2 ≡ ok out
    → Consistent tools ev policy_v1 policy_v2 out
unfolding outputs
outputs-Consistent tools ev floats scenario policy_v1 policy_v2 out returned =
    let generation = generate_receipts tools scenario 0 in
    let (generated, made, r1) = bind-ok generation.0 _ returned in
    let evaluation = evaluate_corpus ev generated.1 policy_v1 0 in
    let (decisions, decided, r2) = bind-ok evaluation.0 _ r1 in
    let validation =
      validate_corpus ev tools.crypto floats generated.1 decisions generated.0 policy_v1
        evaluation.1 in
    let (stats, accepted, r3) = bind-ok validation.0 _ r2 in
    let simulation = compute_simulation_diffs ev generated.1 decisions policy_v2 validation.1 in
    let (simulated, compared, r4) = bind-ok simulation.0 _ r3 in
    let (v2, evaluated, differing, counted) =
      compute_simulation_diffs-differences ev generated.1 decisions policy_v2 validation.1
        simulated.0 simulated.1 simulation.1 (ap (λ r. (r, simulation.1)) compared) in
    subst (Consistent tools ev policy_v1 policy_v2) (ok-injective r4) (record {
      linked = generate_receipts-Linked tools scenario 0 (ap (λ r. (r, generation.1)) made);
      sound =
          (validate_corpus-Sound ev tools.crypto floats generated.1 decisions generated.0 policy_v1
            evaluation.1 stats validation.1 (ap (λ r. (r, validation.1)) accepted)).1;
      decided = (0, decided);
      simulated = (validation.1, v2, evaluated, differing, counted);
    })
