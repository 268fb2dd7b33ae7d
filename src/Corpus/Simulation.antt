-- ===== src/Corpus/Simulation.antt =====
-- `compute_simulation_diffs` of packages/openterms-py/scripts/generate_corpus.py.
pub mod Alike
pub mod Differences
use openterms.Prelude.{
  ℕ, suc, String, Bool, true, false, ◌&&◌, none, some, List, [], ◌∷◌, ◌==◌, ◌++◌, if◌then◌else◌,
}
use openterms.Python.{
  Value, dict, Fields, value_error, Result, ok, fail, ◌>>=◌, subscript, join_text, lookup, insert,
}
use openterms.Policy.Clock.{Timed}
use openterms.Policy.Types.{Decision, outcome_text}
use openterms.Corpus.Decisions.{CorpusDecision, Evaluator, evaluate_corpus}

-- v == w for two lists of texts
unfoldable pub same_texts : List String → List String → Bool
same_texts [] [] = true
same_texts (s ∷ ss) (t ∷ ts) = s == t && same_texts ss ts
same_texts _ _ = false

-- the test of the loop
unfoldable pub decided_alike : Decision → Decision → Bool
unfolding outcome_text same_texts
decided_alike d1 d2 =
    outcome_text d1.decision == outcome_text d2.decision
    && same_texts d1.triggered_rules d2.triggered_rules

-- an entry of the differences, which has the outcome and the triggered rules of the two decisions
pub record SimulationDiff : Type 0 where
  pub receipt_hash : Value
  pub v1 : Decision
  pub v2 : Decision

-- counter[key]
unfoldable pub tally : List (String × ℕ) → String → ℕ
unfolding lookup
tally counter key = elim (lookup counter key) [ none ↦ 0 | some n ↦ n ]

-- counter[key] += 1
unfoldable pub count_one : String → List (String × ℕ) → List (String × ℕ)
unfolding tally insert
count_one key counter = insert key (suc (tally counter key)) counter

-- f"{d1['decision']}->{d2['decision']}"
unfoldable pub transition : Decision → Decision → String
unfolding outcome_text join_text
transition d1 d2 = join_text (outcome_text d1.decision ∷ "->" ∷ outcome_text d2.decision ∷ [])

-- one round of the loop
unfoldable pub compare_one :
    Fields
    → Decision
    → Decision
    → List SimulationDiff × List (String × ℕ)
    → Result (List SimulationDiff × List (String × ℕ))
unfolding decided_alike transition count_one subscript
compare_one r d1 d2 (diffs, by_outcome) =
    if decided_alike d1 d2 then ok (diffs, by_outcome) else (do
      hash ← subscript (dict r) "canonical_hash"
      ok (
        diffs ++ record { receipt_hash = hash; v1 = d1; v2 = d2 } ∷ [],
        count_one (transition d1 d2) by_outcome,
      ))

-- The loop of `compute_simulation_diffs`, over zip(receipts, v1_decisions, v2_decisions, strict=True); the
-- decisions under the second policy are those of `evaluate_corpus`.
unfoldable pub simulation_loop :
    List Fields
    → List CorpusDecision
    → List CorpusDecision
    → List SimulationDiff × List (String × ℕ)
    → Result (List SimulationDiff × List (String × ℕ))
unfolding compare_one
simulation_loop [] [] [] so_far = ok so_far
simulation_loop (r ∷ receipts) (d1 ∷ v1) (d2 ∷ v2) so_far = do
  next ← compare_one r d1.made d2.made so_far
  simulation_loop receipts v1 v2 next
simulation_loop _ _ _ so_far = fail (value_error "zip() arguments differ in length")

-- `compute_simulation_diffs`
unfoldable pub compute_simulation_diffs :
    Evaluator
    → List Fields
    → List CorpusDecision
    → Fields
    → Timed (List SimulationDiff × List (String × ℕ))
unfolding evaluate_corpus simulation_loop
compute_simulation_diffs ev receipts v1_decisions policy_v2 n =
    let (v2_decisions, n') = evaluate_corpus ev receipts policy_v2 n in
    (v2_decisions >>= (λ v2. simulation_loop receipts v1_decisions v2 ([], [])), n')
