-- ===== src/Corpus/Simulation/Differences.antt =====
-- What `compute_simulation_diffs` of packages/openterms-py/scripts/generate_corpus.py counts.
use mathlib.Core.Path.{subst}
use mathlib.Core.Bool.{false≢true}
use mathlib.Core.List.{append-nil, append_assoc}
use openterms.Prelude.{
  ◌≡◌, refl, sym, ap, ◌∙◌, inl, Option-cases, some, inr, ℕ, suc, ◌+◌, String, false, List, [], ◌∷◌,
  ◌++◌, ◌==◌, arith, Bool-cases, eq_iff, if◌then◌else◌,
}
use openterms.Python.{
  Value, dict, get, join_text, Fields, ok, fail_ok, bind-ok, ok-injective, subscript, lookup,
  lookup-insert_same, lookup-insert_other,
}
use openterms.Policy.Types.{DecisionOutcome, allow, escalate, deny, outcome_text, Decision}
use openterms.Corpus.Decisions.{CorpusDecision, Evaluator, evaluate_corpus}
use openterms.Corpus.Simulation.{
  decided_alike, SimulationDiff, tally, count_one, transition, compare_one, simulation_loop,
  compute_simulation_diffs,
}
use openterms.Corpus.Simulation.Alike.{Alike, decided_alike-Alike, Alike-decided_alike}

-- The entries for the receipts whose outcome or triggered rules differ, in order, each with the hash
-- of the receipt and its two decisions.
pub data Differences
    : List Fields → List CorpusDecision → List CorpusDecision → List SimulationDiff → Type 0 where
  none_left : Differences [] [] [] []
  as_before :
      {r : Fields} {receipts : List Fields} {d1 d2 : CorpusDecision} {v1 v2 : List CorpusDecision}
      {diffs : List SimulationDiff}
      → Alike d1.made d2.made
      → Differences receipts v1 v2 diffs
      → Differences (r ∷ receipts) (d1 ∷ v1) (d2 ∷ v2) diffs
  decided_otherwise :
      {r : Fields} {receipts : List Fields} {d1 d2 : CorpusDecision} {v1 v2 : List CorpusDecision}
      {diffs : List SimulationDiff} (hash : Value)
      → ¬ Alike d1.made d2.made
      → get r "canonical_hash" ≡ some hash
      → Differences receipts v1 v2 diffs
      → Differences
          (r ∷ receipts)
          (d1 ∷ v1)
          (d2 ∷ v2)
          (record { receipt_hash = hash; v1 = d1.made; v2 = d2.made } ∷ diffs)

-- the key of a transition
abbrev pub arrow : DecisionOutcome → DecisionOutcome → String
arrow allow allow = "allow->allow"
arrow allow escalate = "allow->escalate"
arrow allow deny = "allow->deny"
arrow escalate allow = "escalate->allow"
arrow escalate escalate = "escalate->escalate"
arrow escalate deny = "escalate->deny"
arrow deny allow = "deny->allow"
arrow deny escalate = "deny->escalate"
arrow deny deny = "deny->deny"

-- how many entries go from one outcome to another
abbrev pub number : String → List SimulationDiff → ℕ
number key [] = 0
number key (d ∷ diffs) =
    (if arrow d.v1.decision d.v2.decision == key then 1 else 0) + number key diffs

outcome_text-arrow :
    (o p : DecisionOutcome) → join_text (outcome_text o ∷ "->" ∷ outcome_text p ∷ []) ≡ arrow o p
unfolding outcome_text join_text
outcome_text-arrow allow allow = refl
outcome_text-arrow allow escalate = refl
outcome_text-arrow allow deny = refl
outcome_text-arrow escalate allow = refl
outcome_text-arrow escalate escalate = refl
outcome_text-arrow escalate deny = refl
outcome_text-arrow deny allow = refl
outcome_text-arrow deny escalate = refl
outcome_text-arrow deny deny = refl

tally-same :
    (key : String) (counter : List (String × ℕ))
    → tally (count_one key counter) key ≡ suc (tally counter key)
unfolding count_one
tally-same key counter = rw (tally, lookup-insert_same key (suc (tally counter key)) counter) refl

tally-other :
    (key k : String) (counter : List (String × ℕ))
    → (key == k) ≡ false
    → tally (count_one key counter) k ≡ tally counter k
unfolding count_one
tally-other key k counter apart =
    rw (tally, lookup-insert_other key (suc (tally counter key)) counter k apart) refl

tally-count_one :
    (key k : String) (counter : List (String × ℕ))
    → tally (count_one key counter) k ≡ (if key == k then 1 else 0) + tally counter k
tally-count_one key k counter = elim (Bool-cases (key == k)) [
  | inl same ↦ rw (same, sym ((eq_iff key k).0 same)) (omega (arith, tally-same key counter))
  | inr differ ↦ rw differ (omega (arith, tally-other key k counter differ))
]

tally-transition :
    (d1 d2 : Decision) (key : String) (counter : List (String × ℕ))
    → tally (count_one (transition d1 d2) counter) key
      ≡ (if arrow d1.decision d2.decision == key then 1 else 0) + tally counter key
unfolding transition
tally-transition d1 d2 key counter =
    subst
      (λ k.
        tally (count_one (transition d1 d2) counter) key
        ≡ (if k == key then 1 else 0) + tally counter key)
      (outcome_text-arrow d1.decision d2.decision) (tally-count_one (transition d1 d2) key counter)

number-append :
    (key : String) (ds es : List SimulationDiff)
    → number key (ds ++ es) ≡ number key ds + number key es
number-append key [] es = omega arith
number-append key (d ∷ ds) es = omega (arith, number-append key ds es)

abbrev Counts : List SimulationDiff → List (String × ℕ) → Type 0
Counts diffs by_outcome = (key : String) → tally by_outcome key ≡ number key diffs

-- the entry for one receipt, if there is one
data Entry (r : Fields) (d1 d2 : Decision) : List SimulationDiff → Type 0 where
  no_entry : Alike d1 d2 → Entry r d1 d2 []
  entry :
      (hash : Value)
      → ¬ Alike d1 d2
      → get r "canonical_hash" ≡ some hash
      → Entry r d1 d2 (record { receipt_hash = hash; v1 = d1; v2 = d2 } ∷ [])

Entry-more :
    {r : Fields} {receipts : List Fields} {d1 d2 : CorpusDecision} {v1 v2 : List CorpusDecision}
    {here later : List SimulationDiff}
    → Entry r d1.made d2.made here
    → Differences receipts v1 v2 later
    → Differences (r ∷ receipts) (d1 ∷ v1) (d2 ∷ v2) (here ++ later)
Entry-more (Entry.no_entry same) rest = Differences.as_before same rest
Entry-more (Entry.entry hash apart found) rest = Differences.decided_otherwise hash apart found rest

subscript-get :
    (r : Fields) (k : String) {v : Value} → subscript (dict r) k ≡ ok v → get r k ≡ some v
unfolding subscript
subscript-get r k returned = elim (Option-cases (get r k)) [
  | inl absent ↦ absurd (fail_ok (rw (subscript, absent) at returned))
  | inr (w, found) ↦ found ∙ ap some (ok-injective (rw (subscript, found) at returned))
]

-- one round adds the entry of a receipt, and counts it
Round :
    Fields
    → Decision
    → Decision
    → List SimulationDiff
    → List SimulationDiff × List (String × ℕ)
    → Type 0
Round r d1 d2 diffs next =
    (here : List SimulationDiff) × Entry r d1 d2 here
    × (next.0 ≡ diffs ++ here)
    × Counts next.0 next.1

compare_one-Round :
    (r : Fields) (d1 d2 : Decision) (diffs : List SimulationDiff) (by_outcome : List (String × ℕ))
    {next : List SimulationDiff × List (String × ℕ)}
    → compare_one r d1 d2 (diffs, by_outcome) ≡ ok next
    → Counts diffs by_outcome
    → Round r d1 d2 diffs next
unfolding Round compare_one
compare_one-Round r d1 d2 diffs by_outcome {next = next} returned counts =
    elim (Bool-cases (decided_alike d1 d2)) [
      | inl same ↦
          subst (Round r d1 d2 diffs) (ok-injective (rw (compare_one, same) at returned))
            ([], Entry.no_entry (decided_alike-Alike d1 d2 same), sym (append-nil diffs), counts)
      | inr apart ↦
          (let (hash, hash_of, rest) =
              bind-ok (subscript (dict r) "canonical_hash") _
                (rw (compare_one, apart) at returned) in
            let d : SimulationDiff = record { receipt_hash = hash; v1 = d1; v2 = d2 } in
            subst (Round r d1 d2 diffs) (ok-injective rest) (
              d ∷ [],
              Entry.entry hash (λ same. false≢true (sym apart ∙ Alike-decided_alike d1 d2 same))
                  (subscript-get r "canonical_hash" hash_of),
              refl,
              λ key. omega (
                arith,
                tally-transition d1 d2 key by_outcome,
                number-append key diffs (d ∷ []),
                counts key,
              ),
            ))
    ]

simulation_loop-differences :
    (receipts : List Fields) (v1 v2 : List CorpusDecision) (diffs : List SimulationDiff)
    (by_outcome : List (String × ℕ)) {result : List SimulationDiff × List (String × ℕ)}
    → simulation_loop receipts v1 v2 (diffs, by_outcome) ≡ ok result
    → Counts diffs by_outcome
    → (more : List SimulationDiff) × Differences receipts v1 v2 more
      × (result.0 ≡ diffs ++ more)
      × Counts result.0 result.1
unfolding simulation_loop Round
simulation_loop-differences [] [] [] diffs by_outcome returned counts =
    let same = ok-injective returned in
    (
      [],
      Differences.none_left,
      ap (λ p. p.0) (sym same) ∙ sym (append-nil diffs),
      subst (λ p. Counts p.0 p.1) same counts,
    )
simulation_loop-differences (r ∷ receipts) (d1 ∷ v1) (d2 ∷ v2) diffs by_outcome returned counts =
    let (next, compared, rest) =
      bind-ok (compare_one r d1.made d2.made (diffs, by_outcome)) _ returned in
    let (here, here_of, grown, counts') =
      compare_one-Round r d1.made d2.made diffs by_outcome compared counts in
    let (later, later_of, whole, counts'') =
      simulation_loop-differences receipts v1 v2 next.0 next.1 rest counts' in
    (
      here ++ later,
      Entry-more here_of later_of,
      whole ∙ (ap (λ ds. ds ++ later) grown ∙ append_assoc diffs here later),
      counts'',
    )
simulation_loop-differences [] [] (_ ∷ _) diffs by_outcome returned counts =
    absurd (fail_ok returned)
simulation_loop-differences [] (_ ∷ _) _ diffs by_outcome returned counts =
    absurd (fail_ok returned)
simulation_loop-differences (_ ∷ _) [] _ diffs by_outcome returned counts =
    absurd (fail_ok returned)
simulation_loop-differences (_ ∷ _) (_ ∷ _) [] diffs by_outcome returned counts =
    absurd (fail_ok returned)

-- When compute_simulation_diffs returns, its entries are for the receipts whose outcome or
-- triggered rules differ between the given decisions and those of evaluate_corpus under the second
-- policy, in order, each with the hash of the receipt and the two decisions, and each transition
-- is counted as often as there are such entries.
pub compute_simulation_diffs-differences :
    (ev : Evaluator) (receipts : List Fields) (v1_decisions : List CorpusDecision)
    (policy_v2 : Fields) (n : ℕ) (diffs : List SimulationDiff) (by_outcome : List (String × ℕ))
    (n' : ℕ)
    → compute_simulation_diffs ev receipts v1_decisions policy_v2 n ≡ (ok (diffs, by_outcome), n')
    → (v2_decisions : List CorpusDecision) × ((evaluate_corpus ev receipts policy_v2 n).0
        ≡ ok v2_decisions)
      × Differences receipts v1_decisions v2_decisions diffs
      × ((key : String) → tally by_outcome key ≡ number key diffs)
unfolding compute_simulation_diffs tally lookup
compute_simulation_diffs-differences ev receipts v1_decisions policy_v2 n diffs by_outcome n'
      returned =
    let (v2, evaluated, rest) =
      bind-ok (evaluate_corpus ev receipts policy_v2 n).0 _ (ap (λ p. p.0) returned) in
    let (more, more_of, whole, counts) =
      simulation_loop-differences receipts v1_decisions v2 [] [] rest (λ key. refl) in
    (v2, evaluated, subst (Differences receipts v1_decisions v2) (sym whole) more_of, counts)
