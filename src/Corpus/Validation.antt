-- ===== src/Corpus/Validation.antt =====
-- `validate_corpus` of packages/openterms-py/scripts/generate_corpus.py.
pub mod Steps
pub mod Accepted
use openterms.Prelude.{ℕ, suc, String, List, [], ◌∷◌, length, if◌then◌else◌}
use openterms.Python.{Value, dict, Fields, Builtins, Result, ok, fail, ◌>>=◌, ◌>>◌, subscript}
use openterms.Policy.Clock.{Timed}
use openterms.Receipts.Crypto.{Crypto}
use openterms.Corpus.RuleIds.{items_of}
use openterms.Corpus.Decisions.{CorpusDecision, Evaluator, evaluate_corpus}
use openterms.Corpus.Links.{hashable, check_chains}
use openterms.Corpus.Checks.{
  verify_all, check_reproduced, Floats, outcome_counts, check_shares, rule_firings, check_firings,
  check_hashes,
}

-- what `validate_corpus` returns
pub record Stats : Type 0 where
  pub outcomes : List (String × ℕ)
  pub firings : List (String × ℕ)
  pub action_types : List (Value × ℕ)

-- counter[v] += 1
unfoldable pub count_value : Builtins → Value → List (Value × ℕ) → List (Value × ℕ)
count_value py v [] = (v, 1) ∷ []
count_value py v ((w, n) ∷ counter) =
    let rest = count_value py v counter in
    if py.equals w v then (w, suc n) ∷ counter else (w, n) ∷ rest

-- Counter(r["action_type"] for r in receipts)
unfoldable pub action_type_counts :
    Builtins → List Fields → List (Value × ℕ) → Result (List (Value × ℕ))
unfolding subscript hashable count_value
action_type_counts py [] counter = ok counter
action_type_counts py (r ∷ receipts) counter = do
  action_type ← subscript (dict r) "action_type"
  key ← hashable action_type
  action_type_counts py receipts (count_value py key counter)

-- steps 3 to 5, and the result
unfoldable pub check_corpus :
    Builtins → Floats → List Fields → List CorpusDecision → Fields → Result Stats
unfolding outcome_counts check_shares rule_firings subscript items_of check_firings check_hashes
    check_chains action_type_counts
check_corpus py floats receipts decisions policy_v1 = do
  let counts = outcome_counts decisions []
  check_shares floats counts (length receipts)
  let firings = rule_firings decisions []
  rules ← subscript (dict policy_v1) "rules"
  items ← items_of rules
  check_firings py firings items
  check_hashes py receipts
  check_chains py receipts
  action_types ← action_type_counts py receipts []
  ok (record { outcomes = counts; firings = firings; action_types = action_types })

-- `validate_corpus` behind step 1, from how `evaluate_corpus` ended
unfoldable pub check_against :
    Builtins
    → Floats
    → List Fields
    → List CorpusDecision
    → Fields
    → Result (List CorpusDecision)
    → Result Stats
unfolding check_reproduced check_corpus
check_against py floats receipts decisions policy_v1 reproduced = do
  again ← reproduced
  check_reproduced py again decisions
  check_corpus py floats receipts decisions policy_v1

-- `validate_corpus`
unfoldable pub validate_corpus :
    Evaluator → Crypto → Floats → List Fields → List CorpusDecision → Fields → Fields → Timed Stats
unfolding verify_all evaluate_corpus check_against
validate_corpus ev crypto floats receipts decisions jwks policy_v1 n =
    let (reproduced, n') = evaluate_corpus ev receipts policy_v1 n in
    elim (verify_all ev.py crypto jwks receipts) [
      | fail e ↦ (fail e, n)
      | ok _ ↦ (check_against ev.py floats receipts decisions policy_v1 reproduced, n')
    ]
