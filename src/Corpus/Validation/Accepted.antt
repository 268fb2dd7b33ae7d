-- ===== src/Corpus/Validation/Accepted.antt =====
-- What a corpus has that `validate_corpus` of packages/openterms-py/scripts/generate_corpus.py accepts.
use openterms.Prelude.{◌≡◌, ap, inl, inr, ℕ, ◌<◌, true, false, some, List, [], length, get_elem?}
use openterms.Python.{
  Value, dict, Fields, Builtins, ok, fail_ok, bind-ok, get, subscript, Result-cases,
}
use openterms.Receipts.Crypto.{Crypto}
use openterms.Receipts.Verification.{VerifyResult, verify_receipt}
use openterms.Corpus.Decisions.{CorpusDecision, Evaluator, evaluate_corpus}
use openterms.Corpus.Links.{parent_of, check_chains}
use openterms.Corpus.Checks.{
  verify_all, check_reproduced, Floats, check_hashes, check_shares, check_firings, outcome_counts,
  rule_firings,
}
use openterms.Corpus.RuleIds.{items_of}
use openterms.Corpus.Chains.Checked.{Precedes, check_chains-Precedes}
use openterms.Corpus.Validation.{Stats, check_corpus, check_against, validate_corpus}
use openterms.Corpus.Validation.Steps.{
  SameDecisions, verify_all-valid, check_reproduced-Same, check_hashes-differ,
}

-- A receipt of a corpus that was accepted: its signature is valid, its parent comes earlier, and its hash
-- differs from those before it.
pub record Sound (py : Builtins) (crypto : Crypto) (receipts : List Fields) (jwks : Fields) (i : ℕ)
    (r : Fields) : Type 0 where
  pub signature :
      (result : VerifyResult) × (verify_receipt py crypto r jwks ≡ ok result)
      × (result.valid ≡ true)
  pub parent : (parent : Value) × (parent_of r ≡ ok parent) × Precedes py receipts i parent
  pub hash :
      (j : ℕ) (q : Fields)
      → j < i
      → get_elem? receipts j ≡ some q
      → (v : Value) × (w : Value) × (get q "canonical_hash" ≡ some v)
        × (get r "canonical_hash" ≡ some w)
        × (py.equals w v ≡ false)

check_corpus-passed :
    (py : Builtins) (floats : Floats) (receipts : List Fields) (decisions : List CorpusDecision)
    (policy_v1 : Fields) {stats : Stats}
    → check_corpus py floats receipts decisions policy_v1 ≡ ok stats
    → (check_hashes py receipts ≡ ok tt) × (check_chains py receipts ≡ ok tt)
unfolding check_corpus
check_corpus-passed py floats receipts decisions policy_v1 returned =
    let (_, _, r1) =
      bind-ok (check_shares floats (outcome_counts decisions []) (length receipts)) _ returned in
    let (rules, _, r2) = bind-ok (subscript (dict policy_v1) "rules") _ r1 in
    let (items, _, r3) = bind-ok (items_of rules) _ r2 in
    let (_, _, r4) = bind-ok (check_firings py (rule_firings decisions []) items) _ r3 in
    let (_, hashes, r5) = bind-ok (check_hashes py receipts) _ r4 in
    let (_, chains, _) = bind-ok (check_chains py receipts) _ r5 in (hashes, chains)

-- When validate_corpus returns, the decisions equal those that the evaluation gives again, and
-- every receipt has a valid signature, a parent that is none or equals the id of an earlier
-- receipt, and a hash that differs from those before it.
pub validate_corpus-Sound :
    (ev : Evaluator) (crypto : Crypto) (floats : Floats) (receipts : List Fields)
    (decisions : List CorpusDecision) (jwks policy_v1 : Fields) (n : ℕ) (stats : Stats) (n' : ℕ)
    → validate_corpus ev crypto floats receipts decisions jwks policy_v1 n ≡ (ok stats, n')
    → ((again : List CorpusDecision) × ((evaluate_corpus ev receipts policy_v1 n).0 ≡ ok again)
        × SameDecisions ev.py again decisions)
      × ((i : ℕ) (r : Fields)
          → get_elem? receipts i ≡ some r
          → Sound ev.py crypto receipts jwks i r)
unfolding validate_corpus check_against
validate_corpus-Sound ev crypto floats receipts decisions jwks policy_v1 n stats n' returned =
    elim (Result-cases (verify_all ev.py crypto jwks receipts)) [
      | inr (e, refused) ↦
          absurd (fail_ok (ap (λ p. p.0) (rw (validate_corpus, refused) at returned)))
      | inl (_, verified) ↦
          (let (again, made, r1) =
              bind-ok (evaluate_corpus ev receipts policy_v1 n).0 _
                (ap (λ p. p.0) (rw (validate_corpus, verified) at returned)) in
            let (_, reproduced, r2) = bind-ok (check_reproduced ev.py again decisions) _ r1 in
            let (hashes, chains) =
              check_corpus-passed ev.py floats receipts decisions policy_v1 r2 in
            (
              (again, made, check_reproduced-Same ev.py again decisions reproduced),
              λ i r at. record {
                signature = verify_all-valid ev.py crypto jwks receipts i r verified at;
                parent = check_chains-Precedes ev.py receipts i r chains at;
                hash = λ j q before earlier.
                    check_hashes-differ ev.py receipts j i q r hashes before earlier at;
              },
            ))
    ]
