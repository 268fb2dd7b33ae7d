-- ===== src/Corpus/Checks.antt =====
-- The steps of `validate_corpus` of packages/openterms-py/scripts/generate_corpus.py.
use openterms.Prelude.{
  ℕ, suc, String, Bool, true, false, not, ◌||◌, Option, none, some, List, [], ◌∷◌, ltb, eqb,
  if◌then◌else◌,
}
use openterms.Prelude.Int.{pos}
use openterms.Python.{
  Value, int, str, dict, Values, nil, cons, Fields, Builtins, value_error, assertion_error,
  zero_division_error, Result, ok, fail, ◌>>=◌, ◌>>◌, ensure, subscript, join_text,
}
use openterms.Policy.Types.{outcome_text}
use openterms.Receipts.Crypto.{Crypto}
use openterms.Receipts.Verification.{VerifyResult, verify_receipt}
use openterms.Corpus.Decisions.{CorpusDecision, decision_value}
use openterms.Corpus.Simulation.{tally, count_one}
use openterms.Corpus.Links.{hashable}

-- {result.error} in a message
abbrev pub error_text : Option String → String
error_text none = "None"
error_text (some e) = e

unfoldable pub ensure_valid : Builtins → Fields → VerifyResult → Result (Unit {0})
unfolding subscript join_text
ensure_valid py r result = if result.valid then ok tt else (do
  id ← subscript (dict r) "receipt_id"
  fail (
      assertion_error (
        join_text (
          "signature verification failed for "
          ∷ py.str_of id
          ∷ ": "
          ∷ error_text result.error
          ∷ []))))

-- step 1: the signatures
unfoldable pub verify_all : Builtins → Crypto → Fields → List Fields → Result (Unit {0})
unfolding ensure_valid
verify_all py crypto jwks [] = ok tt
verify_all py crypto jwks (r ∷ receipts) = do
  result ← verify_receipt py crypto r jwks
  ensure_valid py r result
  verify_all py crypto jwks receipts

-- reproduced == decisions
unfoldable pub same_decisions : Builtins → List CorpusDecision → List CorpusDecision → Bool
unfolding decision_value
same_decisions py [] [] = true
same_decisions py (a ∷ as') (b ∷ bs) =
    let rest = same_decisions py as' bs in
    if py.equals (decision_value a) (decision_value b) then rest else false
same_decisions py _ _ = false

-- the loop for the first difference, and the exception behind it
unfoldable pub first_difference :
    Builtins → ℕ → List CorpusDecision → List CorpusDecision → Result (Unit {0})
unfolding decision_value join_text
first_difference py i [] [] =
    fail (assertion_error "decision reproducibility failed (length mismatch)")
first_difference py i (a ∷ as') (b ∷ bs) =
    let rest = first_difference py (suc i) as' bs in
    if py.equals (decision_value a) (decision_value b)
    then rest
    else fail (
        assertion_error (
          join_text (
            "decision reproducibility failed at index "
            ∷ py.str_of (int (pos i))
            ∷ ": stored="
            ∷ py.repr_of (decision_value b)
            ∷ " reproduced="
            ∷ py.repr_of (decision_value a)
            ∷ [])))
first_difference py i _ _ = fail (value_error "zip() arguments differ in length")

-- step 2: the decisions, against those that were reproduced
unfoldable pub check_reproduced :
    Builtins → List CorpusDecision → List CorpusDecision → Result (Unit {0})
unfolding same_decisions first_difference
check_reproduced py reproduced decisions =
    if same_decisions py reproduced decisions
    then ok tt
    else first_difference py 0 reproduced decisions

-- Floating-point: abs(count / n - frac) > 0.05 for n that is not 0, and f"{count / n:.3f}".
pub record Floats : Type 0 where
  pub is_far : ℕ → ℕ → String → Bool
  pub share_text : ℕ → ℕ → String

unfoldable pub outcome_counts : List CorpusDecision → List (String × ℕ) → List (String × ℕ)
unfolding outcome_text count_one
outcome_counts [] counter = counter
outcome_counts (d ∷ decisions) counter =
    outcome_counts decisions (count_one (outcome_text d.made.decision) counter)

-- one round of the loop over `target`
unfoldable pub check_share :
    Floats → List (String × ℕ) → ℕ → String → String → String → Result (Unit {0})
unfolding tally join_text
check_share floats counts n outcome frac frac_text =
    if eqb n 0
    then fail zero_division_error
    else if floats.is_far (tally counts outcome) n frac
    then fail (
        assertion_error (
          join_text (
            "decision distribution out of tolerance for "
            ∷ outcome
            ∷ ": actual="
            ∷ floats.share_text (tally counts outcome) n
            ∷ " target="
            ∷ frac_text
            ∷ [])))
    else ok tt

unfoldable pub check_shares : Floats → List (String × ℕ) → ℕ → Result (Unit {0})
unfolding check_share
check_shares floats counts n = do
  check_share floats counts n "allow" "0.7" "0.700"
  check_share floats counts n "deny" "0.2" "0.200"
  check_share floats counts n "escalate" "0.1" "0.100"

unfoldable pub count_all : List String → List (String × ℕ) → List (String × ℕ)
unfolding count_one
count_all [] counter = counter
count_all (s ∷ ss) counter = count_all ss (count_one s counter)

unfoldable pub rule_firings : List CorpusDecision → List (String × ℕ) → List (String × ℕ)
unfolding count_all
rule_firings [] counter = counter
rule_firings (d ∷ decisions) counter =
    rule_firings decisions (count_all d.made.triggered_rules counter)

-- rule_firings.get(rule["id"], 0), whose keys are texts
unfoldable pub firings_of : List (String × ℕ) → Value → Result ℕ
unfolding tally hashable
firings_of firings (str id) = ok (tally firings id)
firings_of firings v = do key ← hashable v; ok 0

unfoldable pub check_firings : Builtins → List (String × ℕ) → Values → Result (Unit {0})
unfolding subscript firings_of join_text
check_firings py firings nil = ok tt
check_firings py firings (cons rule rules) = do
  id ← subscript rule "id"
  n ← firings_of firings id
  ensure (not (ltb n 10)) (
      assertion_error (
        join_text (
          "rule "
          ∷ py.str_of id
          ∷ " fired only "
          ∷ py.str_of (int (pos n))
          ∷ " times (need ≥10)"
          ∷ [])))
  check_firings py firings rules

-- [r["canonical_hash"] for r in receipts]
unfoldable pub hashes_of : List Fields → Result (List Value)
unfolding subscript
hashes_of [] = ok []
hashes_of (r ∷ receipts) = do
  hash ← subscript (dict r) "canonical_hash"
  hashes ← hashes_of receipts
  ok (hash ∷ hashes)

unfoldable pub all_hashable : List Value → Result (Unit {0})
unfolding hashable
all_hashable [] = ok tt
all_hashable (v ∷ vs) = do key ← hashable v; all_hashable vs

unfoldable pub value_in : Builtins → Value → List Value → Bool
value_in py v [] = false
value_in py v (w ∷ ws) = py.equals w v || value_in py v ws

-- len(set(vs)) == len(vs)
unfoldable pub all_different : Builtins → List Value → Bool
unfolding value_in
all_different py [] = true
all_different py (v ∷ vs) =
    let rest = all_different py vs in if value_in py v vs then false else rest

-- step 4: the hashes
unfoldable pub check_hashes : Builtins → List Fields → Result (Unit {0})
unfolding hashes_of all_hashable all_different
check_hashes py receipts = do
  hashes ← hashes_of receipts
  all_hashable hashes
  ensure (all_different py hashes) (assertion_error "duplicate canonical_hash values in corpus")
