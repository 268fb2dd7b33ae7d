-- ===== src/Corpus/Validation/Steps.antt =====
-- What the steps of `validate_corpus` of packages/openterms-py/scripts/generate_corpus.py make sure of.
use mathlib.Core.Bool.{false≢true}
use openterms.Prelude.{
  ◌≡◌, ◌≢◌, refl, sym, ap, ◌∙◌, inl, inr, ℕ, zero, suc, ◌<◌, Bool, true, false, some, List, [], ◌∷◌,
  get_elem?, arith, Bool-cases, some-injective, some-none, or-false, if◌then◌else◌,
}
use openterms.Python.{
  Value, dict, Fields, Builtins, Result, ok, fail_ok, bind-ok, ok-injective, get, subscript,
  ensure-passed,
}
use openterms.Receipts.Crypto.{Crypto}
use openterms.Receipts.Verification.{VerifyResult, verify_receipt}
use openterms.Corpus.Decisions.{CorpusDecision, decision_value}
use openterms.Corpus.Checks.{
  ensure_valid, verify_all, same_decisions, first_difference, check_reproduced, hashes_of,
  all_hashable, value_in, all_different, check_hashes,
}
use openterms.Corpus.Chains.Checked.{subscript-get}

pub data SameDecisions (py : Builtins) : List CorpusDecision → List CorpusDecision → Type 0 where
  both_empty : SameDecisions py [] []
  both_next :
      {a b : CorpusDecision} {as' bs : List CorpusDecision}
      → py.equals (decision_value a) (decision_value b) ≡ true
      → SameDecisions py as' bs
      → SameDecisions py (a ∷ as') (b ∷ bs)

module _ (py : Builtins) where
  ensure-true :
      (b : Bool) {raised : Result (Unit {0})}
      → (if b then ok tt else raised) ≡ ok tt
      → raised ≢ ok tt
      → b ≡ true
  ensure-true true passed never = refl
  ensure-true false passed never = absurd (never passed)

  ensure_valid-valid :
      (r : Fields) (result : VerifyResult) → ensure_valid py r result ≡ ok tt → result.valid ≡ true
  unfolding ensure_valid
  ensure_valid-valid r result passed = ensure-true result.valid passed (λ failed.
      let (id, _, rest) = bind-ok (subscript (dict r) "receipt_id") _ failed in fail_ok rest)

  pub verify_all-valid :
      (crypto : Crypto) (jwks : Fields) (receipts : List Fields) (k : ℕ) (r : Fields)
      → verify_all py crypto jwks receipts ≡ ok tt
      → get_elem? receipts k ≡ some r
      → (result : VerifyResult) × (verify_receipt py crypto r jwks ≡ ok result)
        × (result.valid ≡ true)
  unfolding verify_all
  verify_all-valid crypto jwks [] k r passed at = absurd (some-none (sym at))
  verify_all-valid crypto jwks (q ∷ receipts) zero r passed at =
      let (result, verified, rest) = bind-ok (verify_receipt py crypto q jwks) _ passed in
      let (_, valid, _) = bind-ok (ensure_valid py q result) _ rest in
      (
        result,
        ap (λ s. verify_receipt py crypto s jwks) (sym (some-injective at)) ∙ verified,
        ensure_valid-valid q result valid,
      )
  verify_all-valid crypto jwks (q ∷ receipts) (suc k) r passed at =
      let (result, verified, rest) = bind-ok (verify_receipt py crypto q jwks) _ passed in
      let (_, valid, rest') = bind-ok (ensure_valid py q result) _ rest in
      verify_all-valid crypto jwks receipts k r rest' at

  same_decisions-Same :
      (a b : List CorpusDecision) → same_decisions py a b ≡ true → SameDecisions py a b
  unfolding same_decisions
  same_decisions-Same [] [] same = both_empty
  same_decisions-Same [] (b ∷ bs) same = absurd (false≢true same)
  same_decisions-Same (a ∷ as') [] same = absurd (false≢true same)
  same_decisions-Same (a ∷ as') (b ∷ bs) same =
      elim (Bool-cases (py.equals (decision_value a) (decision_value b))) [
        | inl equal ↦ both_next equal (same_decisions-Same as' bs (rw equal at same))
        | inr differ ↦ absurd (false≢true (rw differ at same))
      ]

  -- the search for a difference always raises
  first_difference-raises : (i : ℕ) (a b : List CorpusDecision) → first_difference py i a b ≢ ok tt
  unfolding first_difference
  first_difference-raises i [] [] passed = fail_ok passed
  first_difference-raises i [] (b ∷ bs) passed = fail_ok passed
  first_difference-raises i (a ∷ as') [] passed = fail_ok passed
  first_difference-raises i (a ∷ as') (b ∷ bs) passed =
      elim (Bool-cases (py.equals (decision_value a) (decision_value b))) [
        | inl equal ↦ first_difference-raises (suc i) as' bs (rw equal at passed)
        | inr differ ↦ fail_ok (rw differ at passed)
      ]

  pub check_reproduced-Same :
      (a b : List CorpusDecision) → check_reproduced py a b ≡ ok tt → SameDecisions py a b
  unfolding check_reproduced
  check_reproduced-Same a b passed =
      same_decisions-Same a b
        (ensure-true (same_decisions py a b) passed (first_difference-raises 0 a b))

  hashes_of-at :
      (receipts : List Fields) (hashes : List Value) (k : ℕ) (r : Fields)
      → hashes_of receipts ≡ ok hashes
      → get_elem? receipts k ≡ some r
      → (hash : Value) × (get r "canonical_hash" ≡ some hash) × (get_elem? hashes k ≡ some hash)
  unfolding hashes_of
  hashes_of-at [] hashes k r collected at = absurd (some-none (sym at))
  hashes_of-at (q ∷ receipts) hashes zero r collected at =
      let (hash, hash_of, rest) = bind-ok (subscript (dict q) "canonical_hash") _ collected in
      let (more, collected', rest') = bind-ok (hashes_of receipts) _ rest in
      (
        hash,
        ap (λ s. get s "canonical_hash") (sym (some-injective at))
            ∙ subscript-get q "canonical_hash" hash_of,
        ap (λ vs. get_elem? vs 0) (sym (ok-injective rest')),
      )
  hashes_of-at (q ∷ receipts) hashes (suc k) r collected at =
      let (hash, hash_of, rest) = bind-ok (subscript (dict q) "canonical_hash") _ collected in
      let (more, collected', rest') = bind-ok (hashes_of receipts) _ rest in
      let (found, found_of, there) = hashes_of-at receipts more k r collected' at in
      (found, found_of, ap (λ vs. get_elem? vs (suc k)) (sym (ok-injective rest')) ∙ there)

  value_in-differs :
      (v w : Value) (vs : List Value) (k : ℕ)
      → value_in py v vs ≡ false
      → get_elem? vs k ≡ some w
      → py.equals w v ≡ false
  unfolding value_in
  value_in-differs v w [] k absent at = absurd (some-none (sym at))
  value_in-differs v w (u ∷ vs) zero absent at =
      ap (λ x. py.equals x v) (sym (some-injective at)) ∙ (or-false (py.equals u v) _ absent).0
  value_in-differs v w (u ∷ vs) (suc k) absent at =
      value_in-differs v w vs k (or-false (py.equals u v) _ absent).1 at

  first_or_later :
      (u : Value) (vs : List Value) (i j : ℕ) (v w : Value)
      → value_in py u vs ≡ false
      → i < suc j
      → get_elem? (u ∷ vs) i ≡ some v
      → get_elem? vs j ≡ some w
      → ((k : ℕ)
          → k < j
          → get_elem? vs k ≡ some v
          → get_elem? vs j ≡ some w
          → py.equals w v ≡ false)
      → py.equals w v ≡ false
  first_or_later u vs zero j v w new before at_i at_j later =
      ap (λ x. py.equals w x) (sym (some-injective at_i)) ∙ value_in-differs u w vs j new at_j
  first_or_later u vs (suc i) j v w new before at_i at_j later = later i (omega arith) at_i at_j

  all_different-differ :
      (vs : List Value) (i j : ℕ) (v w : Value)
      → all_different py vs ≡ true
      → i < j
      → get_elem? vs i ≡ some v
      → get_elem? vs j ≡ some w
      → py.equals w v ≡ false
  unfolding all_different
  all_different-differ [] i j v w different before at_i at_j = absurd (some-none (sym at_i))
  all_different-differ (u ∷ vs) i zero v w different before at_i at_j = ground arith
  all_different-differ (u ∷ vs) i (suc j) v w different before at_i at_j =
      elim (Bool-cases (value_in py u vs)) [
        | inl repeated ↦ absurd (false≢true (rw repeated at different))
        | inr new ↦
            first_or_later u vs i j v w new before at_i at_j
              (λ k. all_different-differ vs k j v w (rw new at different))
      ]

  pub check_hashes-differ :
      (receipts : List Fields) (i j : ℕ) (r s : Fields)
      → check_hashes py receipts ≡ ok tt
      → i < j
      → get_elem? receipts i ≡ some r
      → get_elem? receipts j ≡ some s
      → (v : Value) × (w : Value) × (get r "canonical_hash" ≡ some v)
        × (get s "canonical_hash" ≡ some w)
        × (py.equals w v ≡ false)
  unfolding check_hashes
  check_hashes-differ receipts i j r s passed before at_i at_j =
      let (hashes, collected, rest) = bind-ok (hashes_of receipts) _ passed in
      let (_, _, rest') = bind-ok (all_hashable hashes) _ rest in
      let (v, v_of, v_at) = hashes_of-at receipts hashes i r collected at_i in
      let (w, w_of, w_at) = hashes_of-at receipts hashes j s collected at_j in
      (
        v,
        w,
        v_of,
        w_of,
        all_different-differ hashes i j v w (ensure-passed _ _ rest') before v_at w_at,
      )
