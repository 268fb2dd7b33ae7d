-- ===== src/Corpus/Chains/Checked.antt =====
-- What the fifth step of `validate_corpus` of packages/openterms-py/scripts/generate_corpus.py makes sure of.
use mathlib.Core.Path.{subst}
use openterms.Prelude.{
  ◌≡◌, refl, sym, ap, ◌∙◌, ◌⊎◌, inl, inr, ℕ, zero, suc, ◌+◌, ◌<◌, true, Option, none, some, List,
  [], ◌∷◌, get_elem?, leb, arith, Bool-cases, Option-cases, String, some-none, some-injective,
}
use openterms.Python.{
  Value, null, bool, int, float, str, list, dict, Fields, Builtins, ok, fail_ok, bind-ok,
  ok-injective, get, subscript,
}
use openterms.Corpus.Links.{
  hashable, Index, index_of, receipt_index, parent_of, check_found, check_parent, check_links,
  check_chains,
}

-- A receipt's parent is none, or equals the id of an earlier receipt.
pub Precedes : Builtins → List Fields → ℕ → Value → Type 0
Precedes py receipts i parent =
    (parent ≡ null)
    ⊎ ((j : ℕ) × (q : Fields) × (id : Value) × (j < i)
        × (get_elem? receipts j ≡ some q)
        × (get q "receipt_id" ≡ some id)
        × (py.equals id parent ≡ true))

hashable-same : (v : Value) {key : Value} → hashable v ≡ ok key → v ≡ key
unfolding hashable
hashable-same (list _) returned = absurd (fail_ok returned)
hashable-same (dict _) returned = absurd (fail_ok returned)
hashable-same null returned = ok-injective returned
hashable-same (bool _) returned = ok-injective returned
hashable-same (int _) returned = ok-injective returned
hashable-same (float _) returned = ok-injective returned
hashable-same (str _) returned = ok-injective returned

pub subscript-get :
    (r : Fields) (k : String) {v : Value} → subscript (dict r) k ≡ ok v → get r k ≡ some v
unfolding subscript
subscript-get r k returned = elim (Option-cases (get r k)) [
  | inl missing ↦ absurd (fail_ok (rw (subscript, missing) at returned))
  | inr (w, found) ↦ found ∙ ap some (ok-injective (rw (subscript, found) at returned))
]

-- Each entry of the index is the id of the receipt at its position.
module _ (py : Builtins) (all : List Fields) where
  Named : Value → ℕ → Type 0
  Named id j = (q : Fields) × (get_elem? all j ≡ some q) × (get q "receipt_id" ≡ some id)

  AllNamed : Index → Type 0
  AllNamed [] = Unit
  AllNamed ((id, j) ∷ index) = Named id j × AllNamed index

  index_of-Named :
      (index : Index) (v : Value) {j : ℕ}
      → AllNamed index
      → index_of py index v ≡ some j
      → (id : Value) × Named id j × (py.equals id v ≡ true)
  unfolding index_of AllNamed
  index_of-Named [] v named found = absurd (some-none (sym found))
  index_of-Named ((id, i) ∷ index) v (here, more) found = elim (Bool-cases (py.equals id v)) [
    | inl same ↦ (id, subst (Named id) (some-injective (rw same at found)) here, same)
    | inr differ ↦ index_of-Named index v more (rw differ at found)
  ]

  receipt_index-Named :
      (i : ℕ) (receipts : List Fields) (index : Index) {final : Index}
      → ((k j : ℕ) → j ≡ i + k → get_elem? receipts k ≡ get_elem? all j)
      → AllNamed index
      → receipt_index i receipts index ≡ ok final
      → AllNamed final
  unfolding receipt_index AllNamed Named
  receipt_index-Named i [] index at named returned = subst AllNamed (ok-injective returned) named
  receipt_index-Named i (r ∷ receipts) index at named returned =
      let (id, id_of, rest) = bind-ok (subscript (dict r) "receipt_id") _ returned in
      let (key, same, rest') = bind-ok (hashable id) _ rest in
      receipt_index-Named (suc i) receipts ((key, i) ∷ index)
        (λ k j same_place. at (suc k) j (omega arith))
        (
          (
            r,
            sym (at 0 i (omega arith)),
            subscript-get r "receipt_id" id_of ∙ ap some (hashable-same id same),
          ),
          named,
        )
        rest'

  check_found-before :
      (parent : Value) (i : ℕ) (found : Option ℕ)
      → check_found py parent i found ≡ ok tt
      → (j : ℕ) × (found ≡ some j) × (j < i)
  unfolding check_found
  check_found-before parent i none passed = absurd (fail_ok passed)
  check_found-before parent i (some j) passed = elim (Bool-cases (leb i j)) [
    | inl later ↦ absurd (fail_ok (rw later at passed))
    | inr earlier ↦ (j, refl, ground arith)
  ]

  found-Precedes :
      (index : Index) (i : ℕ) (parent : Value)
      → AllNamed index
      → check_found py parent i (index_of py index parent) ≡ ok tt
      → Precedes py all i parent
  unfolding Precedes Named
  found-Precedes index i parent named passed =
      let (j, found, before) = check_found-before parent i (index_of py index parent) passed in
      let (id, here, equal) = index_of-Named index parent named found in
      let (q, at, id_of) = here in inr (j, q, id, before, at, id_of, equal)

  check_parent-Precedes :
      (index : Index) (i : ℕ) (parent : Value)
      → AllNamed index
      → check_parent py index i parent ≡ ok tt
      → Precedes py all i parent
  unfolding check_parent hashable Precedes
  check_parent-Precedes index i null named passed = inl refl
  check_parent-Precedes index i (list _) named passed = absurd (fail_ok passed)
  check_parent-Precedes index i (dict _) named passed = absurd (fail_ok passed)
  check_parent-Precedes index i (bool b) named passed = found-Precedes index i (bool b) named passed
  check_parent-Precedes index i (int n) named passed = found-Precedes index i (int n) named passed
  check_parent-Precedes index i (float x) named passed =
      found-Precedes index i (float x) named passed
  check_parent-Precedes index i (str s) named passed = found-Precedes index i (str s) named passed

  check_links-Precedes :
      (index : Index) (i j k : ℕ) (receipts : List Fields) (r : Fields)
      → j ≡ i + k
      → AllNamed index
      → check_links py index i receipts ≡ ok tt
      → get_elem? receipts k ≡ some r
      → (parent : Value) × (parent_of r ≡ ok parent) × Precedes py all j parent
  unfolding check_links
  check_links-Precedes index i j k [] r place named passed at = absurd (some-none (sym at))
  check_links-Precedes index i j zero (q ∷ receipts) r place named passed at =
      let (parent, of, rest) = bind-ok (parent_of q) _ passed in
      let (_, checked, _) = bind-ok (check_parent py index i parent) _ rest in
      (
        parent,
        ap parent_of (sym (some-injective at)) ∙ of,
        subst (λ m. Precedes py all m parent) (omega arith)
            (check_parent-Precedes index i parent named checked),
      )
  check_links-Precedes index i j (suc k) (q ∷ receipts) r place named passed at =
      let (parent, of, rest) = bind-ok (parent_of q) _ passed in
      let (_, checked, rest') = bind-ok (check_parent py index i parent) _ rest in
      check_links-Precedes index (suc i) j k receipts r (omega arith) named rest' at

-- When the chains of the receipts are accepted, each receipt has a parent that is none or equals the id of
-- an earlier receipt.
pub check_chains-Precedes :
    (py : Builtins) (receipts : List Fields) (i : ℕ) (r : Fields)
    → check_chains py receipts ≡ ok tt
    → get_elem? receipts i ≡ some r
    → (parent : Value) × (parent_of r ≡ ok parent) × Precedes py receipts i parent
unfolding check_chains AllNamed
check_chains-Precedes py receipts i r passed at =
    let (index, indexed, rest) = bind-ok (receipt_index 0 receipts []) _ passed in
    check_links-Precedes py receipts index 0 i i receipts r (omega arith)
      (receipt_index-Named py receipts 0 receipts []
        (λ k j same_place. ap (get_elem? receipts) (omega arith)) tt indexed)
      rest at
