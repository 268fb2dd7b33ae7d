-- ===== src/Corpus/Chains/Accepted.antt =====
-- The receipts that `main` of packages/openterms-py/scripts/generate_corpus.py generates, and the fifth step of
-- `validate_corpus` of the same file.
use mathlib.Core.Path.{subst}
use mathlib.Core.Bool.{true≢false}
use openterms.Prelude.{
  ◌≡◌, refl, sym, ap, ◌∙◌, inl, inr, ℕ, suc, ◌<◌, true, false, ◌==◌, some, List, [], ◌∷◌, leb,
  arith, Bool-cases, String, eq_iff,
}
use openterms.Python.{
  Value, null, str, Fields, Builtins, ok, ok-injective, get, subscript, text_mem, test_sym,
}
use openterms.Corpus.Links.{
  hashable, Index, index_of, receipt_index, parent_of, check_found, check_parent, check_links,
  check_chains,
}
use openterms.Corpus.Scenario.{Scenario}
use openterms.Corpus.Generate.{Tools, generate_receipts}
use openterms.Corpus.Chains.Built.{generate_receipts-Linked}
use openterms.Corpus.Chains.{ParentIn, root, child, Linked, link}

-- v == w of two texts
unfoldable pub ComparesTexts : Builtins → Type 0
ComparesTexts py = (s t : String) → py.equals (str s) (str t) ≡ (s == t)

-- Receipts with ids that differ from each other and from those of `seen`.
pub data FreshIds : List String → List Fields → Type 0 where
  all_fresh : {seen : List String} → FreshIds seen []
  fresh :
      {seen : List String} {r : Fields} {receipts : List Fields} (id : String)
      → get r "receipt_id" ≡ some (str id)
      → text_mem id seen ≡ false
      → FreshIds (id ∷ seen) receipts
      → FreshIds seen (r ∷ receipts)

module _ (py : Builtins) (texts_equal : ComparesTexts py) where
  -- The index has each text of `seen` at a position below i.
  Known : ℕ → List String → Index → Type 0
  Known i seen index =
      (p : String)
      → text_mem p seen ≡ true
      → (j : ℕ) × (index_of py index (str p) ≡ some j) × (j < i)

  index_of-apart :
      (index : Index) (i : ℕ) (id p : String)
      → (p == id) ≡ false
      → index_of py ((str id, i) ∷ index) (str p) ≡ index_of py index (str p)
  unfolding index_of ComparesTexts
  index_of-apart index i id p apart = rw (texts_equal id p ∙ test_sym p id apart) refl

  index_of-here :
      (index : Index) (i : ℕ) (id p : String)
      → (p == id) ≡ true
      → index_of py ((str id, i) ∷ index) (str p) ≡ some i
  unfolding index_of ComparesTexts
  index_of-here index i id p here =
      rw (texts_equal id p ∙ (eq_iff id p).1 (sym ((eq_iff p id).0 here))) refl

  Known-add :
      (i : ℕ) (seen : List String) (index : Index) (id : String)
      → Known i seen index
      → Known (suc i) (id ∷ seen) ((str id, i) ∷ index)
  unfolding Known text_mem
  Known-add i seen index id known p mem = elim (Bool-cases (p == id)) [
    | inl here ↦ (i, index_of-here index i id p here, omega arith)
    | inr elsewhere ↦
        (let (j, found, before) = known p (rw elsewhere at mem) in
          (j, index_of-apart index i id p elsewhere ∙ found, omega arith))
  ]

  mem-apart :
      (id p : String) (seen : List String)
      → text_mem id seen ≡ false
      → text_mem p seen ≡ true
      → (p == id) ≡ false
  mem-apart id p seen new mem = elim (Bool-cases (p == id)) [
    | inl same ↦
        absurd (true≢false (sym mem ∙ (ap (λ q. text_mem q seen) ((eq_iff p id).0 same) ∙ new)))
    | inr apart ↦ apart
  ]

  mem-later :
      (id p : String) (seen : List String) → text_mem p seen ≡ true → text_mem p (id ∷ seen) ≡ true
  unfolding text_mem
  mem-later id p seen mem = elim (Bool-cases (p == id)) [
    | inl here ↦ rw here refl
    | inr elsewhere ↦ rw elsewhere mem
  ]

  receipt_index-step :
      (i : ℕ) (r : Fields) (receipts : List Fields) (index : Index) (id : String)
      → get r "receipt_id" ≡ some (str id)
      → receipt_index i (r ∷ receipts) index ≡ receipt_index (suc i) receipts ((str id, i) ∷ index)
  unfolding receipt_index hashable
  receipt_index-step i r receipts index id id_of = rw (subscript, id_of) refl

  -- An id that was seen keeps its place in the index.
  receipt_index-known :
      (i : ℕ) (seen : List String) (receipts : List Fields) (index : Index)
      → FreshIds seen receipts
      → (final : Index) × (receipt_index i receipts index ≡ ok final)
        × ((p : String)
            → text_mem p seen ≡ true
            → index_of py final (str p) ≡ index_of py index (str p))
  unfolding receipt_index
  receipt_index-known i seen [] index all_fresh = (index, refl, λ p mem. refl)
  receipt_index-known i seen (r ∷ receipts) index (fresh id id_of new rest) =
      let (final, indexed, kept) =
        receipt_index-known (suc i) (id ∷ seen) receipts ((str id, i) ∷ index) rest in
      (
        final,
        receipt_index-step i r receipts index id id_of ∙ indexed,
        λ p mem.
            kept p (mem-later id p seen mem)
            ∙ index_of-apart index i id p (mem-apart id p seen new mem),
      )

  check_parent-known :
      (final : Index) (i j : ℕ) (parent : String)
      → index_of py final (str parent) ≡ some j
      → j < i
      → check_parent py final i (str parent) ≡ ok tt
  unfolding check_parent hashable check_found
  check_parent-known final i j parent found before =
      let later : leb i j ≡ false = ground arith in rw (found, later) refl

  receipt_index-Known :
      (i : ℕ) (seen : List String) (receipts : List Fields) (index final : Index)
      → Known i seen index
      → FreshIds seen receipts
      → receipt_index i receipts index ≡ ok final
      → Known i seen final
  unfolding Known
  receipt_index-Known i seen receipts index final known distinct indexed p mem =
      let (made, indexed', kept) = receipt_index-known i seen receipts index distinct in
      let (j, found, before) = known p mem in
      (
        j,
        ap (λ f. index_of py f (str p)) (ok-injective (sym indexed ∙ indexed'))
            ∙ (kept p mem ∙ found),
        before,
      )

  check_parent-Linked :
      (i : ℕ) (seen : List String) (r : Fields) (final : Index)
      → Known i seen final
      → ParentIn seen r
      → (parent : Value) × (parent_of r ≡ ok parent) × (check_parent py final i parent ≡ ok tt)
  unfolding check_parent Known
  check_parent-Linked i seen r final known (root of) = (null, of, refl)
  check_parent-Linked i seen r final known (child p of mem) =
      let (j, found, before) = known p mem in
      (str p, of, check_parent-known final i j p found before)

  check_links-Linked :
      (i : ℕ) (seen : List String) (receipts : List Fields) (index final : Index)
      → Known i seen index
      → FreshIds seen receipts
      → Linked seen receipts
      → receipt_index i receipts index ≡ ok final
      → check_links py final i receipts ≡ ok tt
  unfolding check_links
  check_links-Linked i seen [] index final known all_fresh linked indexed = refl
  check_links-Linked i seen (r ∷ receipts) index final known (fresh id id_of new more)
        (link id' id_of' parent rest) indexed =
      let (p, of, accepted) =
        check_parent-Linked i seen r final
          (receipt_index-Known i seen (r ∷ receipts) index final known (fresh id id_of new more)
            indexed)
          parent in
      let same : id' ≡ id = cc in
      rw (of, accepted)
        (check_links-Linked (suc i) (id ∷ seen) receipts ((str id, i) ∷ index) final
          (Known-add i seen index id known) more (subst (λ k. Linked (k ∷ seen) receipts) same rest)
          (sym (receipt_index-step i r receipts index id id_of) ∙ indexed))

  -- Receipts whose parents come earlier, and whose ids differ, pass the check of the chains.
  pub check_chains-Linked :
      (receipts : List Fields)
      → FreshIds [] receipts
      → Linked [] receipts
      → check_chains py receipts ≡ ok tt
  unfolding check_chains Known text_mem
  check_chains-Linked receipts distinct linked =
      let (final, indexed, _) = receipt_index-known 0 [] receipts [] distinct in
      rw indexed (check_links-Linked 0 [] receipts [] final (λ p mem. cc) distinct linked indexed)

-- When texts compare equal as texts do and the ids of the generated receipts differ, the receipts
-- pass the check of the chains in validate_corpus.
pub generate_receipts-check_chains :
    (tools : Tools) (scenario : Scenario) (n : ℕ) (jwks : Fields) (receipts : List Fields) (n' : ℕ)
    → ComparesTexts tools.py
    → generate_receipts tools scenario n ≡ (ok (jwks, receipts), n')
    → FreshIds [] receipts
    → check_chains tools.py receipts ≡ ok tt
generate_receipts-check_chains tools scenario n jwks receipts n' texts_equal returned distinct =
    check_chains-Linked tools.py texts_equal receipts distinct
      (generate_receipts-Linked tools scenario n returned)
