-- ===== src/Corpus/Links.antt =====
-- Step 5 of `validate_corpus` of packages/openterms-py/scripts/generate_corpus.py: the chains.
use openterms.Prelude.{ℕ, suc, Option, none, some, List, [], ◌∷◌, leb, if◌then◌else◌}
use openterms.Prelude.Int.{pos}
use openterms.Python.{
  Value, null, int, list, dict, Fields, end, Builtins, Error, type_error, assertion_error, Result,
  ok, fail, ◌>>=◌, ◌>>◌, get_or, subscript, join_text,
}
use openterms.Ingest.Transport.{truthy, get_attribute}

-- a key of a dictionary, or an element of a set: lists and dictionaries are none
unfoldable pub hashable : Value → Result Value
hashable (list _) = fail type_error
hashable (dict _) = fail type_error
hashable v = ok v

-- the dictionary `id_to_index`, the last entry first
abbrev pub Index : Type 0
Index = List (Value × ℕ)

-- id_to_index.get(v): an entry that comes later stands for those before it
unfoldable pub index_of : Builtins → Index → Value → Option ℕ
index_of py [] v = none
index_of py ((w, i) ∷ index) v = if py.equals w v then some i else index_of py index v

-- {r["receipt_id"]: i for i, r in enumerate(receipts)}
unfoldable pub receipt_index : ℕ → List Fields → Index → Result Index
unfolding subscript hashable
receipt_index i [] index = ok index
receipt_index i (r ∷ receipts) index = do
  id ← subscript (dict r) "receipt_id"
  key ← hashable id
  receipt_index (suc i) receipts ((key, i) ∷ index)

-- the chain of a receipt's context, or None
unfoldable pub chain_of_context : Value → Result Value
unfolding get_attribute
chain_of_context (dict context) = do
  ors ← get_attribute (dict context) "ors" (dict end)
  get_attribute ors "chain" null
chain_of_context _ = ok null

unfoldable pub chain_of : Fields → Result Value
unfolding chain_of_context get_or
chain_of r = chain_of_context (get_or r "action_context" null)

-- chain.get("parent_receipt_id"), and None where the receipt is passed over
unfoldable pub parent_of : Fields → Result Value
unfolding chain_of truthy get_attribute
parent_of r = do
  chain ← chain_of r
  if truthy chain then get_attribute chain "parent_receipt_id" null else ok null

unfoldable pub unlinked : Builtins → Value → ℕ → Error
unfolding join_text
unlinked py parent i = assertion_error (
    join_text (
      "chain parent "
      ∷ py.str_of parent
      ∷ " not found prior to receipt index "
      ∷ py.str_of (int (pos i))
      ∷ []))

unfoldable pub check_found : Builtins → Value → ℕ → Option ℕ → Result (Unit {0})
unfolding unlinked
check_found py parent i (some j) = if leb i j then fail (unlinked py parent i) else ok tt
check_found py parent i none = fail (unlinked py parent i)

-- the test of the parent of receipt i
unfoldable pub check_parent : Builtins → Index → ℕ → Value → Result (Unit {0})
unfolding hashable index_of check_found
check_parent py index i null = ok tt
check_parent py index i parent = do
  key ← hashable parent
  check_found py parent i (index_of py index key)

-- the loop
unfoldable pub check_links : Builtins → Index → ℕ → List Fields → Result (Unit {0})
unfolding parent_of check_parent
check_links py index i [] = ok tt
check_links py index i (r ∷ receipts) = do
  parent ← parent_of r
  check_parent py index i parent
  check_links py index (suc i) receipts

-- step 5
unfoldable pub check_chains : Builtins → List Fields → Result (Unit {0})
unfolding receipt_index check_links
check_chains py receipts = do index ← receipt_index 0 receipts []; check_links py index 0 receipts
