-- ===== src/Corpus/Chains.antt =====
-- The chains of the receipts that packages/openterms-py/scripts/generate_corpus.py generates.
pub mod Drawn
pub mod Parents
pub mod Built
pub mod Checked
pub mod Accepted
use openterms.Prelude.{◌≡◌, String, true, some, List, [], ◌∷◌}
use openterms.Python.{null, str, Fields, ok, get, text_mem}
use openterms.Corpus.Links.{parent_of}

-- A receipt that names no parent, or a parent among the receipts `seen`.
pub data ParentIn (seen : List String) (r : Fields) : Type 0 where
  root : parent_of r ≡ ok null → ParentIn seen r
  child :
      (parent : String)
      → parent_of r ≡ ok (str parent)
      → text_mem parent seen ≡ true
      → ParentIn seen r

-- Receipts whose parents are among `seen` or come earlier.
pub data Linked : List String → List Fields → Type 0 where
  all_linked : {seen : List String} → Linked seen []
  link :
      {seen : List String} {r : Fields} {receipts : List Fields} (id : String)
      → get r "receipt_id" ≡ some (str id)
      → ParentIn seen r
      → Linked (id ∷ seen) receipts
      → Linked seen (r ∷ receipts)
