-- ===== src/Python/Lookup.antt =====
-- What a dictionary answers after an assignment.
use openterms.Prelude.{◌≡◌, refl, String, true, false, some, ◌==◌, eq_iff, Bool-cases, inl, inr}
use openterms.Python.Objects.{Value, Fields, end, field, other, get, put}

pub test_refl : (k : String) → (k == k) ≡ true
test_refl k = (eq_iff k k).1 refl

pub test_sym : (k j : String) → (k == j) ≡ false → (j == k) ≡ false
test_sym k j differ = elim (Bool-cases (j == k)) [
  | inl same ↦ rw ((eq_iff j k).0 same) (rw ((eq_iff j k).0 same) at differ)
  | inr differ' ↦ differ'
]

pub get-put_same : (k : String) (v : Value) (d : Fields) → get (put k v d) k ≡ some v
unfolding get put
get-put_same k v end = rw (test_refl k) refl
get-put_same k v (other j w d) = get-put_same k v d
get-put_same k v (field j w d) = elim (Bool-cases (j == k)) [
  | inl same ↦ rw (same, same) refl
  | inr differ ↦ rw (differ, differ) (get-put_same k v d)
]

pub get-put_other :
    (k : String) (v : Value) (d : Fields) (i : String)
    → (k == i) ≡ false
    → get (put k v d) i ≡ get d i
unfolding get put
get-put_other k v end i apart = rw apart refl
get-put_other k v (other j w d) i apart = get-put_other k v d i apart
get-put_other k v (field j w d) i apart = elim (Bool-cases (j == k)) [
  | inl same ↦ rw (same, (eq_iff j k).0 same, apart) refl
  | inr differ ↦ (elim (Bool-cases (j == i)) [
    | inl here ↦ rw (differ, here) refl
    | inr elsewhere ↦ rw (differ, elsewhere) (get-put_other k v d i apart)
  ])
]
