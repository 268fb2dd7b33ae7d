-- ===== src/Receipts/Canonical/Insertion.antt =====
-- Insertions into the sorted entries of a dictionary.
use openterms.Prelude.{◌≡◌, refl, sym, ap, ◌∙◌, String, true, false, ◌==◌, Bool-cases, inl, inr}
use openterms.Python.{Value, Fields, end, field, other, test_sym}
use openterms.Receipts.Canonical.Json.{text_lt, insert_sorted}
use openterms.Receipts.Canonical.Order.{text_lt-total, text_lt-one, text_lt-between}

insert_sorted-later :
    (j : String) (w : Value) (k : String) (v : Value) (d : Fields)
    → text_lt j k ≡ true
    → insert_sorted k v (field j w d) ≡ field j w (insert_sorted k v d)
unfolding insert_sorted
insert_sorted-later j w k v d before = rw before refl

insert_sorted-now :
    (j : String) (w : Value) (k : String) (v : Value) (d : Fields)
    → text_lt j k ≡ false
    → insert_sorted k v (field j w d) ≡ field k v (field j w d)
unfolding insert_sorted
insert_sorted-now j w k v d after = rw after refl

-- One key comes behind the first entry, the other before it.
insert_sorted-apart :
    (k j : String) (v w : Value) (i : String) (x : Value) (d : Fields)
    → text_lt i k ≡ true
    → text_lt i j ≡ false
    → insert_sorted k v (insert_sorted j w (field i x d))
      ≡ insert_sorted j w (insert_sorted k v (field i x d))
insert_sorted-apart k j v w i x d i_k j_i =
    ap (insert_sorted k v) (insert_sorted-now i x j w d j_i)
    ∙ (insert_sorted-later j w k v (field i x d) (text_lt-between i j k j_i i_k)
        ∙ (ap (field j w) (insert_sorted-later i x k v d i_k)
            ∙ sym (
                ap (insert_sorted j w) (insert_sorted-later i x k v d i_k)
                ∙ insert_sorted-now i x j w (insert_sorted k v d) j_i)))

-- Both keys come before the first entry.
insert_sorted-front :
    (k j : String) (v w : Value) (d : Fields)
    → text_lt j k ≡ true
    → insert_sorted k v d ≡ field k v d
    → insert_sorted j w d ≡ field j w d
    → insert_sorted k v (insert_sorted j w d) ≡ insert_sorted j w (insert_sorted k v d)
insert_sorted-front k j v w d j_k first second =
    ap (insert_sorted k v) second
    ∙ (insert_sorted-later j w k v d j_k
        ∙ (ap (field j w) first
            ∙ sym
                (ap (insert_sorted j w) first ∙ insert_sorted-now k v j w d (text_lt-one j k j_k))))

insert_sorted-either :
    (k j : String) (v w : Value) (d : Fields)
    → (k == j) ≡ false
    → insert_sorted k v d ≡ field k v d
    → insert_sorted j w d ≡ field j w d
    → insert_sorted k v (insert_sorted j w d) ≡ insert_sorted j w (insert_sorted k v d)
insert_sorted-either k j v w d differ first second = elim (Bool-cases (text_lt j k)) [
  | inl j_k ↦ insert_sorted-front k j v w d j_k first second
  | inr k_j ↦
      sym (insert_sorted-front j k w v d (text_lt-total j k (test_sym k j differ) k_j) second first)
]

-- Two insertions of different keys give the same entries in either order.
pub insert_sorted-swap :
    (k j : String) (v w : Value) (d : Fields)
    → (k == j) ≡ false
    → insert_sorted k v (insert_sorted j w d) ≡ insert_sorted j w (insert_sorted k v d)
unfolding insert_sorted
insert_sorted-swap k j v w end differ = insert_sorted-either k j v w end differ refl refl
insert_sorted-swap k j v w (other i x d) differ =
    insert_sorted-either k j v w (other i x d) differ refl refl
insert_sorted-swap k j v w (field i x d) differ = elim (Bool-cases (text_lt i k)) [
  | inl i_k ↦ (elim (Bool-cases (text_lt i j)) [
    | inl i_j ↦
        ap (insert_sorted k v) (insert_sorted-later i x j w d i_j)
        ∙ (insert_sorted-later i x k v (insert_sorted j w d) i_k
            ∙ (ap (field i x) (insert_sorted-swap k j v w d differ)
                ∙ sym (
                    ap (insert_sorted j w) (insert_sorted-later i x k v d i_k)
                    ∙ insert_sorted-later i x j w (insert_sorted k v d) i_j)))
    | inr j_i ↦ insert_sorted-apart k j v w i x d i_k j_i
  ])
  | inr k_i ↦ (elim (Bool-cases (text_lt i j)) [
    | inl i_j ↦ sym (insert_sorted-apart j k w v i x d i_j k_i)
    | inr j_i ↦
        insert_sorted-either k j v w (field i x d) differ (insert_sorted-now i x k v d k_i)
          (insert_sorted-now i x j w d j_i)
  ])
]
