-- ===== src/Receipts/Canonical/Reordered.antt =====
-- The canonical form does not depend on the order of a dictionary's entries, nor on its None values.
use openterms.Prelude.{◌≡◌, refl, sym, ap, ◌∙◌, String, Bool, true, false, ◌==◌, if◌then◌else◌}
use openterms.Python.{
  Value, null, list, dict, Values, nil, cons, Fields, end, field, Builtins, ok, bind-ok,
  ok-injective, is_null,
}
use openterms.Receipts.Canonical.Json.{
  insert_sorted, sort_values, sort_items, sort_fields, print, emit, utf8,
}
use openterms.Receipts.Canonical.Insertion.{insert_sorted-swap}
use openterms.Receipts.Canonical.{
  Bytes, validate, strip_nulls, strip_items, strip_fields, canonicalize,
}

-- The same dictionary but for the order of its entries and for entries that are None, here and in the
-- values of entries.
mutual
  pub data SameValue : Value → Value → Type 0 where
    unchanged : {v : Value} → SameValue v v
    same_dict : {d e : Fields} → SameFields d e → SameValue (dict d) (dict e)
    same_list : {vs ws : Values} → SameItems vs ws → SameValue (list vs) (list ws)

  pub data SameItems : Values → Values → Type 0 where
    no_items : SameItems nil nil
    more_items :
        {v w : Value} {vs ws : Values}
        → SameValue v w
        → SameItems vs ws
        → SameItems (cons v vs) (cons w ws)

  pub data SameFields : Fields → Fields → Type 0 where
    no_fields : SameFields end end
    more_fields :
        {k : String} {v w : Value} {d e : Fields}
        → SameValue v w
        → SameFields d e
        → SameFields (field k v d) (field k w e)
    swapped :
        {k j : String} {v w : Value} {d : Fields}
        → (k == j) ≡ false
        → SameFields (field k v (field j w d)) (field j w (field k v d))
    without_null : {k : String} {d : Fields} → SameFields (field k null d) d
    turned : {d e : Fields} → SameFields d e → SameFields e d
    through : {d e f : Fields} → SameFields d e → SameFields e f → SameFields d f

-- the sorted value without its None entries
normal : Value → Value
normal v = sort_values (strip_nulls v)

normal_fields : Fields → Fields
normal_fields d = sort_fields (strip_fields d)

normal_fields-field :
    (k : String) (v : Value) (d : Fields)
    → normal_fields (field k v d)
      ≡ (if is_null v then normal_fields d else insert_sorted k (normal v) (normal_fields d))
unfolding normal normal_fields strip_fields strip_nulls sort_fields
normal_fields-field k v d = branch (is_null v)
  where
    branch :
        (b : Bool)
        → sort_fields (if b then strip_fields d else field k (strip_nulls v) (strip_fields d)) ≡ (
            if b
            then sort_fields (strip_fields d)
            else insert_sorted k (sort_values (strip_nulls v)) (sort_fields (strip_fields d)))
    branch true = refl
    branch false = refl

normal_fields-swap :
    (k j : String) (v w : Value) (d : Fields)
    → (k == j) ≡ false
    → normal_fields (field k v (field j w d)) ≡ normal_fields (field j w (field k v d))
normal_fields-swap k j v w d differ =
    (normal_fields-field k v (field j w d)
      ∙ ap (λ n. if is_null v then n else insert_sorted k (normal v) n) (normal_fields-field j w d))
    ∙ (branches (is_null v) (is_null w)
        ∙ sym (
            normal_fields-field j w (field k v d)
            ∙ ap (λ n. if is_null w then n else insert_sorted j (normal w) n)
                (normal_fields-field k v d)))
  where
    branches :
        (b c : Bool)
        → (if b
            then (if c then normal_fields d else insert_sorted j (normal w) (normal_fields d))
            else insert_sorted k
                (normal v)
                (if c then normal_fields d else insert_sorted j (normal w) (normal_fields d)))
          ≡ (if c
              then (if b then normal_fields d else insert_sorted k (normal v) (normal_fields d))
              else insert_sorted j
                  (normal w)
                  (if b then normal_fields d else insert_sorted k (normal v) (normal_fields d)))
    branches true true = refl
    branches true false = refl
    branches false true = refl
    branches false false = insert_sorted-swap k j (normal v) (normal w) (normal_fields d) differ

same_null : {v w : Value} → SameValue v w → is_null v ≡ is_null w
same_null SameValue.unchanged = refl
same_null (SameValue.same_dict same) = refl
same_null (SameValue.same_list same) = refl

normal_fields-null : (k : String) (d : Fields) → normal_fields (field k null d) ≡ normal_fields d
unfolding normal_fields strip_fields
normal_fields-null k d = refl

mutual
  unfolding normal strip_nulls sort_values normal_fields

  same_value : {v w : Value} → SameValue v w → normal v ≡ normal w
  same_value SameValue.unchanged = refl
  same_value (SameValue.same_dict same) = ap dict (same_fields same)
  same_value (SameValue.same_list same) = ap list (same_items same)

  same_items :
      {vs ws : Values} → SameItems vs ws → sort_items (strip_items vs) ≡ sort_items (strip_items ws)
  same_items SameItems.no_items = refl
  same_items (SameItems.more_items same more) = λ i. cons (same_value same i) (same_items more i)

  same_fields : {d e : Fields} → SameFields d e → normal_fields d ≡ normal_fields e
  same_fields SameFields.no_fields = refl
  same_fields (SameFields.more_fields {k = k} {v = v} {w = w} {d = d} {e = e} same more) =
      normal_fields-field k v d
      ∙ ((λ i.
            if same_null same i
            then same_fields more i
            else insert_sorted k (same_value same i) (same_fields more i))
          ∙ sym (normal_fields-field k w e))
  same_fields (SameFields.swapped {k = k} {j = j} {v = v} {w = w} {d = d} differ) =
      normal_fields-swap k j v w d differ
  same_fields (SameFields.without_null {k = k} {d = d}) = normal_fields-null k d
  same_fields (SameFields.turned same) = sym (same_fields same)
  same_fields (SameFields.through same more) = same_fields same ∙ same_fields more

-- Two payloads that are the same but for the order of the entries of their dictionaries and for
-- entries that are None, at any depth, have the same canonical form, when _validate accepts both.
pub canonicalize-SameFields :
    (py : Builtins) (d e : Fields) {c c' : Bytes}
    → SameFields d e
    → canonicalize py d ≡ ok c
    → canonicalize py e ≡ ok c'
    → c ≡ c'
unfolding canonicalize emit strip_nulls sort_values normal_fields
canonicalize-SameFields py d e same first second =
    let (_, _, made) = bind-ok (validate py (dict d)) _ first in
    let (_, _, made') = bind-ok (validate py (dict e)) _ second in
    sym (ok-injective made)
    ∙ (ap (λ n. utf8 (print (dict n))) (same_fields same) ∙ ok-injective made')
