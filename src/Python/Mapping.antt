-- ===== src/Python/Mapping.antt =====
-- Dictionaries whose keys are texts, in insertion order.
use openterms.Prelude.{
  ◌≡◌, refl, String, false, Option, none, some, List, [], ◌∷◌, ◌==◌, eq_iff, Bool-cases, inl, inr,
  if◌then◌else◌,
}
use openterms.Python.Lookup.{test_refl}

module _ {ℓ} {A : Type ℓ} where
  -- d.get(k)
  unfoldable pub lookup : List (String × A) → String → Option A
  lookup [] k = none
  lookup ((j, v) ∷ d) k = if j == k then some v else lookup d k

  -- d[k] = v
  unfoldable pub insert : String → A → List (String × A) → List (String × A)
  insert k v [] = (k, v) ∷ []
  insert k v ((j, w) ∷ d) = let rest = insert k v d in if j == k then (j, v) ∷ d else (j, w) ∷ rest

  -- d.pop(k, None), where the value is not asked for
  unfoldable pub erase : String → List (String × A) → List (String × A)
  erase k [] = []
  erase k ((j, w) ∷ d) = let rest = erase k d in if j == k then rest else (j, w) ∷ rest

  pub lookup-insert_same :
      (k : String) (v : A) (d : List (String × A)) → lookup (insert k v d) k ≡ some v
  unfolding lookup insert
  lookup-insert_same k v [] = rw (test_refl k) refl
  lookup-insert_same k v ((j, w) ∷ d) = elim (Bool-cases (j == k)) [
    | inl same ↦ rw (same, same) refl
    | inr differ ↦ rw (differ, differ) (lookup-insert_same k v d)
  ]

  pub lookup-insert_other :
      (k : String) (v : A) (d : List (String × A)) (i : String)
      → (k == i) ≡ false
      → lookup (insert k v d) i ≡ lookup d i
  unfolding lookup insert
  lookup-insert_other k v [] i apart = rw apart refl
  lookup-insert_other k v ((j, w) ∷ d) i apart = elim (Bool-cases (j == k)) [
    | inl same ↦ rw (same, (eq_iff j k).0 same, apart) refl
    | inr differ ↦ (elim (Bool-cases (j == i)) [
      | inl here ↦ rw (differ, here) refl
      | inr elsewhere ↦ rw (differ, elsewhere) (lookup-insert_other k v d i apart)
    ])
  ]

  pub lookup-erase_same : (k : String) (d : List (String × A)) → lookup (erase k d) k ≡ none
  unfolding lookup erase
  lookup-erase_same k [] = refl
  lookup-erase_same k ((j, w) ∷ d) = elim (Bool-cases (j == k)) [
    | inl same ↦ rw same (lookup-erase_same k d)
    | inr differ ↦ rw (differ, differ) (lookup-erase_same k d)
  ]

  pub lookup-erase_other :
      (k : String) (d : List (String × A)) (i : String)
      → (k == i) ≡ false
      → lookup (erase k d) i ≡ lookup d i
  unfolding lookup erase
  lookup-erase_other k [] i apart = refl
  lookup-erase_other k ((j, w) ∷ d) i apart = elim (Bool-cases (j == k)) [
    | inl same ↦ rw (same, (eq_iff j k).0 same, apart) (lookup-erase_other k d i apart)
    | inr differ ↦ (elim (Bool-cases (j == i)) [
      | inl here ↦ rw (differ, here) refl
      | inr elsewhere ↦ rw (differ, elsewhere) (lookup-erase_other k d i apart)
    ])
  ]
