-- ===== src/Policy/Pattern/Positions.antt =====
-- Positions of a pattern or a text, and the loop of `_glob_match` over the trailing stars.
use openterms.Prelude.{
  ℕ, zero, suc, ◌+◌, ◌≤◌, ◌<◌, true, ◌≡◌, refl, sym, ◌∙◌, ◌↔◌, none, some, List, [], ◌∷◌, arith,
  eqb, length, get_elem?, drop,
}
use openterms.Policy.Pattern.{char_is, skip_stars, at_end}
use openterms.Policy.Pattern.Matches.{Matches, only_stars, only_stars-Matches}

-- What stands at a position, and what the rest of the list is.
pub data At (xs : List ℕ) (i : ℕ) : Type 0 where
  inside :
      (d : ℕ) → get_elem? xs i ≡ some d → drop i xs ≡ d ∷ drop (suc i) xs → i < length xs → At xs i
  outside : get_elem? xs i ≡ none → drop i xs ≡ [] → length xs ≤ i → At xs i

pub at : (xs : List ℕ) (i : ℕ) → At xs i
at [] zero = outside refl refl (omega arith)
at [] (suc i) = outside refl refl (omega arith)
at (x ∷ xs) zero = inside x refl refl (omega arith)
at (x ∷ xs) (suc i) = elim (at xs i) [
  | inside d g e h ↦ inside d g e (omega arith)
  | outside g e h ↦ outside g e (omega arith)
]

-- the loop behind the first loop
skip_stars-only_stars :
    (f : ℕ) (p : List ℕ) (i : ℕ)
    → length p ≤ i + f
    → i ≤ length p
    → eqb (skip_stars f p i) (length p) ≡ only_stars (drop i p)
unfolding skip_stars only_stars char_is
skip_stars-only_stars zero p i h k = elim (at p i) [
  | inside d g e l ↦ absurd (omega arith)
  | outside g e l ↦ rw e (ground arith)
]
skip_stars-only_stars (suc f) p i h k = elim (at p i) [
  | inside d g e l ↦ rw e (ground (arith, skip_stars-only_stars f p (suc i), g))
  | outside g e l ↦ rw e (ground (arith, g))
]

pub at_end-Matches :
    (p : List ℕ) (i : ℕ) → i ≤ length p → (at_end p i ≡ true) ↔ Matches (drop i p) []
unfolding at_end
at_end-Matches p i k =
    let e = skip_stars-only_stars (length p) p i (omega arith) k in
    let (sound, complete) = only_stars-Matches (drop i p) in
    (λ h. sound (sym e ∙ h), λ m. e ∙ complete m)
