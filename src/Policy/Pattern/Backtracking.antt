-- ===== src/Policy/Pattern/Backtracking.antt =====
-- How many rounds `_glob_match` takes: the comments of policy/pattern.py call it linear.
use openterms.Prelude.{
  ℕ, zero, suc, ◌+◌, ◌*◌, ◌≤◌, ◌<◌, Bool, ◌≡◌, refl, ◌∙◌, Option, none, some, List, [], ◌∷◌, ◌++◌,
  arith, length, get_elem?, replicate, ap,
}
use openterms.Policy.Pattern.{Cursor, glob_loop, start}
use openterms.Policy.Pattern.GlobLoop.{round-star, round-accept, round-mismatch, retried}

-- the pattern *aa…ab with k letters a, and a text of letters a only
abbrev pub star_as_b : ℕ → List ℕ
star_as_b k = b'*' ∷ (replicate k b'a' ++ b'b' ∷ [])

abbrev pub letters : ℕ → List ℕ
letters n = replicate n b'a'

length-letters : (n : ℕ) → length (letters n) ≡ n
length-letters zero = refl
length-letters (suc n) = omega (arith, length-letters n)

get_elem?-letters : (n i : ℕ) → i < n → get_elem? (letters n) i ≡ some b'a'
get_elem?-letters zero i h = elim h [ ]
get_elem?-letters (suc n) zero h = refl
get_elem?-letters (suc n) (suc i) h = get_elem?-letters n i (omega arith)

abbrev as_b : ℕ → List ℕ
as_b k = replicate k b'a' ++ b'b' ∷ []

get_elem?-as : (k i : ℕ) → i < k → get_elem? (as_b k) i ≡ some b'a'
get_elem?-as zero i h = elim h [ ]
get_elem?-as (suc k) zero h = refl
get_elem?-as (suc k) (suc i) h = get_elem?-as k i (omega arith)

get_elem?-b : (k : ℕ) → get_elem? (as_b k) k ≡ some b'b'
get_elem?-b zero = refl
get_elem?-b (suc k) = get_elem?-b k

-- the cursor with i letters matched behind the star, which has taken m characters
abbrev cursor : ℕ → ℕ → ℕ → Cursor
cursor i m t = record { p_i = suc i; t_i = t; star = some 0; matched = m }

module _ (k n : ℕ) where
  abbrev run : ℕ → Cursor → Option Bool
  run f c = glob_loop f (star_as_b k) (letters n) c

  in_text : {t : ℕ} → t < n → t < length (letters n)
  in_text h = omega (arith, length-letters n)

  -- With j retries to come, each of k + 1 rounds, and r letters to match before the next of them.
  spends :
      (f j r i m t : ℕ)
      → i + r ≡ k
      → t ≡ m + i
      → m + k + j < n
      → f ≤ j * (k + 1) + r
      → run f (cursor i m t) ≡ none
  unfolding glob_loop retried
  spends zero j r i m t e e' h b = refl
  spends (suc f) j (suc r) i m t e e' h b =
      round-accept (star_as_b k) (letters n) f (cursor i m t) (in_text (omega arith)) b'a' b'a'
        (get_elem?-as k i (omega arith)) (get_elem?-letters n t (omega arith)) refl refl
      ∙ spends f j r (suc i) m (suc t) (omega arith) (omega arith) h (omega arith)
  spends (suc f) zero zero i m t e e' h b = absurd (omega arith)
  spends (suc f) (suc j) zero i m t e e' h b =
      let at_b : get_elem? (as_b k) i ≡ some b'b' =
        ap (get_elem? (as_b k)) (omega arith) ∙ get_elem?-b k in
      round-mismatch (star_as_b k) (letters n) f (cursor i m t) (in_text (omega arith)) b'b' b'a'
        at_b (get_elem?-letters n t (omega arith)) refl refl
      ∙ spends f j k 0 (suc m) (suc m) (omega arith) (omega arith) (omega arith) (omega arith)

-- The matcher is not linear: on the pattern *aa…ab with k letters a and a text of k + j + 1 letters a,
-- (j + 1) * (k + 1) rounds do not end the loop, whatever k and j are.
pub glob_loop-quadratic :
    (k j f : ℕ) → f ≤ suc j * (k + 1) → glob_loop f (star_as_b k) (letters (k + suc j)) start ≡ none
unfolding glob_loop
glob_loop-quadratic k j zero b = refl
glob_loop-quadratic k j (suc f) b =
    round-star (star_as_b k) (letters (k + suc j)) f start (in_text k (k + suc j) (omega arith))
      b'*' refl refl
    ∙ spends k (k + suc j) f j k 0 0 0 (omega arith) (omega arith) (omega arith) (omega arith)
