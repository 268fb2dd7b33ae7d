-- ===== src/Receipts/Canonical/Order.antt =====
-- The order of texts by their code points, in which a dictionary's keys are sorted.
use Prim.Native.Nat.{Ordering, compare as compare_ℕ}
use Prim.Native.Char.{Char, code}
use Prim.Native.String as String
use Prim.Native.String.{compare, then}
use Prim.Native.String.compare.{nil-nil, nil-cons, cons-nil, cons-cons}
use text.Mathlib.TextEquality.{path_by_compare}
use openterms.Prelude.{ℕ, ◌≡◌, refl, sym, ◌∙◌, arith, Bool, true, false, ◌==◌, eq_iff}
use openterms.Receipts.Canonical.Json.{text_lt}

-- the order the other way round
abbrev flip : Ordering → Ordering
flip Ordering.lt = Ordering.gt
flip Ordering.eq = Ordering.eq
flip Ordering.gt = Ordering.lt

compare_ℕ-flip : (a b : ℕ) → compare_ℕ b a ≡ flip (compare_ℕ a b)
compare_ℕ-flip a b = ground arith

flip-then : (o p : Ordering) → flip (then o p) ≡ then (flip o) (flip p)
flip-then Ordering.lt p = refl
flip-then Ordering.eq p = refl
flip-then Ordering.gt p = refl

compare-nil : compare String.[] String.[] ≡ Ordering.eq
compare-nil = λ i. nil-nil i

compare-shorter : (d : Char) (t : String.String) → compare String.[] (String.◌∷◌ d t) ≡ Ordering.lt
compare-shorter d t = λ i. nil-cons d t i

compare-longer : (c : Char) (s : String.String) → compare (String.◌∷◌ c s) String.[] ≡ Ordering.gt
compare-longer c s = λ i. cons-nil c s i

compare-cons :
    (c d : Char) (s t : String.String)
    → compare (String.◌∷◌ c s) (String.◌∷◌ d t) ≡ then (compare_ℕ (code c) (code d)) (compare s t)
compare-cons c d s t = λ i. cons-cons c d s t i

compare-flip : (s t : String.String) → compare t s ≡ flip (compare s t)
compare-flip String.[] String.[] = rw compare-nil refl
compare-flip String.[] (String.◌∷◌ d t) = rw (compare-shorter d t, compare-longer d t) refl
compare-flip (String.◌∷◌ c s) String.[] = rw (compare-shorter c s, compare-longer c s) refl
compare-flip (String.◌∷◌ c s) (String.◌∷◌ d t) =
    rw
      (
        compare-cons c d s t,
        compare-cons d c t s,
        compare_ℕ-flip (code c) (code d),
        compare-flip s t,
      )
      (sym (flip-then (compare_ℕ (code c) (code d)) (compare s t)))

abbrev is_lt : Ordering → Bool
is_lt Ordering.lt = true
is_lt _ = false

step :
    (a b c : ℕ) (p q r : Ordering)
    → (is_lt p ≡ false → is_lt q ≡ true → is_lt r ≡ true)
    → is_lt (then (compare_ℕ a b) p) ≡ false
    → is_lt (then (compare_ℕ a c) q) ≡ true
    → is_lt (then (compare_ℕ b c) r) ≡ true
step a b c p q r later not_first first = ground arith

is_lt-compare :
    (s t u : String.String)
    → is_lt (compare s t) ≡ false
    → is_lt (compare s u) ≡ true
    → is_lt (compare t u) ≡ true
is_lt-compare String.[] String.[] u not_first first = first
is_lt-compare String.[] (String.◌∷◌ d t) u not_first first =
    let bad = rw (compare-shorter d t) at not_first in cc
is_lt-compare (String.◌∷◌ c s) String.[] String.[] not_first first =
    let bad = rw (compare-longer c s) at first in cc
is_lt-compare (String.◌∷◌ c s) String.[] (String.◌∷◌ e u) not_first first =
    rw (compare-shorter e u) refl
is_lt-compare (String.◌∷◌ c s) (String.◌∷◌ d t) String.[] not_first first =
    let bad = rw (compare-longer c s) at first in cc
is_lt-compare (String.◌∷◌ c s) (String.◌∷◌ d t) (String.◌∷◌ e u) not_first first =
    rw (compare-cons d e t u) (
      step (code c) (code d) (code e) (compare s t) (compare s u) (compare t u)
        (is_lt-compare s t u) (rw (compare-cons c d s t) at not_first)
        (rw (compare-cons c e s u) at first))

-- Of two different texts one comes before the other, and not both.
pub text_lt-total :
    (k j : String.String) → (k == j) ≡ false → text_lt k j ≡ false → text_lt j k ≡ true
text_lt-total k j differ after = go (compare k j) refl (compare-flip k j)
  where
    go :
        (o : Ordering)
        → compare k j ≡ o
        → compare j k ≡ flip (compare k j)
        → is_lt (compare j k) ≡ true
    go Ordering.lt found flipped = let bad = rw (text_lt, found) at after in cc
    go Ordering.eq found flipped =
        let bad = sym ((eq_iff k j).1 (path_by_compare k j found)) ∙ differ in cc
    go Ordering.gt found flipped = rw (flipped, found) refl

pub text_lt-one : (k j : String.String) → text_lt k j ≡ true → text_lt j k ≡ false
text_lt-one k j before = rw (text_lt, compare-flip k j) (flipped (compare k j) before)
  where
    flipped : (o : Ordering) → is_lt o ≡ true → is_lt (flip o) ≡ false
    flipped Ordering.lt before = refl
    flipped Ordering.eq before = ground arith
    flipped Ordering.gt before = ground arith

-- A text that is not after the first one is before what the first one is before.
pub text_lt-between :
    (i j k : String.String) → text_lt i j ≡ false → text_lt i k ≡ true → text_lt j k ≡ true
text_lt-between i j k = is_lt-compare i j k
