-- ===== src/Receipts/Base64/Sextets.antt =====
-- The alphabet of packages/openterms-py/openterms/receipts/_b64.py, one six-bit value at a time.
use openterms.Prelude.{
  and-true, ℕ, zero, suc, ◌<◌, ◌≡◌, refl, sym, ap, arith, Bool, true, false, not, ◌&&◌, List, [],
  ◌∷◌, ltb, eqb, eqb→eq, Bool-cases, inl, inr,
}
use openterms.Python.{codes}
use openterms.Receipts.Base64.{sextet_text, Mark, pad, skip, bits, mark_of}

abbrev first : List ℕ → ℕ
first [] = 0
first (c ∷ cs) = c

abbrev is_single : List ℕ → Bool
is_single (c ∷ []) = true
is_single _ = false

abbrev is_bits : ℕ → Mark → Bool
is_bits v (bits w) = eqb v w
is_bits v _ = false

-- the code of a six-bit value's character
unfoldable pub code_of : ℕ → ℕ
unfolding sextet_text codes
code_of v = first (codes (sextet_text v))

is_good : ℕ → Bool
is_good v =
    is_single (codes (sextet_text v))
    && (is_bits v (mark_of (code_of v)) && (ltb (code_of v) 128 && not (eqb (code_of v) b'=')))

all_good : ℕ → Bool
all_good zero = true
all_good (suc n) = is_good n && all_good n

alphabet_good : all_good 64 ≡ true
unfolding all_good is_good code_of mark_of
alphabet_good = refl

all_good-lt : (n v : ℕ) → all_good n ≡ true → v < n → is_good v ≡ true
unfolding all_good
all_good-lt zero v h l = absurd (omega arith)
all_good-lt (suc n) v h l =
    let (here, rest) = and-true (is_good n) (all_good n) h in
    elim (Bool-cases (eqb v n)) [
      | inl same ↦ rw (eqb→eq v n same) here
      | inr differ ↦ all_good-lt n v rest (ground arith)
    ]

single : (cs : List ℕ) → is_single cs ≡ true → cs ≡ first cs ∷ []
single (c ∷ []) h = refl
single cs h = ground arith

bits_of : (v : ℕ) (m : Mark) → is_bits v m ≡ true → m ≡ bits v
bits_of v (bits w) h = ap bits (sym (eqb→eq v w h))
bits_of v pad h = ground arith
bits_of v skip h = ground arith

-- what a six-bit value's character is
pub record Character (v : ℕ) : Type 0 where
  pub codes_of : codes (sextet_text v) ≡ code_of v ∷ []
  pub marks : mark_of (code_of v) ≡ bits v
  pub ascii : ltb (code_of v) 128 ≡ true
  pub no_pad : eqb (code_of v) b'=' ≡ false

not-true : (a : Bool) → not a ≡ true → a ≡ false
not-true true h = ground arith
not-true false h = refl

pub sextet-Character : (v : ℕ) → v < 64 → Character v
unfolding is_good code_of
sextet-Character v l =
    let good = all_good-lt 64 v alphabet_good l in
    let (one, rest) = and-true (is_single (codes (sextet_text v))) _ good in
    let (two, rest2) = and-true (is_bits v (mark_of (code_of v))) _ rest in
    let (three, four) = and-true (ltb (code_of v) 128) _ rest2 in
    record {
      codes_of = single (codes (sextet_text v)) one;
      marks = bits_of v (mark_of (code_of v)) two;
      ascii = three;
      no_pad = not-true (eqb (code_of v) b'=') four;
    }
