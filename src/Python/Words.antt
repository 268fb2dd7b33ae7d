-- ===== src/Python/Words.antt =====
-- A `str` is its sequence of code points, which the native `String` holds (with no surrogates).
use Prim.Native.Char.{code}
use Prim.Native.String
use openterms.Prelude.{
  zero, suc, ℕ, Bool, true, false, List, [], ◌∷◌, ◌&&◌, ◌||◌, ◌==◌, eqb, if◌then◌else◌,
}
use mathlib.Core.List.{reverse}

unfoldable pub codes : String.String → List ℕ
codes String.[] = []
codes (String.◌∷◌ c s) = code c ∷ codes s

-- the first sequence begins the second
unfoldable pub is_prefix : List ℕ → List ℕ → Bool
is_prefix [] ys = true
is_prefix (x ∷ xs) [] = false
is_prefix (x ∷ xs) (y ∷ ys) = eqb x y && is_prefix xs ys

unfoldable pub is_suffix : List ℕ → List ℕ → Bool
unfolding is_prefix
is_suffix xs ys = is_prefix (reverse xs) (reverse ys)

-- the first sequence occurs in the second
unfoldable pub is_infix : List ℕ → List ℕ → Bool
unfolding is_prefix
is_infix xs [] = is_prefix xs []
is_infix xs (y ∷ ys) = is_prefix xs (y ∷ ys) || is_infix xs ys

-- text.startswith(prefix)
unfoldable pub starts_with : String.String → String.String → Bool
unfolding codes is_prefix
starts_with text prefix = is_prefix (codes prefix) (codes text)

-- text.rstrip(c) for one character, given by its code point
unfoldable pub rstrip : ℕ → String.String → String.String
rstrip c String.[] = ""
rstrip c (String.◌∷◌ d s) =
    let rest = rstrip c s in if eqb (code d) c && rest == "" then "" else String.◌∷◌ d rest

add_to_first : Prim.Native.Char.Char → List String.String → List String.String
add_to_first c [] = String.◌∷◌ c "" ∷ []
add_to_first c (part ∷ parts) = String.◌∷◌ c part ∷ parts

-- text.split(".")
unfoldable pub split_dot : String.String → List String.String
unfolding add_to_first
split_dot String.[] = "" ∷ []
split_dot (String.◌∷◌ c s) =
    let rest = split_dot s in if eqb (code c) b'.' then "" ∷ rest else add_to_first c rest

-- the parts of an f-string, joined
unfoldable pub join_text : List String.String → String.String
join_text [] = ""
join_text (part ∷ parts) = String.◌++◌ part (join_text parts)

-- text in texts
unfoldable pub text_mem : String.String → List String.String → Bool
text_mem s [] = false
text_mem s (t ∷ ts) = s == t || text_mem s ts

-- text[i] as a text of one character; empty out of range
unfoldable pub char_text : String.String → ℕ → String.String
char_text String.[] i = ""
char_text (String.◌∷◌ c s) zero = String.◌∷◌ c ""
char_text (String.◌∷◌ c s) (suc i) = char_text s i

-- text * n
unfoldable pub repeat_text : ℕ → String.String → String.String
repeat_text zero text = ""
repeat_text (suc n) text = String.◌++◌ text (repeat_text n text)
