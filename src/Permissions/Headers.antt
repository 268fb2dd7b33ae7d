-- ===== src/Permissions/Headers.antt =====
-- The text processing of packages/openterms-py/openterms/permissions/client.py: domains, and the
-- Cache-Control header, whose regular expressions are written out.
use openterms.Prelude.{
  ℕ, zero, suc, ◌+◌, ◌-◌, ◌*◌, String, Bool, true, false, Option, none, some, List, [], ◌∷◌, ◌&&◌,
  ◌||◌, leb, eqb, if◌then◌else◌,
}
use openterms.Prelude.Int.{ℤ, pos}
use openterms.Python.{codes, starts_with}
use Prim.Native.Char.{code}

-- str.lower and str.strip
pub record TextMethods : Type 0 where
  pub lower : String → String
  pub strip : String → String

-- text[n:]
unfoldable pub drop_text : ℕ → String → String
drop_text zero text = text
drop_text (suc n) String.[] = ""
drop_text (suc n) (String.◌∷◌ c text) = drop_text n text

-- re.sub(r"^https?://", "", domain)
unfoldable pub drop_scheme : String → String
unfolding starts_with drop_text
drop_scheme domain =
    if starts_with domain "https://"
    then drop_text 8 domain
    else if starts_with domain "http://"
    then drop_text 7 domain
    else domain

-- domain.split("/")[0]
unfoldable pub before_slash : String → String
before_slash String.[] = ""
before_slash (String.◌∷◌ c text) =
    let rest = before_slash text in if eqb (code c) b'/' then "" else String.◌∷◌ c rest

-- `_normalise_domain`
unfoldable pub normalise_domain : TextMethods → String → String
unfolding drop_scheme before_slash
normalise_domain text domain = before_slash (drop_scheme (text.lower (text.strip domain)))

-- A header's text has code points below 256, where the letters that re.IGNORECASE identifies with
-- those of the two expressions are the ASCII ones.
unfoldable pub lower_code : ℕ → ℕ
lower_code c = if leb b'A' c && leb c b'Z' then c + 32 else c

-- what stands behind a word that begins the text, up to case
unfoldable pub after_word : List ℕ → List ℕ → Option (List ℕ)
unfolding lower_code
after_word [] text = some text
after_word (w ∷ word) [] = none
after_word (w ∷ word) (c ∷ text) =
    let rest = after_word word text in if eqb w (lower_code c) then rest else none

unfoldable pub is_digit : ℕ → Bool
is_digit c = leb b'0' c && leb c b'9'

-- the value of the digits that begin a text, behind those that made `n`
unfoldable pub digits_value : ℕ → List ℕ → ℕ
unfolding is_digit
digits_value n [] = n
digits_value n (c ∷ text) =
    let rest = digits_value (n * 10 + (c - b'0')) text in if is_digit c then rest else n

-- (\d+) at the start of a text, as a number
unfoldable pub leading_number : List ℕ → Option ℕ
unfolding is_digit digits_value
leading_number [] = none
leading_number (c ∷ text) =
    let value = digits_value (c - b'0') text in if is_digit c then some value else none

-- max-age=(\d+) at the start of a text
unfoldable pub max_age_at : List ℕ → Option ℕ
unfolding after_word leading_number codes
max_age_at text = elim (after_word (codes "max-age=") text) [
  | none ↦ none
  | some rest ↦ leading_number rest
]

-- re.search(r"max-age=(\d+)", text, re.IGNORECASE)
unfoldable pub search_max_age : List ℕ → Option ℕ
unfolding max_age_at
search_max_age [] = none
search_max_age (c ∷ text) = elim (max_age_at (c ∷ text)) [
  | none ↦ search_max_age text
  | some n ↦ some n
]

unfoldable pub is_some : Option (List ℕ) → Bool
is_some none = false
is_some (some _) = true

-- re.search(r"no-store|no-cache", text, re.IGNORECASE)
unfoldable pub search_no_store : List ℕ → Bool
unfolding after_word is_some codes
search_no_store [] = false
search_no_store (c ∷ text) =
    is_some (after_word (codes "no-store") (c ∷ text))
    || is_some (after_word (codes "no-cache") (c ∷ text))
    || search_no_store text

-- `_parse_max_age`. Fewer digits than int() takes (4300) are assumed.
unfoldable pub parse_max_age : String → Option ℤ
unfolding search_max_age search_no_store codes
parse_max_age cache_control = elim (search_max_age (codes cache_control)) [
  | some n ↦ some (pos n)
  | none ↦ (if search_no_store (codes cache_control) then some (pos 0) else none)
]
