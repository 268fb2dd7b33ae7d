-- ===== src/Policy/Pattern.antt =====
-- packages/openterms-py/openterms/policy/pattern.py: dotted paths and the constrained patterns of
-- the `args_pattern_match` rule.
pub mod Matches
pub mod Positions
pub mod Invariant
pub mod GlobLoop
pub mod Backtracking
use mathlib.Core.List.{reverse}
use openterms.Prelude.{
  ℕ, zero, suc, ◌+◌, ◌*◌, String, Bool, true, false, ◌&&◌, ◌||◌, Option, none, some, List, [], ◌∷◌,
  ltb, eqb, if◌then◌else◌, ◌==◌, length, get_elem?,
}
use openterms.Python.{
  Value, null, str, dict, Fields, Builtins, Result, ok, fail, value_error, get, as_text, split_dot,
  codes, is_prefix, is_suffix, is_infix, text_mem, join_text, ◌>>=◌, ◌>>◌, ensure,
}

abbrev pub valid_ops : List String
valid_ops = "equals" ∷ "prefix" ∷ "suffix" ∷ "contains" ∷ "glob" ∷ []

-- the loop over the parts; `null` is Python's None
unfoldable pub walk : Value → List String → Value
unfolding get
walk cur [] = cur
walk (dict d) (part ∷ parts) = elim (get d part) [ none ↦ null | some v ↦ walk v parts ]
walk _ (part ∷ parts) = null

unfoldable pub resolve_path : Fields → String → Value
unfolding walk split_dot
resolve_path receipt path = if path == "" then null else walk (dict receipt) (split_dot path)

-- The variables of the loop in `_glob_match`. `star` is `none` for the code's -1.
pub record Cursor : Type 0 where
  pub p_i : ℕ
  pub t_i : ℕ
  pub star : Option ℕ
  pub matched : ℕ

-- p_i < len(pattern) and pattern[p_i] == c
unfoldable pub char_is : List ℕ → ℕ → ℕ → Bool
char_is pattern p_i c = elim (get_elem? pattern p_i) [ none ↦ false | some d ↦ eqb d c ]

-- pattern[p_i] == "?" or pattern[p_i] == target[t_i], at characters of the two texts
abbrev pub fits : ℕ → ℕ → Bool
fits d c = eqb d b'?' || eqb d c

-- p_i < len(pattern) and (pattern[p_i] == "?" or pattern[p_i] == target[t_i])
unfoldable pub accepts : List ℕ → List ℕ → ℕ → ℕ → Bool
accepts pattern target p_i t_i = elim (get_elem? pattern p_i) [
  | none ↦ false
  | some d ↦ elim (get_elem? target t_i) [ none ↦ eqb d b'?' | some c ↦ fits d c ]
]

-- One round of the first loop; `none` is `return False`.
unfoldable pub round : List ℕ → List ℕ → Cursor → Option Cursor
unfolding char_is accepts
round pattern target c =
    if char_is pattern c.p_i b'*'
    then some (record { p_i = suc c.p_i; t_i = c.t_i; star = some c.p_i; matched = c.t_i })
    else if accepts pattern target c.p_i c.t_i
    then some (record c { p_i = suc c.p_i; t_i = suc c.t_i })
    else elim c.star [
      | none ↦ none
      | some s ↦
          some (record { p_i = suc s; t_i = suc c.matched; star = some s; matched = suc c.matched })
    ]

-- The first loop, on fuel, and the code behind it. `none` means that the fuel ran out.
unfoldable pub skip_stars : ℕ → List ℕ → ℕ → ℕ
unfolding char_is
skip_stars zero pattern p_i = p_i
skip_stars (suc f) pattern p_i =
    let next = skip_stars f pattern (suc p_i) in if char_is pattern p_i b'*' then next else p_i

unfoldable pub at_end : List ℕ → ℕ → Bool
unfolding skip_stars
at_end pattern p_i = eqb (skip_stars (length pattern) pattern p_i) (length pattern)

unfoldable pub glob_loop : ℕ → List ℕ → List ℕ → Cursor → Option Bool
unfolding round at_end
glob_loop zero pattern target c = none
glob_loop (suc f) pattern target c =
    let again : Option Bool = elim (round pattern target c) [
      | none ↦ some false
      | some c' ↦ glob_loop f pattern target c'
    ] in
    if ltb c.t_i (length target) then again else some (at_end pattern c.p_i)

abbrev pub start : Cursor
start = record { p_i = 0; t_i = 0; star = none; matched = 0 }

abbrev pub glob_fuel : List ℕ → List ℕ → ℕ
glob_fuel pattern target = (length target + 1) * (length pattern + 1)

-- `_glob_match`, on code points
unfoldable pub glob_run : List ℕ → List ℕ → Option Bool
unfolding glob_loop
glob_run pattern target = glob_loop (glob_fuel pattern target) pattern target start

unfoldable pub glob_match : String → String → Bool
unfolding glob_run codes
glob_match pattern target = elim (glob_run (codes pattern) (codes target)) [
  | none ↦ false
  | some b ↦ b
]

-- target if isinstance(target, str) else str(target)
unfoldable pub text_form : Builtins → Value → String
text_form py (str s) = s
text_form py v = py.str_of v

match_text : String → String → String → Bool
unfolding glob_match codes is_prefix is_suffix is_infix
match_text op value target =
    if op == "equals"
    then target == value
    else if op == "prefix"
    then is_prefix (codes value) (codes target)
    else if op == "suffix"
    then is_suffix (codes value) (codes target)
    else if op == "contains"
    then is_infix (codes value) (codes target)
    else glob_match value target

-- if target is None: return False
match_target : Builtins → String → String → Value → Bool
unfolding match_text text_form
match_target py op value null = false
match_target py op value target = match_text op value (text_form py target)

unfoldable pub match_one : Builtins → String → String → Value → Result Bool
unfolding match_target text_mem join_text
match_one py op value target = do
  ensure (text_mem op valid_ops)
      (value_error (join_text ("Unknown pattern operator: " ∷ py.repr_of (str op) ∷ [])))
  ok (match_target py op value target)
