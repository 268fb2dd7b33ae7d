-- ===== src/Python/Objects.antt =====
-- Dynamically typed values, and dictionaries in insertion order.
use openterms.Prelude.{
  String, Bool, true, false, Option, none, some, List, [], ◌∷◌, ◌||◌, ◌==◌, if◌then◌else◌,
}
use openterms.Prelude.Int.{ℤ}
use openterms.Python.Exceptions.{Result, ok, fail, type_error, key_error}
use openterms.Python.Words.{codes, is_infix}

-- A JSON-shaped object. A float is kept as its `repr`, which determines it. An entry of a
-- dictionary whose key is not a text is `other`.
mutual
  pub data Value : Type 0 where
    null : Value
    bool : Bool → Value
    int : ℤ → Value
    float : String → Value
    str : String → Value
    list : Values → Value
    dict : Fields → Value

  pub data Values : Type 0 where
    nil : Values
    cons : Value → Values → Values

  pub data Fields : Type 0 where
    end : Fields
    field : String → Value → Fields → Fields
    other : Value → Value → Fields → Fields

-- Built-in functions that the SDK only calls: str(v), repr(v), type(v).__name__, sorted(vs) and v == w.
pub record Builtins : Type 0 where
  pub str_of : Value → String
  pub repr_of : Value → String
  pub type_name : Value → String
  pub sorted_of : Values → Result Values
  pub equals : Value → Value → Bool

-- d.get(k); `none` for a missing key
unfoldable pub get : Fields → String → Option Value
get end k = none
get (field j v d) k = if j == k then some v else get d k
get (other j v d) k = get d k

-- k in d
unfoldable pub has : Fields → String → Bool
has end k = false
has (field j v d) k = j == k || has d k
has (other j v d) k = has d k

-- d.get(k, default)
unfoldable pub get_or : Fields → String → Value → Value
get_or end k default = default
get_or (field j v d) k default = if j == k then v else get_or d k default
get_or (other j v d) k default = get_or d k default

-- d[k] = v: in place, or at the end for a new key
unfoldable pub put : String → Value → Fields → Fields
put k v end = field k v end
put k v (field j w d) = if j == k then field j v d else field j w (put k v d)
put k v (other j w d) = other j w (put k v d)

-- v == s
unfoldable pub is_text : Value → String → Bool
is_text (str t) s = t == s
is_text _ s = false

-- v in texts
unfoldable pub value_mem : Value → List String → Bool
unfolding is_text
value_mem v [] = false
value_mem v (t ∷ ts) = is_text v t || value_mem v ts

-- isinstance(v, str)
unfoldable pub as_text : Value → Option String
as_text (str s) = some s
as_text _ = none

-- isinstance(v, int) and not isinstance(v, bool)
unfoldable pub int_of : Value → Option ℤ
int_of (int n) = some n
int_of _ = none

-- a list of texts, if all(isinstance(v, str) for v in vs)
unfoldable pub as_text_list : Values → Option (List String)
as_text_list nil = some []
as_text_list (cons (str s) vs) = elim (as_text_list vs) [ none ↦ none | some ss ↦ some (s ∷ ss) ]
as_text_list (cons _ vs) = none

list_has : Values → String → Bool
unfolding is_text
list_has nil s = false
list_has (cons v vs) s = is_text v s || list_has vs s

-- s in v
unfoldable pub in_value : String → Value → Result Bool
unfolding list_has codes is_infix
in_value s (dict d) = ok (has d s)
in_value s (list vs) = ok (list_has vs s)
in_value s (str t) = ok (is_infix (codes s) (codes t))
in_value s _ = fail type_error

-- v[s] for a text s
unfoldable pub subscript : Value → String → Result Value
unfolding get
subscript (dict d) s = elim (get d s) [ none ↦ fail (key_error s) | some v ↦ ok v ]
subscript _ s = fail type_error

-- v is None
abbrev pub is_null : Value → Bool
is_null null = true
is_null _ = false

-- a list of texts as a list object
unfoldable pub texts : List String → Values
texts [] = nil
texts (s ∷ ss) = cons (str s) (texts ss)
