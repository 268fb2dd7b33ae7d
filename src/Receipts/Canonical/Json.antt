-- ===== src/Receipts/Canonical/Json.antt =====
-- `json.dumps(v, sort_keys=True, separators=(",", ":"), ensure_ascii=False)` and the UTF-8 encoding,
-- as receipts/canonical.py calls them. Texts are sequences of code points here.
use Prim.Native.String.{compare}
use Prim.Native.Nat.{Ordering}
use openterms.Prelude.{
  ℕ, zero, suc, ◌+◌, ◌-◌, ◌/◌, ◌%◌, String, Bool, true, false, List, [], ◌∷◌, ◌++◌, ltb, eqb,
  if◌then◌else◌,
}
use openterms.Prelude.Int.{ℤ, pos, negsuc}
use openterms.Python.{
  Value, null, bool, int, float, str, list, dict, Values, nil, cons, Fields, end, field, other,
  codes,
}

abbrev pub backslash : ℕ
backslash = 92

hex_code : ℕ → ℕ
hex_code n = if ltb n 10 then b'0' + n else b'a' + (n - 10)

-- one character of a JSON text, with ensure_ascii=False
unfoldable pub escape : ℕ → List ℕ
unfolding hex_code
escape c =
    if eqb c b'"'
    then backslash ∷ b'"' ∷ []
    else if eqb c backslash
    then backslash ∷ backslash ∷ []
    else if eqb c 10
    then backslash ∷ b'n' ∷ []
    else if eqb c 13
    then backslash ∷ b'r' ∷ []
    else if eqb c 9
    then backslash ∷ b't' ∷ []
    else if eqb c 12
    then backslash ∷ b'f' ∷ []
    else if eqb c 8
    then backslash ∷ b'b' ∷ []
    else if ltb c 32
    then backslash ∷ b'u' ∷ b'0' ∷ b'0' ∷ hex_code (c / 16) ∷ hex_code (c % 16) ∷ []
    else c ∷ []

escape_all : List ℕ → List ℕ
unfolding escape
escape_all [] = []
escape_all (c ∷ cs) = escape c ++ escape_all cs

unfoldable pub quote : String → List ℕ
unfolding escape_all codes
quote s = b'"' ∷ (escape_all (codes s) ++ b'"' ∷ [])

-- str(n) for a number, with fuel above it
unfoldable pub decimal : ℕ → ℕ → List ℕ
decimal zero n = []
decimal (suc f) n =
    let more : List ℕ = decimal f (n / 10) ++ (b'0' + n % 10) ∷ [] in
    if ltb n 10 then (b'0' + n) ∷ [] else more

unfoldable pub int_text : ℤ → List ℕ
unfolding decimal
int_text (pos n) = decimal (suc n) n
int_text (negsuc n) = b'-' ∷ decimal (suc (suc n)) (suc n)

-- k < j, by code points
abbrev pub text_lt : String → String → Bool
text_lt k j = elim (compare k j) [ Ordering.lt ↦ true | _ ↦ false ]

-- sorted(d.items()): equal keys do not occur in a dictionary
unfoldable pub insert_sorted : String → Value → Fields → Fields
insert_sorted k v end = field k v end
insert_sorted k v (field j w d) =
    if text_lt j k then field j w (insert_sorted k v d) else field k v (field j w d)
insert_sorted k v (other j w d) = field k v (other j w d)

abbrev comma_before : Fields → List ℕ
comma_before end = []
comma_before _ = b',' ∷ []

-- The printer. An entry whose key is no text, or a float, does not get here: `_validate` refuses it.
-- `sort_values` sorts every dictionary of a value, and `print` prints the entries as they stand.
unfoldable mutual
  unfolding insert_sorted

  pub sort_values : Value → Value
  sort_values null = null
  sort_values (bool b) = bool b
  sort_values (int n) = int n
  sort_values (float x) = float x
  sort_values (str s) = str s
  sort_values (list vs) = list (sort_items vs)
  sort_values (dict d) = dict (sort_fields d)

  pub sort_items : Values → Values
  sort_items nil = nil
  sort_items (cons v vs) = cons (sort_values v) (sort_items vs)

  pub sort_fields : Fields → Fields
  sort_fields end = end
  sort_fields (field k v d) = insert_sorted k (sort_values v) (sort_fields d)
  sort_fields (other k v d) = other k (sort_values v) (sort_fields d)

unfoldable mutual
  unfolding quote int_text codes

  pub print : Value → List ℕ
  print null = codes "null"
  print (bool true) = codes "true"
  print (bool false) = codes "false"
  print (int n) = int_text n
  print (float x) = codes x
  print (str s) = quote s
  print (list vs) = b'[' ∷ print_items vs
  print (dict d) = b'{' ∷ print_fields d

  pub print_items : Values → List ℕ
  print_items nil = b']' ∷ []
  print_items (cons v nil) = print v ++ b']' ∷ []
  print_items (cons v (cons w vs)) = print v ++ b',' ∷ print_items (cons w vs)

  pub print_fields : Fields → List ℕ
  print_fields end = b'}' ∷ []
  print_fields (field k v d) = quote k ++ b':' ∷ (print v ++ (comma_before d ++ print_fields d))
  print_fields (other k v d) = print k ++ b':' ∷ (print v ++ (comma_before d ++ print_fields d))

unfoldable pub emit : Value → List ℕ
unfolding sort_values print
emit v = print (sort_values v)

-- the UTF-8 bytes of one code point
unfoldable pub utf8_char : ℕ → List ℕ
utf8_char c =
    if ltb c 0x80
    then c ∷ []
    else if ltb c 0x800
    then (0xc0 + c / 64) ∷ (0x80 + c % 64) ∷ []
    else if ltb c 0x10000
    then (0xe0 + c / 4096) ∷ (0x80 + c / 64 % 64) ∷ (0x80 + c % 64) ∷ []
    else (0xf0 + c / 262144) ∷ (0x80 + c / 4096 % 64) ∷ (0x80 + c / 64 % 64) ∷ (0x80 + c % 64) ∷ []

-- text.encode("utf-8")
unfoldable pub utf8 : List ℕ → List ℕ
unfolding utf8_char
utf8 [] = []
utf8 (c ∷ cs) = utf8_char c ++ utf8 cs
