-- ===== src/Corpus/Daily.antt =====
-- `compute_daily_aggregates` of packages/openterms-py/scripts/generate_corpus.py.
pub mod Totals
use openterms.Prelude.{ℕ, zero, suc, String, Bool, Option, none, some, List, [], ◌∷◌, if◌then◌else◌}
use openterms.Prelude.Int.{ℤ, pos, ◌+ℤ◌}
use openterms.Python.{
  Value, int, str, list, dict, Values, nil, cons, Fields, end, field, other, Builtins, Error,
  key_error, type_error, Result, ok, fail, ◌>>=◌, subscript, is_text, join_text, lookup, insert,
}
use Prim.Native.String as String

-- text[:n]
unfoldable pub first_chars : ℕ → String.String → String.String
first_chars zero s = ""
first_chars (suc n) String.[] = ""
first_chars (suc n) (String.◌∷◌ c s) = String.◌∷◌ c (first_chars n s)

-- `utc_day_of` of a timestamp. Any value but a text is no key or cannot be sliced.
unfoldable pub utc_day_of : Value → Result String
unfolding first_chars
utc_day_of (str text) = ok (first_chars 10 text)
utc_day_of _ = fail type_error

-- per_day.get(day, 0)
unfoldable pub spent_on : List (String × ℤ) → String → ℤ
unfolding lookup
spent_on per_day day = elim (lookup per_day day) [ none ↦ pos 0 | some total ↦ total ]

-- utc_day_of(r["timestamp"])
unfoldable pub day_of : Fields → Result String
unfolding utc_day_of subscript
day_of r = do timestamp ← subscript (dict r) "timestamp"; utc_day_of timestamp

-- int(r["amount_charged"]); `to_int` is int
unfoldable pub amount_of : (Value → Result ℤ) → Fields → Result ℤ
unfolding subscript
amount_of to_int r = do charged ← subscript (dict r) "amount_charged"; to_int charged

-- {rule_id: prior}
unfoldable pub aggregate : Value → ℤ → Result Fields
aggregate (str rule_id) prior = ok (field rule_id (int prior) end)
aggregate (list _) prior = fail type_error
aggregate (dict _) prior = fail type_error
aggregate rule_id prior = ok (other rule_id (int prior) end)

-- the loop of `compute_daily_aggregates`
unfoldable pub daily_loop :
    (Value → Result ℤ) → Value → List Fields → List (String × ℤ) → Result (List Fields)
unfolding day_of amount_of spent_on insert aggregate
daily_loop to_int rule_id [] per_day = ok []
daily_loop to_int rule_id (r ∷ receipts) per_day = do
  day ← day_of r
  let prior = spent_on per_day day
  entry ← aggregate rule_id prior
  amount ← amount_of to_int r
  out ← daily_loop to_int rule_id receipts (insert day (prior +ℤ amount) per_day)
  ok (entry ∷ out)

-- `compute_daily_aggregates`
unfoldable pub compute_daily_aggregates :
    (Value → Result ℤ) → List Fields → Value → Result (List Fields)
unfolding daily_loop
compute_daily_aggregates to_int receipts rule_id = daily_loop to_int rule_id receipts []
