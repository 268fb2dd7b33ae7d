-- ===== src/Corpus/Examples.antt =====
-- The daily totals of a small corpus.
mod Generated
mod Accepted
mod Written
use openterms.Prelude.{◌≡◌, refl, List, [], ◌∷◌, map, String}
use openterms.Prelude.Int.{ℤ, pos, ◌+ℤ◌}
use openterms.Python.{Value, int, str, Fields, end, field, Result, ok, fail, type_error, ◌>>=◌}
use openterms.Corpus.Daily.{compute_daily_aggregates}
use openterms.Corpus.Daily.Totals.{entries_of, totals_before, compute_daily_aggregates-totals}

-- int of an integer
abbrev int_value : Value → Result ℤ
int_value (int n) = ok n
int_value _ = fail type_error

abbrev charged : String → ℤ → Fields
charged timestamp amount =
    field "timestamp" (str timestamp) (field "amount_charged" (int amount) end)

abbrev two_days : List Fields
two_days =
    charged "2026-01-01T08:00:00.000Z" (pos 5)
    ∷ charged "2026-01-02T08:00:00.000Z" (pos 2)
    ∷ charged "2026-01-01T09:00:00.000Z" (pos 4)
    ∷ charged "2026-01-01T10:00:00.000Z" (pos 1)
    ∷ []

abbrev cap : ℤ → Fields
cap prior = field "cap" (int prior) end

two_days_totals :
    compute_daily_aggregates int_value two_days (str "cap")
    ≡ ok (cap (pos 0) ∷ cap (pos 0) ∷ cap (pos 5) ∷ cap (pos 9) ∷ [])
unfolding compute_daily_aggregates ◌+ℤ◌
two_days_totals = refl

compute_daily_aggregates-totals_example :
    compute_daily_aggregates int_value two_days (str "cap")
    ≡ (entries_of int_value two_days >>= (λ entries. ok (map cap (totals_before [] entries))))
compute_daily_aggregates-totals_example = compute_daily_aggregates-totals int_value two_days "cap"
