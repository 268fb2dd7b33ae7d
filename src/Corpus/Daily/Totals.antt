-- ===== src/Corpus/Daily/Totals.antt =====
-- What the daily aggregates are.
use openterms.Prelude.{
  ◌≡◌, refl, sym, ap, ◌∙◌, String, List, [], ◌∷◌, ◌==◌, eq_iff, Bool-cases, inl, inr, map,
  if◌then◌else◌,
}
use openterms.Prelude.Int.{ℤ, pos, ◌+ℤ◌}
use openterms.Python.{
  Value, int, str, Fields, end, field, Result, Result-cases, ok, fail, ◌>>=◌, lookup, insert,
  lookup-insert_same, lookup-insert_other,
}
use openterms.Corpus.Daily.{
  day_of, amount_of, aggregate, spent_on, daily_loop, compute_daily_aggregates,
}

-- the day and the amount of a receipt
abbrev pub day_and_amount : (Value → Result ℤ) → Fields → Result (String × ℤ)
day_and_amount to_int r = do day ← day_of r; amount ← amount_of to_int r; ok (day, amount)

-- the days and the amounts of receipts, or the first exception that reading them raises
unfoldable pub entries_of : (Value → Result ℤ) → List Fields → Result (List (String × ℤ))
entries_of to_int [] = ok []
entries_of to_int (r ∷ receipts) = do
  entry ← day_and_amount to_int r
  entries ← entries_of to_int receipts
  ok (entry ∷ entries)

-- the sum of the amounts of a day, over entries whose last one comes first
unfoldable pub total : String → List (String × ℤ) → ℤ
total day [] = pos 0
total day ((d, amount) ∷ before) =
    let rest = total day before in if d == day then rest +ℤ amount else rest

-- for each entry, the sum of the amounts of its day before it
unfoldable pub totals_before : List (String × ℤ) → List (String × ℤ) → List ℤ
unfolding total
totals_before before [] = []
totals_before before ((day, amount) ∷ entries) =
    total day before ∷ totals_before ((day, amount) ∷ before) entries

spent_on-insert :
    (per_day before : List (String × ℤ)) (d : String) (amount : ℤ)
    → ((day : String) → spent_on per_day day ≡ total day before)
    → (day : String)
    → spent_on (insert d (spent_on per_day d +ℤ amount) per_day) day
      ≡ total day ((d, amount) ∷ before)
unfolding spent_on total
spent_on-insert per_day before d amount same day = elim (Bool-cases (d == day)) [
  | inr apart ↦
      rw (spent_on, apart, lookup-insert_other d (spent_on per_day d +ℤ amount) per_day day apart)
        (same day)
  | inl here ↦
      rw
        (
          here,
          sym ((eq_iff d day).0 here),
          spent_on,
          lookup-insert_same d (spent_on per_day d +ℤ amount) per_day,
        )
        (ap (λ t. t +ℤ amount) (same d)
          ∙ ap (λ x. total x before +ℤ amount) ((eq_iff d day).0 here))
]

module _ (to_int : Value → Result ℤ) (rule_id : String) where
  entry_for : ℤ → Fields
  entry_for prior = field rule_id (int prior) end

  regroup :
      (day : String) (amount : ℤ) (before : List (String × ℤ))
      (entries : Result (List (String × ℤ)))
      → (entries
          >>= (λ entries. ok (map entry_for (totals_before ((day, amount) ∷ before) entries)))
          >>= (λ out. ok (entry_for (total day before) ∷ out)))
        ≡ (entries
            >>= (λ entries. ok ((day, amount) ∷ entries))
            >>= (λ entries. ok (map entry_for (totals_before before entries))))
  unfolding totals_before
  regroup day amount before (ok entries) = refl
  regroup day amount before (fail e) = refl

  daily_loop-totals :
      (receipts : List Fields) (per_day before : List (String × ℤ))
      → ((day : String) → spent_on per_day day ≡ total day before)
      → daily_loop to_int (str rule_id) receipts per_day ≡ (
          entries_of to_int receipts
          >>= (λ entries. ok (map entry_for (totals_before before entries))))
  unfolding daily_loop entries_of aggregate entry_for totals_before
  daily_loop-totals [] per_day before same = refl
  daily_loop-totals (r ∷ receipts) per_day before same = elim (Result-cases (day_of r)) [
    | inr (e, failed) ↦ rw failed refl
    | inl (day, read) ↦ (elim (Result-cases (amount_of to_int r)) [
      | inr (e, failed) ↦ rw (read, failed) refl
      | inl (amount, charged) ↦
          (let rest =
              daily_loop-totals receipts (insert day (spent_on per_day day +ℤ amount) per_day)
                ((day, amount) ∷ before) (spent_on-insert per_day before day amount same) in
            rw (read, charged, rest, same day)
              (regroup day amount before (entries_of to_int receipts)))
    ])
  ]

-- compute_daily_aggregates raises what reading the day and the amount of a receipt raises first;
-- otherwise it gives for each receipt the sum of the amounts of the receipts before it with the
-- same day.
pub compute_daily_aggregates-totals :
    (to_int : Value → Result ℤ) (receipts : List Fields) (rule_id : String)
    → compute_daily_aggregates to_int receipts (str rule_id) ≡ (
        entries_of to_int receipts >>= (λ entries.
          ok (map (λ prior. field rule_id (int prior) end) (totals_before [] entries))))
unfolding compute_daily_aggregates total spent_on lookup entry_for
compute_daily_aggregates-totals to_int receipts rule_id =
    daily_loop-totals to_int rule_id receipts [] [] (λ day. refl)
