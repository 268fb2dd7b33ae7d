-- ===== src/Corpus/Schedule.antt =====
-- `build_bucket_assignments` and `assign_timestamps` of packages/openterms-py/scripts/generate_corpus.py.
pub mod Sorted
pub mod Counts
use openterms.Prelude.{
  ℕ, zero, suc, ◌+◌, ◌-◌, ◌*◌, ◌/◌, ◌%◌, Bool, true, false, List, [], ◌∷◌, ◌++◌, length, replicate,
  leb, ltb, eqb, if◌then◌else◌,
}
use openterms.Prelude.Int.{ℤ, pos, negsuc, sub_ℕ}
use openterms.Python.{int, Builtins, value_error, Result, ok, ◌>>=◌, ensure, ◌>>◌, join_text}
use openterms.Corpus.Scenario.{Bucket, daily_limit, bucket_order, Scenario}
use openterms.Corpus.Times.{Datetimes, shift}

-- the loop of `build_bucket_assignments`
unfoldable pub assigned : (Bucket → ℕ) → List Bucket → List Bucket
assigned counts [] = []
assigned counts (bucket ∷ buckets) = replicate (counts bucket) bucket ++ assigned counts buckets

-- `build_bucket_assignments`
unfoldable pub build_bucket_assignments : Builtins → Scenario → Result (List Bucket)
unfolding assigned join_text
build_bucket_assignments py scenario =
    let out = assigned scenario.buckets bucket_order in
    ensure (eqb (length out) scenario.count) (
      value_error (
        join_text (
          "bucket counts sum to "
          ∷ py.str_of (int (pos (length out)))
          ∷ " but scenario.count is "
          ∷ py.str_of (int (pos scenario.count))
          ∷ [])))
    >> ok out

-- (i * total_ms) // m, which rounds down
unfoldable pub share_of : ℕ → ℤ → ℕ → ℤ
share_of i (pos total) m = pos (i * total / m)
share_of zero (negsuc total) m = pos 0
share_of (suc i) (negsuc total) m = negsuc ((suc i * suc total - 1) / m)

-- max(n - 1, 1)
abbrev pub divisor : ℕ → ℕ
divisor n = if ltb 1 (n - 1) then n - 1 else 1

-- the offset of the k-th receipt of the bucket "daily_limit"
unfoldable pub cluster_offset : ℕ → ℕ
cluster_offset k = (if eqb (k % 2) 0 then 5 else 18) * 86400000 + k / 2 * 2 * 3600000

abbrev pub is_daily_limit : Bucket → Bool
is_daily_limit daily_limit = true
is_daily_limit _ = false

-- the loop of `assign_timestamps`, with `i` and `daily_count`: each time with its bucket
unfoldable pub timestamps : ℕ → ℤ → ℕ → ℕ → ℕ → List Bucket → Result (List (ℕ × Bucket))
unfolding share_of cluster_offset shift
timestamps start total_ms n i daily_count [] = ok []
timestamps start total_ms n i daily_count (bucket ∷ buckets) = do
  let offset_ms =
      if is_daily_limit bucket
      then pos (cluster_offset daily_count)
      else share_of i total_ms (divisor n)
  when ← shift start offset_ms
  rest ←
      timestamps start total_ms n (suc i)
        (if is_daily_limit bucket then suc daily_count else daily_count) buckets
  ok ((when, bucket) ∷ rest)

unfoldable pub insert_pair : ℕ × Bucket → List (ℕ × Bucket) → List (ℕ × Bucket)
insert_pair p [] = p ∷ []
insert_pair p (q ∷ pairs) =
    let rest = insert_pair p pairs in if leb p.0 q.0 then p ∷ q ∷ pairs else q ∷ rest

-- sorted(pairs, key=lambda p: p[0]), which is stable
unfoldable pub sort_pairs : List (ℕ × Bucket) → List (ℕ × Bucket)
unfolding insert_pair
sort_pairs [] = []
sort_pairs (p ∷ pairs) = insert_pair p (sort_pairs pairs)

-- `assign_timestamps`
unfoldable pub assign_timestamps : Datetimes → Scenario → List Bucket → Result (List (ℕ × Bucket))
unfolding timestamps sort_pairs
assign_timestamps dates scenario buckets = do
  start ← dates.strptime scenario.window_start
  end_of ← dates.strptime scenario.window_end
  pairs ← timestamps start (dates.total_ms (sub_ℕ end_of start)) (length buckets) 0 0 buckets
  ok (sort_pairs pairs)
