-- ===== src/Corpus/Schedule/Sorted.antt =====
-- The order of the times of packages/openterms-py/scripts/generate_corpus.py.
use mathlib.Core.List.{Permᴰ}
use mathlib.Core.List.Permᴰ
use mathlib.Core.Path.{subst}
use mathlib.Core.Bool.{false≢true}
use openterms.Prelude.{
  ◌≡◌, ◌≢◌, zero, ◌+◌, ◌*◌, ◌/◌, ◌%◌, eqb, false, true, refl, sym, ap, ◌∙◌, inl, inr, ℕ, suc, Bool,
  ◌≤◌, List, [], ◌∷◌, leb, arith, leb→le, Bool-cases, length, if◌then◌else◌,
}
use openterms.Prelude.Int.{pos, sub_ℕ}
use openterms.Python.{ok, fail_ok, bind-ok, ok-injective}
use openterms.Corpus.Scenario.{Bucket, daily_limit, Scenario}
use openterms.Corpus.Times.{Datetimes, datetime_max, shift}
use openterms.Corpus.Schedule.{
  divisor, share_of, cluster_offset, is_daily_limit, timestamps, insert_pair, sort_pairs,
  assign_timestamps,
}

-- Pairs whose times do not decrease, the first not below a bound.
pub data InOrder : ℕ → List (ℕ × Bucket) → Type 0 where
  in_order : {bound : ℕ} → InOrder bound []
  next_in_order :
      {bound : ℕ} {pairs : List (ℕ × Bucket)} (when : ℕ) (bucket : Bucket)
      → bound ≤ when
      → InOrder when pairs
      → InOrder bound ((when, bucket) ∷ pairs)

insert_pair-InOrder :
    (bound when : ℕ) (bucket : Bucket) (pairs : List (ℕ × Bucket))
    → bound ≤ when
    → InOrder bound pairs
    → InOrder bound (insert_pair (when, bucket) pairs)
unfolding insert_pair
insert_pair-InOrder bound when bucket [] above in_order = next_in_order when bucket above in_order
insert_pair-InOrder bound when bucket (q ∷ pairs) above (next_in_order when' bucket' above' rest) =
    elim (Bool-cases (leb when when')) [
      | inl before ↦ rw before (
          next_in_order when bucket above
            (next_in_order when' bucket' (leb→le when when' before) rest))
      | inr behind ↦ rw behind (
          next_in_order when' bucket' above'
            (insert_pair-InOrder when' when bucket pairs (ground arith) rest))
    ]

sort_pairs-InOrder : (pairs : List (ℕ × Bucket)) → InOrder 0 (sort_pairs pairs)
unfolding sort_pairs
sort_pairs-InOrder [] = in_order
sort_pairs-InOrder ((when, bucket) ∷ pairs) =
    insert_pair-InOrder 0 when bucket (sort_pairs pairs) (omega arith) (sort_pairs-InOrder pairs)

insert_pair-Permᴰ :
    (p : ℕ × Bucket) (pairs : List (ℕ × Bucket)) → Permᴰ (p ∷ pairs) (insert_pair p pairs)
unfolding insert_pair
insert_pair-Permᴰ p [] = Permᴰ.refl (p ∷ [])
insert_pair-Permᴰ p (q ∷ pairs) = elim (Bool-cases (leb p.0 q.0)) [
  | inl before ↦ rw before (Permᴰ.refl (p ∷ q ∷ pairs))
  | inr behind ↦
      rw behind (Permᴰ.trans (Permᴰ.swap refl refl) (Permᴰ.cons refl (insert_pair-Permᴰ p pairs)))
]

sort_pairs-Permᴰ : (pairs : List (ℕ × Bucket)) → Permᴰ pairs (sort_pairs pairs)
unfolding sort_pairs
sort_pairs-Permᴰ [] = Permᴰ.nil
sort_pairs-Permᴰ (p ∷ pairs) =
    Permᴰ.trans (Permᴰ.cons refl (sort_pairs-Permᴰ pairs)) (insert_pair-Permᴰ p (sort_pairs pairs))

-- The times that the buckets get, from the i-th receipt and the k-th of the bucket "daily_limit" on,
-- in microseconds: the receipts of "daily_limit" are at the even hours of the sixth and the nineteenth
-- day, in turn, the others in n equal steps of the window of `total` milliseconds.
pub data Placed (start total n : ℕ) : ℕ → ℕ → List Bucket → List (ℕ × Bucket) → Type 0 where
  none_left : {i k : ℕ} → Placed start total n i k [] []
  sixth_day :
      {i k : ℕ} {buckets : List Bucket} {pairs : List (ℕ × Bucket)} (q when : ℕ)
      → k ≡ 2 * q
      → when ≡ start + (5 * 86400000 + 2 * q * 3600000) * 1000
      → Placed start total n (suc i) (suc k) buckets pairs
      → Placed start total n i k (daily_limit ∷ buckets) ((when, daily_limit) ∷ pairs)
  nineteenth_day :
      {i k : ℕ} {buckets : List Bucket} {pairs : List (ℕ × Bucket)} (q when : ℕ)
      → k ≡ 2 * q + 1
      → when ≡ start + (18 * 86400000 + 2 * q * 3600000) * 1000
      → Placed start total n (suc i) (suc k) buckets pairs
      → Placed start total n i k (daily_limit ∷ buckets) ((when, daily_limit) ∷ pairs)
  in_step :
      {i k : ℕ} {bucket : Bucket} {buckets : List Bucket} {pairs : List (ℕ × Bucket)}
      (steps when : ℕ)
      → bucket ≢ daily_limit
      → n ≡ suc (suc steps)
      → when ≡ start + i * total / suc steps * 1000
      → Placed start total n (suc i) k buckets pairs
      → Placed start total n i k (bucket ∷ buckets) ((when, bucket) ∷ pairs)
  alone :
      {i k : ℕ} {bucket : Bucket} {buckets : List Bucket} {pairs : List (ℕ × Bucket)} (when : ℕ)
      → bucket ≢ daily_limit
      → n ≤ 1
      → when ≡ start + i * total / 1 * 1000
      → Placed start total n (suc i) k buckets pairs
      → Placed start total n i k (bucket ∷ buckets) ((when, bucket) ∷ pairs)

shift-later : (start ms : ℕ) {when : ℕ} → shift start (pos ms) ≡ ok when → when ≡ start + ms * 1000
unfolding shift
shift-later start ms returned = elim (Bool-cases (leb (start + ms * 1000) datetime_max)) [
  | inl small ↦ sym (ok-injective (rw (shift, small) at returned))
  | inr large ↦ absurd (fail_ok (rw (shift, large) at returned))
]

half_even : (k : ℕ) → eqb (k % 2) 0 ≡ true → k ≡ 2 * (k / 2)
half_even k even = ground arith

half_odd : (k : ℕ) → eqb (k % 2) 0 ≡ false → k ≡ 2 * (k / 2) + 1
half_odd k odd = ground arith

is_daily_limit-same : (bucket : Bucket) → is_daily_limit bucket ≡ true → bucket ≡ daily_limit
is_daily_limit-same daily_limit daily = refl
is_daily_limit-same _ daily = absurd (false≢true daily)

divisor-steps : (m : ℕ) → divisor (suc (suc m)) ≡ suc m
divisor-steps m = ground arith

step-Placed :
    (start total n i k when : ℕ) {bucket : Bucket} {buckets : List Bucket}
    {pairs : List (ℕ × Bucket)}
    → bucket ≢ daily_limit
    → shift start (share_of i (pos total) (divisor n)) ≡ ok when
    → Placed start total n (suc i) k buckets pairs
    → Placed start total n i k (bucket ∷ buckets) ((when, bucket) ∷ pairs)
unfolding share_of
step-Placed start total zero i k when other at_once rest =
    Placed.alone when other (omega arith) (shift-later start _ at_once) rest
step-Placed start total (suc zero) i k when other at_once rest =
    Placed.alone when other (omega arith) (shift-later start _ at_once) rest
step-Placed start total (suc (suc steps)) i k when other at_once rest =
    Placed.in_step steps when other refl (shift-later start _ (rw (divisor-steps steps) at at_once))
      rest

module _ (start total n : ℕ) where
  daily-Placed :
      (i k when : ℕ) {buckets : List Bucket} {pairs : List (ℕ × Bucket)}
      → shift start (pos (cluster_offset k)) ≡ ok when
      → Placed start total n (suc i) (suc k) buckets pairs
      → Placed start total n i k (daily_limit ∷ buckets) ((when, daily_limit) ∷ pairs)
  unfolding cluster_offset
  daily-Placed i k when at_once rest = elim (Bool-cases (eqb (k % 2) 0)) [
    | inl even ↦
        Placed.sixth_day (k / 2) when (half_even k even)
          (shift-later start _ at_once ∙ rw (cluster_offset, even) (omega arith)) rest
    | inr odd ↦
        Placed.nineteenth_day (k / 2) when (half_odd k odd)
          (shift-later start _ at_once ∙ rw (cluster_offset, odd) (omega arith)) rest
  ]

  either-Placed :
      (i k when : ℕ) (bucket : Bucket) {buckets : List Bucket} {pairs : List (ℕ × Bucket)}
      (daily : Bool)
      → is_daily_limit bucket ≡ daily
      → shift start (if daily then pos (cluster_offset k) else share_of i (pos total) (divisor n))
        ≡ ok when
      → Placed start total n (suc i) (if daily then suc k else k) buckets pairs
      → Placed start total n i k (bucket ∷ buckets) ((when, bucket) ∷ pairs)
  either-Placed i k when bucket {buckets = buckets} {pairs = pairs} true kind at_once rest =
      subst (λ b. Placed start total n i k (b ∷ buckets) ((when, b) ∷ pairs))
        (sym (is_daily_limit-same bucket kind)) (daily-Placed i k when at_once rest)
  either-Placed i k when bucket false kind at_once rest =
      step-Placed start total n i k when
        (λ same. false≢true (sym kind ∙ ap (λ b. is_daily_limit b) same)) at_once rest

  timestamps-Placed :
      (i k : ℕ) (buckets : List Bucket) {pairs : List (ℕ × Bucket)}
      → timestamps start (pos total) n i k buckets ≡ ok pairs
      → Placed start total n i k buckets pairs
  unfolding timestamps
  timestamps-Placed i k [] returned =
      subst (Placed start total n i k []) (ok-injective returned) Placed.none_left
  timestamps-Placed i k (bucket ∷ buckets) returned =
      let daily = is_daily_limit bucket in
      let (when, at_once, r1) =
        bind-ok
          (shift start
            (if daily then pos (cluster_offset k) else share_of i (pos total) (divisor n)))
          _ returned in
      let (rest, made, r2) =
        bind-ok (timestamps start (pos total) n (suc i) (if daily then suc k else k) buckets) _
          r1 in
      subst (Placed start total n i k (bucket ∷ buckets)) (ok-injective r2) (
        either-Placed i k when bucket daily refl at_once
          (timestamps-Placed (suc i) (if daily then suc k else k) buckets made))

-- When assign_timestamps returns, for a window whose length in milliseconds is not negative, its
-- pairs are in the order of their times, and are in some order the buckets that were given, each
-- with its time: the receipts of the bucket daily_limit are in turn at even hours of the sixth and
-- of the nineteenth day, two hours later in each round, and the i-th of n receipts, counted from
-- 0, if it is of another bucket, is i (n - 1)-th parts of the window behind its start, rounded
-- down to a millisecond (at the start when n is 1).
pub assign_timestamps-InOrder :
    (dates : Datetimes) (scenario : Scenario) (buckets : List Bucket) (pairs : List (ℕ × Bucket))
    (start end_of total : ℕ)
    → dates.strptime scenario.window_start ≡ ok start
    → dates.strptime scenario.window_end ≡ ok end_of
    → dates.total_ms (sub_ℕ end_of start) ≡ pos total
    → assign_timestamps dates scenario buckets ≡ ok pairs
    → InOrder 0 pairs
      × (in_turn : List (ℕ × Bucket)) × Placed start total (length buckets) 0 0 buckets in_turn
      × Permᴰ in_turn pairs
unfolding assign_timestamps
assign_timestamps-InOrder dates scenario buckets pairs start end_of total begins ends lasts
      returned =
    let (made, making, r3) =
      bind-ok (timestamps start (pos total) (length buckets) 0 0 buckets) _
        (rw (begins, ends, lasts) at returned) in
    let sorted = ok-injective r3 in
    (
      subst (InOrder 0) sorted (sort_pairs-InOrder made),
      made,
      timestamps-Placed start total (length buckets) 0 0 buckets making,
      subst (Permᴰ made) sorted (sort_pairs-Permᴰ made),
    )
