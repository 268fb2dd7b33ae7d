-- ===== src/Corpus/Schedule/Counts.antt =====
-- The number of receipts of each bucket in packages/openterms-py/scripts/generate_corpus.py.
use openterms.Prelude.{
  ◌≡◌, refl, sym, ap, ◌∙◌, inl, inr, ℕ, zero, suc, ◌+◌, Bool, true, false, List, [], ◌∷◌, ◌++◌,
  length, replicate, eqb, eqb→eq, arith, Bool-cases, if◌then◌else◌,
}
use openterms.Python.{Builtins, ok, bind-ok, ok-injective, ensure, ensure-passed}
use openterms.Corpus.Scenario.{
  Bucket, model_training, max_amount, url_off_list, url_blocked, args_debug, daily_limit,
  escalation_only, tool_off_list, post_state_mismatch, stress, allow, bucket_order, Scenario,
}
use openterms.Corpus.Schedule.{assigned, build_bucket_assignments}

-- the place of a bucket in `BUCKET_ORDER`
abbrev place : Bucket → ℕ
place model_training = 0
place max_amount = 1
place url_off_list = 2
place url_blocked = 3
place args_debug = 4
place daily_limit = 5
place escalation_only = 6
place tool_off_list = 7
place post_state_mismatch = 8
place stress = 9
place allow = 10

abbrev same_bucket : Bucket → Bucket → Bool
same_bucket b c = eqb (place b) (place c)

-- how often a bucket is in a list
abbrev pub occurrences : Bucket → List Bucket → ℕ
occurrences b [] = 0
occurrences b (c ∷ cs) = (if same_bucket b c then 1 else 0) + occurrences b cs

occurrences-append :
    (b : Bucket) (cs ds : List Bucket)
    → occurrences b (cs ++ ds) ≡ occurrences b cs + occurrences b ds
occurrences-append b [] ds = omega arith
occurrences-append b (c ∷ cs) ds = omega (arith, occurrences-append b cs ds)

occurrences-replicate :
    (b c : Bucket) (n : ℕ) → occurrences b (replicate n c) ≡ (if same_bucket b c then n else 0)
occurrences-replicate b c n = elim (Bool-cases (same_bucket b c)) [
  | inl same ↦ rw same (replicate_same n same)
  | inr differ ↦ rw differ (replicate_other n differ)
]
  where
    replicate_same : (m : ℕ) → same_bucket b c ≡ true → occurrences b (replicate m c) ≡ m
    replicate_same zero same = refl
    replicate_same (suc m) same = rw same (omega (arith, replicate_same m same))

    replicate_other : (m : ℕ) → same_bucket b c ≡ false → occurrences b (replicate m c) ≡ 0
    replicate_other zero differ = refl
    replicate_other (suc m) differ = rw differ (omega (arith, replicate_other m differ))

-- the share of a bucket in the counts
abbrev weight : (Bucket → ℕ) → Bucket → List Bucket → ℕ
weight counts b [] = 0
weight counts b (c ∷ cs) = (if same_bucket b c then counts c else 0) + weight counts b cs

assigned-weight :
    (counts : Bucket → ℕ) (b : Bucket) (order : List Bucket)
    → occurrences b (assigned counts order) ≡ weight counts b order
unfolding assigned
assigned-weight counts b [] = refl
assigned-weight counts b (c ∷ order) = omega (
  arith,
  occurrences-append b (replicate (counts c) c) (assigned counts order),
  occurrences-replicate b c (counts c),
  assigned-weight counts b order,
)

weight-order : (counts : Bucket → ℕ) (b : Bucket) → weight counts b bucket_order ≡ counts b
weight-order counts model_training = omega arith
weight-order counts max_amount = omega arith
weight-order counts url_off_list = omega arith
weight-order counts url_blocked = omega arith
weight-order counts args_debug = omega arith
weight-order counts daily_limit = omega arith
weight-order counts escalation_only = omega arith
weight-order counts tool_off_list = omega arith
weight-order counts post_state_mismatch = omega arith
weight-order counts stress = omega arith
weight-order counts allow = omega arith

-- When build_bucket_assignments returns, there are as many buckets as the scenario counts in all,
-- and each bucket is there as often as the scenario says.
pub build_bucket_assignments-occurrences :
    (py : Builtins) (scenario : Scenario) (buckets : List Bucket)
    → build_bucket_assignments py scenario ≡ ok buckets
    → (length buckets ≡ scenario.count)
      × ((b : Bucket) → occurrences b buckets ≡ scenario.buckets b)
unfolding build_bucket_assignments
build_bucket_assignments-occurrences py scenario buckets returned =
    let (_, counted, r1) =
      bind-ok (ensure (eqb (length (assigned scenario.buckets bucket_order)) scenario.count) _) _
        returned in
    let same = ok-injective r1 in
    (
      ap length (sym same) ∙ eqb→eq _ _ (ensure-passed _ _ counted),
      λ b.
          ap (occurrences b) (sym same)
          ∙ (assigned-weight scenario.buckets b bucket_order ∙ weight-order scenario.buckets b),
    )
