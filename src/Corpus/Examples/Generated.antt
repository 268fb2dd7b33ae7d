-- ===== src/Corpus/Examples/Generated.antt =====
-- A scenario of two receipts in a chain, and the theorems on what is generated for it.
use mathlib.Core.List.{Permᴰ}
use openterms.Prelude.{some, ◌⊎◌, leb, false, ℕ, ◌%◌, ◌≡◌, refl, List, [], ◌∷◌, ◌==◌, map, length}
use openterms.Prelude.Int.{ℤ, pos, nat_abs, ◌+ℤ◌}
use openterms.Python.{int, dict, null, str, Fields, end, is_text, Result, ok, fail, get, text_mem}
use openterms.Samples.{copies, toy, plain}
use openterms.Receipts.Signing.{sign_receipt, key_object}
use openterms.Receipts.Canonical.{validate, max_safe_integer}
use openterms.Corpus.Scenario.{Bucket, daily_limit, allow, Scenario, Random}
use openterms.Corpus.Payload.{ChainState, no_chain, build_receipt_payload}
use openterms.Corpus.Payload.Signable.{build_receipt_payload-sign_receipt}
use openterms.Corpus.Times.{Datetimes}
use openterms.Corpus.Schedule.{build_bucket_assignments, assign_timestamps}
use openterms.Corpus.Schedule.Sorted.{InOrder, Placed, assign_timestamps-InOrder}
use openterms.Corpus.Schedule.Counts.{occurrences, build_bucket_assignments-occurrences}
use openterms.Corpus.Generate.{Tools, generate_receipts}
use openterms.Corpus.Links.{parent_of, check_chains}
use openterms.Corpus.Chains.{Linked}
use openterms.Corpus.Chains.Built.{generate_receipts-Linked}
use openterms.Corpus.Chains.Accepted.{
  ComparesTexts, FreshIds, all_fresh, fresh, generate_receipts-check_chains,
}

-- a generator that begins a chain whenever it can, and repeats the number of the call
abbrev pub counting : Random
counting = record {
  randrange = λ n start stop. start;
  random_below = λ n bound. bound == "0.18";
  randbytes = λ n size. copies size (n % 256);
  choices = λ n names weights. "k1";
}

abbrev pub fixed_dates : Datetimes
fixed_dates = record {
  strptime = λ text. ok 1000000;
  strftime = λ when. "2026-01-01T00:00:00.";
  total_ms = λ microseconds. pos 0;
}

abbrev pub two_receipts : Scenario
two_receipts = record {
  seed = 7;
  workspace_id = "w";
  count = 2;
  window_start = "2026-01-01T00:00:00.000000Z";
  window_end = "2026-01-02T00:00:00.000000Z";
  keys = record { kid = "k1"; share = "1.0" } ∷ [];
  issuer = "i";
  agents = "a" ∷ [];
  tools_allowed = "t" ∷ [];
  tools_off_list = "o" ∷ [];
  tool_debug = "d";
  terms_urls_allowed = "u" ∷ [];
  terms_url_off_list = "v";
  terms_url_blocked = "b";
  buckets = λ bucket. elim bucket [ allow ↦ 2 | _ ↦ 0 ];
  amounts = record {
    max_amount_min = pos 1;
    max_amount_max = pos 2;
    stress_min = pos 1;
    stress_max = pos 2;
    daily_limit_per_receipt = pos 1;
    escalation_only_min = pos 1;
    escalation_only_max = pos 2;
    allow_max = pos 3;
  };
}

abbrev toys : Tools
toys = record { py = plain; crypto = toy; rng = counting; dates = fixed_dates }

abbrev jwks_of : Result (Fields × List Fields) → Fields
jwks_of (ok (jwks, receipts)) = jwks
jwks_of (fail _) = end

abbrev receipts_of : Result (Fields × List Fields) → List Fields
receipts_of (ok (jwks, receipts)) = receipts
receipts_of (fail _) = []

abbrev run : Result (Fields × List Fields) × ℕ
run = generate_receipts toys two_receipts 0

run_returns : run ≡ (ok (jwks_of run.0, receipts_of run.0), run.1)
unfolding generate_receipts ◌+ℤ◌ sign_receipt validate
run_returns = refl

two_made : length (receipts_of run.0) ≡ 2
unfolding generate_receipts ◌+ℤ◌ sign_receipt validate
two_made = refl

generate_receipts-Linked_example : Linked [] (receipts_of run.0)
generate_receipts-Linked_example = generate_receipts-Linked toys two_receipts 0 run_returns

plain_texts : ComparesTexts plain
unfolding ComparesTexts is_text
plain_texts s t = refl

fresh_ids : FreshIds [] (receipts_of run.0)
unfolding generate_receipts ◌+ℤ◌ sign_receipt validate get text_mem
fresh_ids = fresh _ refl refl (fresh _ refl refl all_fresh)

generate_receipts-check_chains_example : check_chains plain (receipts_of run.0) ≡ ok tt
generate_receipts-check_chains_example =
    generate_receipts-check_chains toys two_receipts 0 (jwks_of run.0) (receipts_of run.0) run.1
      plain_texts run_returns fresh_ids

-- the second receipt names the first
second_named :
    map (λ r. parent_of r) (receipts_of run.0)
    ≡ ok null ∷ ok (str "01010101-0101-4101-8101-010101010101") ∷ []
unfolding generate_receipts ◌+ℤ◌ sign_receipt validate parent_of
second_named = refl

abbrev buckets_of_two : List Bucket
buckets_of_two = daily_limit ∷ allow ∷ []

abbrev pairs_of_two : List (ℕ × Bucket)
pairs_of_two = (1000000, allow) ∷ (432001000000, daily_limit) ∷ []

pairs_assigned : assign_timestamps fixed_dates two_receipts buckets_of_two ≡ ok pairs_of_two
unfolding assign_timestamps
pairs_assigned = refl

assign_timestamps-InOrder_example :
    InOrder 0 pairs_of_two
    × (in_turn : List (ℕ × Bucket)) × Placed 1000000 0 2 0 0 buckets_of_two in_turn
    × Permᴰ in_turn pairs_of_two
assign_timestamps-InOrder_example =
    assign_timestamps-InOrder fixed_dates two_receipts buckets_of_two pairs_of_two 1000000 1000000 0
      refl refl refl pairs_assigned

buckets_assigned : build_bucket_assignments plain two_receipts ≡ ok (allow ∷ allow ∷ [])
unfolding build_bucket_assignments
buckets_assigned = refl

build_bucket_assignments-occurrences_example :
    (length (allow ∷ allow ∷ []) ≡ 2)
    × ((b : Bucket) → occurrences b (allow ∷ allow ∷ []) ≡ two_receipts.buckets b)
build_bucket_assignments-occurrences_example =
    build_bucket_assignments-occurrences plain two_receipts (allow ∷ allow ∷ []) buckets_assigned

abbrev building : Result (Fields × ChainState) × ℕ
building = build_receipt_payload counting fixed_dates two_receipts allow 1000000 "r" no_chain 0

abbrev built_of : Result (Fields × ChainState) → Fields × ChainState
built_of (ok built) = built
built_of (fail _) = (end, no_chain)

building_returns : building ≡ (ok (built_of building.0), building.1)
unfolding build_receipt_payload ◌+ℤ◌
building_returns = refl

build_receipt_payload-sign_receipt_example :
    ((signed : Fields) × (sign_receipt plain toy
          (dict (built_of building.0).0)
          (key_object (copies 32 1))
          (str "k1")
        ≡ ok signed))
    ⊎ ((amount : ℤ) × (get (built_of building.0).0 "amount_charged" ≡ some (int amount))
        × (leb (nat_abs amount) max_safe_integer ≡ false))
build_receipt_payload-sign_receipt_example =
    build_receipt_payload-sign_receipt plain toy counting fixed_dates two_receipts allow 1000000 "r"
      no_chain 0 (built_of building.0).0 (built_of building.0).1 building.1 (copies 32 1) "k1"
      building_returns refl
