-- ===== src/Corpus/Examples/Written.antt =====
-- A run that generates ten receipts and writes its files, and the run with --check behind it.
use openterms.Prelude.{none, String, List, ◌⊎◌, ◌↔◌, ℕ, ◌≡◌, refl, true, false, [], length}
use openterms.Prelude.Int.{negsuc, ◌+ℤ◌}
use openterms.Python.{Value, int, str, list, dict, nil, cons, Fields, end, field, Result, ok, fail}
use openterms.Samples.{toy, some_str}
use openterms.Receipts.Canonical.{validate, strip_nulls}
use openterms.Receipts.Canonical.Json.{emit, utf8}
use openterms.Receipts.Crypto.{Crypto}
use openterms.Receipts.Signing.{sign_receipt}
use openterms.Receipts.Verification.{verify_receipt}
use openterms.Policy.Clock.{check_deadline}
use openterms.Policy.Types.{policy_from_dict}
use openterms.Policy.Rules.Amounts.{eval_daily_limit}
use openterms.Policy.Rules.Params.{require_int, amount_of}
use openterms.Policy.Engine.{
  evaluate, evaluate_policy, run_rules, run_rule, apply_rule, final_outcome, record_result,
  evaluated_at_of,
}
use openterms.Corpus.Scenario.{allow, Scenario}
use openterms.Corpus.Files.{Directory}
use openterms.Corpus.Main.Run.{Inputs, run_outputs, main}
use openterms.Corpus.Main.Checked.{Current, main-check}
use openterms.Corpus.Main.{Outputs, outputs}
use openterms.Corpus.Main.Sound.{Consistent, outputs-Consistent}
use openterms.Corpus.Validation.{Stats}
use openterms.Corpus.Examples.Generated.{counting, fixed_dates, two_receipts}
use openterms.Corpus.Examples.Accepted.{by_json, evaluator, floats}

-- a stand-in whose hashes differ where the bytes do
abbrev unhashed : Crypto
unhashed = record toy { sha256 = λ bytes. bytes }

abbrev ten_receipts : Scenario
ten_receipts = record two_receipts {
  count = 10;
  buckets = λ bucket. elim bucket [ allow ↦ 10 | _ ↦ 0 ];
}

abbrev below_zero : Fields
below_zero = field "version" (str "v1") (
    field "rules"
      (list (
        cons
          (dict (
            field "id" (str "daily") (
              field "type" (str "daily_limit") (
                field "outcome" (str "deny")
                  (field "parameters" (dict (field "threshold" (int (negsuc 0)) end)) end)))))
          nil))
      end)

abbrev inputs : Inputs
inputs = record {
  tools = record { py = by_json; crypto = unhashed; rng = counting; dates = fixed_dates };
  ev = evaluator;
  floats = floats;
  outside = record {
    dumps = some_str;
    scenario_text = "{}";
    git_output = none;
    strip = λ text. text;
  };
  scenario = ten_receipts;
  policy_v1 = below_zero;
  policy_v2 = below_zero;
}

abbrev written : Result (ℕ × Directory) → ℕ × Directory
written (ok result) = result
written (fail _) = (2, [])

abbrev run : Result (ℕ × Directory)
run = main inputs false []

run_writes : length (written run).1 ≡ 5
unfolding main evaluate sign_receipt verify_receipt validate policy_from_dict evaluate_policy
    run_rules run_rule check_deadline apply_rule eval_daily_limit require_int amount_of ◌+ℤ◌
    final_outcome record_result utf8 emit strip_nulls evaluated_at_of
run_writes = refl

abbrev outs_of : Result (List (String × Value)) → List (String × Value)
outs_of (ok outs) = outs
outs_of (fail _) = []

abbrev values : Result (List (String × Value))
values = run_outputs inputs

values_made : values ≡ ok (outs_of values)
unfolding run_outputs evaluate sign_receipt verify_receipt validate policy_from_dict evaluate_policy
    run_rules run_rule check_deadline apply_rule eval_daily_limit require_int amount_of ◌+ℤ◌
    final_outcome record_result utf8 emit strip_nulls evaluated_at_of
values_made = refl

main-check_example :
    (code : ℕ) × (main inputs true (written run).1 ≡ ok (code, (written run).1))
    × ((code ≡ 0) ⊎ (code ≡ 1))
    × ((code ≡ 0) ↔ Current inputs.outside (written run).1 (outs_of values))
main-check_example = main-check inputs (written run).1 (outs_of values) values_made

abbrev no_stats : Stats
no_stats = record { outcomes = []; firings = []; action_types = [] }

abbrev outputs_of : Result Outputs → Outputs
outputs_of (ok out) = out
outputs_of (fail _) = record {
  receipts = [];
  decisions = [];
  jwks = end;
  sim_diffs = [];
  stats = no_stats;
  sim_by_outcome = [];
}

abbrev computed : Result Outputs
computed = outputs inputs.tools evaluator floats ten_receipts below_zero below_zero

computed_returns : computed ≡ ok (outputs_of computed)
unfolding outputs evaluate sign_receipt verify_receipt validate policy_from_dict evaluate_policy
    run_rules run_rule check_deadline apply_rule eval_daily_limit require_int amount_of ◌+ℤ◌
    final_outcome record_result utf8 emit strip_nulls evaluated_at_of
computed_returns = refl

outputs-Consistent_example :
    Consistent inputs.tools evaluator below_zero below_zero (outputs_of computed)
outputs-Consistent_example =
    outputs-Consistent inputs.tools evaluator floats ten_receipts below_zero below_zero
      (outputs_of computed) computed_returns
