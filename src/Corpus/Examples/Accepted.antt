-- ===== src/Corpus/Examples/Accepted.antt =====
-- A corpus of one receipt that is accepted, and the simulation of a second policy for it.
use openterms.Prelude.{
  ℕ, ◌≡◌, refl, String, Bool, length, true, false, some, List, [], ◌∷◌, ◌&&◌, eqb, get_elem?,
}
use openterms.Prelude.Int.{ℤ, pos, ◌+ℤ◌}
use openterms.Python.{
  Value, repeat_text, int, str, list, dict, nil, cons, Fields, end, field, Builtins, Result, ok,
  fail, type_error,
}
use openterms.Samples.{copies, toy, some_str}
use openterms.Receipts.Canonical.Json.{emit, utf8}
use openterms.Receipts.Canonical.{validate, strip_nulls}
use openterms.Receipts.Signing.{sign_receipt, key_object, build_jwks}
use openterms.Receipts.Verification.{verify_receipt}
use openterms.Policy.Clock.{check_deadline}
use openterms.Policy.Types.{policy_from_dict}
use openterms.Policy.Rules.Amounts.{eval_daily_limit}
use openterms.Policy.Rules.Params.{require_int, amount_of}
use openterms.Policy.Engine.{
  evaluate, evaluate_policy, run_rules, run_rule, apply_rule, final_outcome, record_result,
  evaluated_at_of,
}
use openterms.Corpus.Decisions.{CorpusDecision, Evaluator, evaluate_corpus}
use openterms.Corpus.Simulation.{SimulationDiff, tally, compute_simulation_diffs}
use openterms.Corpus.Simulation.Differences.{
  Differences, number, compute_simulation_diffs-differences,
}
use openterms.Corpus.Checks.{Floats}
use openterms.Corpus.Validation.{Stats, validate_corpus}
use openterms.Corpus.Validation.Steps.{SameDecisions}
use openterms.Corpus.Validation.Accepted.{Sound, validate_corpus-Sound}

abbrev same_codes : List ℕ → List ℕ → Bool
same_codes [] [] = true
same_codes (c ∷ cs) (d ∷ ds) = eqb c d && same_codes cs ds
same_codes _ _ = false

-- values are equal when they print alike
abbrev pub by_json : Builtins
by_json = record {
  str_of = some_str;
  repr_of = some_str;
  type_name = some_str;
  sorted_of = ok;
  equals = λ v w. same_codes (emit v) (emit w);
}

abbrev int_value : Value → Result ℤ
int_value (int n) = ok n
int_value _ = fail type_error

abbrev pub evaluator : Evaluator
evaluator = record { py = by_json; to_int = int_value; clock = λ n. 0; budget = pos 100 }

abbrev limit : ℕ → Fields
limit threshold = field "version" (str "v1") (
    field "rules"
      (list (
        cons
          (dict (
            field "id" (str "daily") (
              field "type" (str "daily_limit") (
                field "outcome" (str "deny")
                  (field "parameters" (dict (field "threshold" (int (pos threshold)) end)) end)))))
          nil))
      end)

abbrev payload : ℕ → Fields
payload i = field "workspace_id" (str "w") (
    field "agent_id" (str (repeat_text i "a")) (
      field "action_type" (str "buy") (
        field "terms_url" (str "u") (
          field "terms_hash" (str "h") (
            field "timestamp" (str "2026-01-01T00:00:00.000Z") (
              field "pricing_version" (str "v1") (
                field "receipt_id" (str (repeat_text i "r")) (
                  field "amount_charged" (int (pos 5))
                    (field "created_at" (str "2026-01-01T00:00:00.001Z") end)))))))))

abbrev fields_of : Result Fields → Fields
fields_of (ok d) = d
fields_of (fail _) = end

abbrev signed : ℕ → Fields
signed i =
    fields_of (sign_receipt by_json toy (dict (payload i)) (key_object (copies 32 1)) (str "k1"))

abbrev corpus : List Fields
corpus =
    signed 1
    ∷ signed 2
    ∷ signed 3
    ∷ signed 4
    ∷ signed 5
    ∷ signed 6
    ∷ signed 7
    ∷ signed 8
    ∷ signed 9
    ∷ signed 10
    ∷ []

abbrev jwks : Fields
jwks = build_jwks ((copies 32 7, "k1") ∷ [])

abbrev decisions_of : Result (List CorpusDecision) → List CorpusDecision
decisions_of (ok decisions) = decisions
decisions_of (fail _) = []

abbrev decided : ℕ → List CorpusDecision
decided threshold = decisions_of (evaluate_corpus evaluator corpus (limit threshold) 0).0

all_decided : length (decided 0) ≡ 10
unfolding evaluate_corpus evaluate sign_receipt validate policy_from_dict evaluate_policy run_rules
    run_rule check_deadline apply_rule eval_daily_limit require_int amount_of ◌+ℤ◌
all_decided = refl

abbrev pub floats : Floats
floats = record { is_far = λ count n frac. false; share_text = λ count n. "…" }

abbrev stats_of : Result Stats → Stats
stats_of (ok stats) = stats
stats_of (fail _) = record { outcomes = []; firings = []; action_types = [] }

abbrev validation : Result Stats × ℕ
validation = validate_corpus evaluator toy floats corpus (decided 0) jwks (limit 0) 0

accepted : validation ≡ (ok (stats_of validation.0), validation.1)
unfolding evaluate_corpus evaluate sign_receipt validate policy_from_dict evaluate_policy run_rules
    run_rule check_deadline apply_rule eval_daily_limit require_int amount_of ◌+ℤ◌ final_outcome
    record_result validate_corpus verify_receipt build_jwks utf8 emit strip_nulls evaluated_at_of
accepted = refl

validate_corpus-Sound_example :
    ((again : List CorpusDecision) × ((evaluate_corpus evaluator corpus (limit 0) 0).0 ≡ ok again)
      × SameDecisions by_json again (decided 0))
    × ((i : ℕ) (r : Fields) → get_elem? corpus i ≡ some r → Sound by_json toy corpus jwks i r)
validate_corpus-Sound_example =
    validate_corpus-Sound evaluator toy floats corpus (decided 0) jwks (limit 0) 0
      (stats_of validation.0) validation.1 accepted

abbrev diffs_of :
    Result (List SimulationDiff × List (String × ℕ)) → List SimulationDiff × List (String × ℕ)
diffs_of (ok result) = result
diffs_of (fail _) = ([], [])

-- under a limit of 20 the first four of ten receipts of 5 are allowed
abbrev simulated : Result (List SimulationDiff × List (String × ℕ)) × ℕ
simulated = compute_simulation_diffs evaluator corpus (decided 0) (limit 20) 0

allowed_now : tally (diffs_of simulated.0).1 "deny->allow" ≡ 4
unfolding evaluate_corpus evaluate sign_receipt validate policy_from_dict evaluate_policy run_rules
    run_rule check_deadline apply_rule eval_daily_limit require_int amount_of ◌+ℤ◌ final_outcome
    record_result compute_simulation_diffs
allowed_now = refl

simulation_returns : simulated ≡ (ok (diffs_of simulated.0), simulated.1)
unfolding evaluate_corpus evaluate sign_receipt validate policy_from_dict evaluate_policy run_rules
    run_rule check_deadline apply_rule eval_daily_limit require_int amount_of ◌+ℤ◌ final_outcome
    record_result compute_simulation_diffs
simulation_returns = refl

compute_simulation_diffs-differences_example :
    (v2 : List CorpusDecision) × ((evaluate_corpus evaluator corpus (limit 20) 0).0 ≡ ok v2)
    × Differences corpus (decided 0) v2 (diffs_of simulated.0).0
    × ((key : String) → tally (diffs_of simulated.0).1 key ≡ number key (diffs_of simulated.0).0)
compute_simulation_diffs-differences_example =
    compute_simulation_diffs-differences evaluator corpus (decided 0) (limit 20) 0
      (diffs_of simulated.0).0 (diffs_of simulated.0).1 simulated.1 simulation_returns
