-- ===== src/Policy/Engine/Untimed.antt =====
-- The engine with no deadline set implements the specification.
use mathlib.Core.List.{append-nil, append_assoc}
use openterms.Prelude.{ℕ, List, [], ◌∷◌, ◌++◌, map, ◌≡◌, ◌≢◌, sym, ◌∙◌, ap, Bool-cases, inl, inr}
use openterms.Python.{
  Fields, Builtins, Error, ok, fail, bind-ok, bind-fail, ok-injective, fail-injective, Result-cases,
  policy_timeout,
}
use openterms.Policy.Types.{DecisionOutcome, Rule, RuleResult, EvalContext}
use openterms.Policy.Clock.{Clock}
use openterms.Policy.Clock.Meaning.{without_deadline, Means, Means-bind, Means-check_deadline}
use openterms.Policy.Rules.Meaning.{verdict, apply_rule-Means}
use openterms.Policy.Engine.{
  apply_rule, run_rule, run_rules, record_result, stepped, LoopEnd, Trail,
}
use openterms.Policy.Engine.Spec.{Verdict, verdicts, fired_only, id_of, reason_of}

pub run_rule-Means :
    (py : Builtins) (clock : Clock) (rule : Rule) (receipt : Fields) (ctx : EvalContext)
    → Means (run_rule py clock rule receipt) ctx (verdict py receipt ctx.aggregates rule)
unfolding run_rule apply_rule
run_rule-Means py clock rule receipt ctx =
    Means-bind ctx _ (λ _. verdict py receipt ctx.aggregates rule) (Means-check_deadline clock ctx)
      λ _. (apply_rule-Means py clock rule receipt ctx).0

abbrev pub outcome_of : Verdict → DecisionOutcome
outcome_of (rule, result) = rule.outcome

-- what the loop has appended to a trail after these verdicts
abbrev pub trail_after : Trail → List Verdict → Trail
trail_after trail vs = record {
  triggered = trail.triggered ++ map id_of (fired_only vs);
  reasons = trail.reasons ++ map reason_of (fired_only vs);
  fired_outcomes = trail.fired_outcomes ++ map outcome_of (fired_only vs);
}

pub trail_after-cons :
    (rule : Rule) (result : RuleResult) (trail : Trail) (vs : List Verdict)
    → trail_after (record_result rule result trail) vs ≡ trail_after trail ((rule, result) ∷ vs)
unfolding record_result fired_only id_of reason_of
trail_after-cons rule result trail vs = elim (Bool-cases result.fired) [
  | inl h ↦ rw h (simp append_assoc)
  | inr h ↦ rw h
]

pub trail_after-nil : (trail : Trail) → trail_after trail [] ≡ trail
unfolding fired_only
trail_after-nil trail = simp append-nil

module _ (py : Builtins) (receipt aggregates : Fields) where
  pub verdicts-cons :
      (rule : Rule) (rules : List Rule) {vs : List Verdict}
      → verdicts py receipt aggregates (rule ∷ rules) ≡ ok vs
      → (result : RuleResult) × (rest : List Verdict) × (verdict py receipt aggregates rule
          ≡ ok result)
        × (verdicts py receipt aggregates rules ≡ ok rest)
        × (vs ≡ (rule, result) ∷ rest)
  unfolding verdicts
  verdicts-cons rule rules h =
      let (result, e, h₁) = bind-ok (verdict py receipt aggregates rule) _ h in
      let (rest, e', h₂) = bind-ok (verdicts py receipt aggregates rules) _ h₁ in
      (result, rest, e, e', sym (ok-injective h₂))

module _ (py : Builtins) (clock : Clock) (receipt : Fields) (ctx : EvalContext) where
  abbrev untimed_run : List Rule → Trail → ℕ → LoopEnd
  untimed_run rules trail n = run_rules py clock rules receipt (without_deadline ctx) trail n

  run_rules-step :
      (rule : Rule) (rules : List Rule) (trail : Trail) (n : ℕ) (result : RuleResult)
      → verdict py receipt ctx.aggregates rule ≡ ok result
      → untimed_run (rule ∷ rules) trail n ≡ untimed_run rules (record_result rule result trail) n
  unfolding run_rules
  run_rules-step rule rules trail n result h =
      ap (stepped (untimed_run rules) rule trail)
        ((run_rule-Means py clock rule receipt ctx).exact n ∙ ap (λ r. (r, n)) h)

  run_rules-stop :
      (rule : Rule) (rules : List Rule) (trail : Trail) (n : ℕ) (e : Error)
      → verdict py receipt ctx.aggregates rule ≡ fail e
      → untimed_run (rule ∷ rules) trail n ≡ (fail e, trail, n)
  unfolding run_rules
  run_rules-stop rule rules trail n e h =
      ap (stepped (untimed_run rules) rule trail)
        ((run_rule-Means py clock rule receipt ctx).exact n ∙ ap (λ r. (r, n)) h)

  -- the loop with no deadline, from any trail, when every rule has a verdict
  pub run_rules-ok :
      (rules : List Rule) (vs : List Verdict) (trail : Trail) (n : ℕ)
      → verdicts py receipt ctx.aggregates rules ≡ ok vs
      → untimed_run rules trail n ≡ (ok tt, trail_after trail vs, n)
  unfolding run_rules verdicts
  run_rules-ok [] vs trail n h = rw (← ok-injective h, trail_after-nil trail)
  run_rules-ok (rule ∷ rules) vs trail n h =
      let (result, rest, e, e', e'') = verdicts-cons py receipt ctx.aggregates rule rules h in
      run_rules-step rule rules trail n result e
      ∙ run_rules-ok rules rest (record_result rule result trail) n e'
      ∙ ap (λ (t : Trail). (ok tt, t, n))
          (trail_after-cons rule result trail rest ∙ ap (trail_after trail) (sym e''))

  -- it stops at the first rule with no verdict, with that rule's error, which is no timeout
  pub run_rules-fail :
      (rules : List Rule) (trail : Trail) (n : ℕ) (e : Error)
      → verdicts py receipt ctx.aggregates rules ≡ fail e
      → ((untimed_run rules trail n).0 ≡ fail e) × (e ≢ policy_timeout)
  unfolding run_rules verdicts
  run_rules-fail [] trail n e h = absurd (cc)
  run_rules-fail (rule ∷ rules) trail n e h =
      elim (Result-cases (verdict py receipt ctx.aggregates rule)) [
        | inl (result, v) ↦
            let (ih, other) =
              run_rules-fail rules (record_result rule result trail) n e
                (bind-fail (verdicts py receipt ctx.aggregates rules) _ (λ vs x. cc) (rw v at h)) in
            (ap (λ (p : LoopEnd). p.0) (run_rules-step rule rules trail n result v) ∙ ih, other)
        | inr (e', v) ↦
            let same : e' ≡ e = fail-injective (rw v at h) in
            (
              ap (λ (p : LoopEnd). p.0) (run_rules-stop rule rules trail n e' v) ∙ ap fail same,
              λ t. (apply_rule-Means py clock rule receipt ctx).1.is_not (v ∙ ap fail (same ∙ t)),
            )
      ]
