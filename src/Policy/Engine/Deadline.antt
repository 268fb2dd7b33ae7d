-- ===== src/Policy/Engine/Deadline.antt =====
-- The engine under a deadline: it decides as it does with none, or it stops after some of the rules
-- and denies.
use openterms.Prelude.{
  ℕ, List, [], ◌∷◌, ◌++◌, map, ◌≡◌, ◌≢◌, refl, sym, ap, ◌∙◌, ◌⊎◌, inl, inr, arith,
}
use mathlib.Core.Path.{subst}
use openterms.Python.{Fields, Builtins, Error, policy_timeout, Result, ok, fail, Result-cases}
use openterms.Policy.Types.{deny, Rule, Policy, RuleResult, EvalContext, Decision}
use openterms.Policy.Clock.{Clock}
use openterms.Policy.Rules.Meaning.{verdict, apply_rule-Means}
use openterms.Policy.Engine.{
  run_rule, run_rules, record_result, stepped, LoopEnd, Trail, no_trail, conclude, evaluate_policy,
  evaluated_at_of, timeout_reason,
}
use openterms.Policy.Engine.Spec.{Verdict, verdicts, fired_only, id_of, reason_of}
use openterms.Policy.Engine.Untimed.{run_rule-Means, trail_after, trail_after-cons, trail_after-nil}
use openterms.Policy.Engine.Refines.{specified, conclude-fail, final_outcome-outranks}

stepped-ok :
    (next : Trail → ℕ → LoopEnd) (rule : Rule) (trail : Trail) (p : Result RuleResult × ℕ)
    (result : RuleResult)
    → p.0 ≡ ok result
    → stepped next rule trail p ≡ next (record_result rule result trail) p.1
stepped-ok next rule trail (ok a, n) result h = ground arith
stepped-ok next rule trail (fail e, n) result h = absurd (cc)

stepped-fail :
    (next : Trail → ℕ → LoopEnd) (rule : Rule) (trail : Trail) (p : Result RuleResult × ℕ)
    (e : Error)
    → p.0 ≡ fail e
    → stepped next rule trail p ≡ (fail e, trail, p.1)
stepped-fail next rule trail (ok a, n) e h = absurd (cc)
stepped-fail next rule trail (fail x, n) e h = ground arith

module _ (py : Builtins) (clock : Clock) (receipt : Fields) (ctx : EvalContext) where
  abbrev verdicts_of : List Rule → Result (List Verdict)
  verdicts_of = verdicts py receipt ctx.aggregates

  -- How the loop over `rules` may end, from a trail.
  data Ends (rules : List Rule) (trail : Trail) (end : LoopEnd) : Type 0 where
    completed :
        (vs : List Verdict)
        → verdicts_of rules ≡ ok vs
        → end.0 ≡ ok tt
        → end.1 ≡ trail_after trail vs
        → Ends rules trail end
    raised :
        (e : Error)
        → verdicts_of rules ≡ fail e
        → e ≢ policy_timeout
        → end.0 ≡ fail e
        → Ends rules trail end
    timed_out :
        (before after : List Rule) (vs : List Verdict)
        → rules ≡ before ++ after
        → after ≢ []
        → verdicts_of before ≡ ok vs
        → end.0 ≡ fail policy_timeout
        → end.1 ≡ trail_after trail vs
        → Ends rules trail end

  Ends-cons :
      (rule : Rule) (rules : List Rule) (result : RuleResult) (trail : Trail) (end : LoopEnd)
      → verdict py receipt ctx.aggregates rule ≡ ok result
      → Ends rules (record_result rule result trail) end
      → Ends (rule ∷ rules) trail end
  unfolding verdicts
  Ends-cons rule rules result trail end v (completed vs h₀ h₁ h₂) =
      completed ((rule, result) ∷ vs) (rw (v, h₀)) h₁ (h₂ ∙ trail_after-cons rule result trail vs)
  Ends-cons rule rules result trail end v (raised e h₀ other h₁) = raised e (rw (v, h₀)) other h₁
  Ends-cons rule rules result trail end v (timed_out before after vs h₀ more h₁ h₂ h₃) =
      timed_out (rule ∷ before) after ((rule, result) ∷ vs) (ap (λ rs. rule ∷ rs) h₀) more
        (rw (v, h₁)) h₂ (h₃ ∙ trail_after-cons rule result trail vs)

  run_rules-Ends :
      (rules : List Rule) (trail : Trail) (n : ℕ)
      → Ends rules trail (run_rules py clock rules receipt ctx trail n)
  unfolding run_rules verdicts
  run_rules-Ends [] trail n = completed [] refl refl (sym (trail_after-nil trail))
  run_rules-Ends (rule ∷ rules) trail n =
      let body : Result RuleResult × ℕ = run_rule py clock rule receipt ctx n in
      let next : Trail → ℕ → LoopEnd = run_rules py clock rules receipt ctx in
      elim ((run_rule-Means py clock rule receipt ctx).approx n) [
        | inr late ↦
            subst (Ends (rule ∷ rules) trail)
              (sym (stepped-fail next rule trail body policy_timeout late))
              (timed_out [] (rule ∷ rules) [] refl (λ e. cc) refl refl
                (sym (trail_after-nil trail)))
        | inl same ↦ elim (Result-cases (verdict py receipt ctx.aggregates rule)) [
          | inl (result, v) ↦
              subst (Ends (rule ∷ rules) trail)
                (sym (stepped-ok next rule trail body result (same ∙ v)))
                (Ends-cons rule rules result trail (next (record_result rule result trail) body.1) v
                  (run_rules-Ends rules (record_result rule result trail) body.1))
          | inr (e, v) ↦
              subst (Ends (rule ∷ rules) trail)
                (sym (stepped-fail next rule trail body e (same ∙ v)))
                (raised e (rw v)
                  (λ t. (apply_rule-Means py clock rule receipt ctx).1.is_not (v ∙ ap fail t)) refl)
        ]
      ]

module _ (py : Builtins) (clock : Clock) (receipt : Fields) (ctx : EvalContext) (pol : Policy) where
  -- the denial after the rules with these verdicts
  abbrev pub timeout_on : List Verdict → Decision
  timeout_on vs = record {
    decision = deny;
    triggered_rules = map id_of (fired_only vs);
    reasons = map reason_of (fired_only vs) ++ timeout_reason ∷ [];
    policy_version = pol.version;
    evaluated_at = evaluated_at_of receipt ctx;
  }

  abbrev pub Outcome : Result Decision → Type 0
  Outcome r =
      (r ≡ specified py clock receipt ctx pol)
      ⊎ ((before after : List Rule) × (vs : List Verdict) × (pol.rules ≡ before ++ after)
          × (after ≢ [])
          × (verdicts py receipt ctx.aggregates before ≡ ok vs)
          × (r ≡ ok (timeout_on vs)))

  concluded :
      (end : LoopEnd)
      → Ends py clock receipt ctx pol.rules no_trail end
      → Outcome (conclude pol receipt ctx end.0 end.1)
  unfolding specified conclude
  concluded end (completed vs h₀ h₁ h₂) = inl (rw (h₀, h₁, h₂, final_outcome-outranks))
  concluded end (raised e h₀ other h₁) = inl (rw (h₀, h₁) (conclude-fail pol receipt ctx e _ other))
  concluded end (timed_out before after vs h₀ more h₁ h₂ h₃) =
      inr (before, after, vs, h₀, more, h₁, rw (h₂, h₃))

  -- Whatever the clock reads, and from any state of it: under a deadline `evaluate_policy` returns what
  -- it is specified to return with none, or else it has evaluated only a proper prefix of the rules,
  -- each with a verdict, and returns `deny` with the ids and reasons of the rules of the prefix that
  -- fired and the TIMEOUT reason behind them.
  pub evaluate_policy-or-timeout : (n : ℕ) → Outcome (evaluate_policy py clock receipt pol ctx n).0
  unfolding evaluate_policy
  evaluate_policy-or-timeout n =
      concluded (run_rules py clock pol.rules receipt ctx no_trail n)
        (run_rules-Ends py clock receipt ctx pol.rules no_trail n)
