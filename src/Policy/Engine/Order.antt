-- ===== src/Policy/Engine/Order.antt =====
-- What the order and the number of the rules do to a decision.
use mathlib.Core.List.{Permᴰ}
use openterms.Prelude.{
  ℕ, ◌≤◌, Bool, true, false, ◌&&◌, ◌||◌, List, [], ◌∷◌, ◌++◌, any, ◌≡◌, refl, sym, ap, ◌∙◌, arith,
  inl, inr,
}
use mathlib.Core.Path.{ap₂}
use openterms.Python.{Fields, Builtins, Result, ok, fail, ok-injective, bind-ok, Result-cases}
use openterms.Policy.Clock.Meaning.{without_deadline}
use openterms.Policy.Engine.Refines.{specified, decision_on, evaluate_policy-specified}
use openterms.Policy.Engine.Deadline.{evaluate_policy-or-timeout}
use openterms.Policy.Types.{DecisionOutcome, Rule, Policy, RuleResult, EvalContext, Decision}
use openterms.Policy.Clock.{Clock}
use openterms.Policy.Rules.Meaning.{verdict}
use openterms.Policy.Engine.{precedence, evaluate_policy}
use openterms.Policy.Engine.Spec.{
  Verdict, verdicts, fired_only, denies, escalates, outcome_is, decide_fired, outranks,
}
use openterms.Policy.Engine.Untimed.{verdicts-cons}

unfoldable pub has_fired : Result RuleResult → Bool
has_fired (ok result) = result.fired
has_fired (fail e) = false

module _ (py : Builtins) (receipt aggregates : Fields) where
  -- the rule fires on the receipt, and its outcome passes the test
  abbrev fires_as : (DecisionOutcome → Bool) → Rule → Bool
  fires_as test rule = test rule.outcome && has_fired (verdict py receipt aggregates rule)

  any-fired_only :
      (test : DecisionOutcome → Bool) (rules : List Rule) (vs : List Verdict)
      → verdicts py receipt aggregates rules ≡ ok vs
      → any (outcome_is test) (fired_only vs) ≡ any (fires_as test) rules
  unfolding verdicts fired_only has_fired
  any-fired_only test [] vs h = rw (← ok-injective h)
  any-fired_only test (rule ∷ rules) vs h =
      let (result, rest, e, e', e'') = verdicts-cons py receipt aggregates rule rules h in
      rw (e'', e) (ground (arith, any-fired_only test rules rest e'))

  -- A decision looks at the set of the rules that fire, and at nothing else.
  decide_fired-fires_as :
      (rules : List Rule) (vs : List Verdict)
      → verdicts py receipt aggregates rules ≡ ok vs
      → decide_fired (fired_only vs)
        ≡ outranks (any (fires_as denies) rules) (any (fires_as escalates) rules)
  unfolding decide_fired
  decide_fired-fires_as rules vs h =
      rw (any-fired_only denies rules vs h, any-fired_only escalates rules vs h)

any-Permᴰ : {A : Type 0} (p : A → Bool) {xs ys : List A} → Permᴰ xs ys → any p xs ≡ any p ys
any-Permᴰ p Permᴰ.nil = refl
any-Permᴰ p (Permᴰ.cons {a} {b} {l₁} {l₂} e r) = rw (e, any-Permᴰ p r)
any-Permᴰ p (Permᴰ.swap {a} {b} {a'} {b'} {l} e e') = rw (e, e') (ground arith)
any-Permᴰ p (Permᴰ.trans r r') = any-Permᴰ p r ∙ any-Permᴰ p r'

any-append :
    {A : Type 0} (p : A → Bool) (xs ys : List A) → any p (xs ++ ys) ≡ (any p xs || any p ys)
any-append p [] ys = refl
any-append p (x ∷ xs) ys = ground (arith, any-append p xs ys)

module _ (py : Builtins) (receipt aggregates : Fields) where
  unfoldable pub has_error : Rule → Bool
  has_error rule = elim (verdict py receipt aggregates rule) [ ok _ ↦ false | fail _ ↦ true ]

  verdicts-has_error :
      (rules : List Rule) (vs : List Verdict)
      → verdicts py receipt aggregates rules ≡ ok vs
      → any has_error rules ≡ false
  unfolding has_error
  verdicts-has_error [] vs h = refl
  verdicts-has_error (rule ∷ rules) vs h =
      let (result, rest, e, e', e'') = verdicts-cons py receipt aggregates rule rules h in
      ground (arith, e, verdicts-has_error rules rest e')

  verdicts-exist :
      (rules : List Rule)
      → any has_error rules ≡ false
      → (vs : List Verdict) × (verdicts py receipt aggregates rules ≡ ok vs)
  unfolding has_error verdicts
  verdicts-exist [] h = ([], refl)
  verdicts-exist (rule ∷ rules) h = elim (Result-cases (verdict py receipt aggregates rule)) [
    | inr (e, v) ↦ absurd (ground (arith, v))
    | inl (result, v) ↦
        let (vs, h') = verdicts-exist rules (ground (arith, v)) in ((rule, result) ∷ vs, rw (v, h'))
  ]

precedence-le : (o : DecisionOutcome) → precedence o ≤ 2
precedence-le o = ground arith

outranks_mono :
    (a b c a' b' c' : Bool)
    → precedence (outranks (a || c) (a' || c'))
      ≤ precedence (outranks (a || b || c) (a' || b' || c'))
outranks_mono true b c a' b' c' = omega arith
outranks_mono false true c a' b' c' = ground arith
outranks_mono false false c a' b' c' = ground arith

outranks-any_mono :
    (p q : Rule → Bool) (xs ys zs : List Rule)
    → precedence (outranks (any p (xs ++ zs)) (any q (xs ++ zs)))
      ≤ precedence (outranks (any p (xs ++ ys ++ zs)) (any q (xs ++ ys ++ zs)))
outranks-any_mono p q xs ys zs =
    simp any-append
      (outranks_mono (any p xs) (any p ys) (any p zs) (any q xs) (any q ys) (any q zs))

module _ (py : Builtins) (clock : Clock) (receipt : Fields) (ctx : EvalContext) where
  abbrev untimed_result : Policy → Result Decision
  untimed_result pol = (evaluate_policy py clock receipt pol (without_deadline ctx) 0).0

  decided-verdicts :
      (pol : Policy) {d : Decision}
      → untimed_result pol ≡ ok d
      → (vs : List Verdict) × (verdicts py receipt ctx.aggregates pol.rules ≡ ok vs)
        × (d ≡ decision_on py clock receipt ctx pol vs)
  unfolding specified
  decided-verdicts pol h =
      let (vs, e, e') =
        bind-ok (verdicts py receipt ctx.aggregates pol.rules) _
          (sym (evaluate_policy-specified py clock receipt ctx pol 0) ∙ h) in
      (vs, e, sym (ok-injective e'))

  decided :
      (pol : Policy) {d : Decision}
      → untimed_result pol ≡ ok d
      → d.decision
        ≡ outranks
            (any (fires_as py receipt ctx.aggregates denies) pol.rules)
            (any (fires_as py receipt ctx.aggregates escalates) pol.rules)
  decided pol h =
      let (vs, e, e') = decided-verdicts pol h in
      ap (λ (d : Decision). d.decision) e'
      ∙ decide_fired-fires_as py receipt ctx.aggregates pol.rules vs e

  -- The order of the rules does not matter to the decision: when a policy is evaluated with no deadline
  -- to a decision, any policy whose rules are a reordering of its rules is evaluated to a decision too,
  -- with the same outcome.
  pub evaluate_policy-reorder :
      (pol pol' : Policy) (d : Decision)
      → Permᴰ pol.rules pol'.rules
      → untimed_result pol ≡ ok d
      → (d' : Decision) × (untimed_result pol' ≡ ok d') × (d'.decision ≡ d.decision)
  unfolding specified
  evaluate_policy-reorder pol pol' d perm h =
      let (vs, e, _) = decided-verdicts pol h in
      let (vs', e') =
        verdicts-exist py receipt ctx.aggregates pol'.rules
          (sym (any-Permᴰ _ perm) ∙ verdicts-has_error py receipt ctx.aggregates pol.rules vs e) in
      let d' : Decision = decision_on py clock receipt ctx pol' vs' in
      let h' : untimed_result pol' ≡ ok d' =
        evaluate_policy-specified py clock receipt ctx pol' 0 ∙ rw e' in
      (
        d',
        h',
        decided pol' h'
            ∙ ap₂ outranks (sym (any-Permᴰ _ perm)) (sym (any-Permᴰ _ perm))
            ∙ sym (decided pol h),
      )

  -- Adding rules anywhere in a policy never lowers a decision that is taken with no deadline, in the
  -- order allow, escalate, deny.
  pub evaluate_policy-monotone :
      (pol pol' : Policy) (before added after : List Rule) (d d' : Decision)
      → pol.rules ≡ before ++ after
      → pol'.rules ≡ before ++ added ++ after
      → untimed_result pol ≡ ok d
      → untimed_result pol' ≡ ok d'
      → precedence d.decision ≤ precedence d'.decision
  evaluate_policy-monotone pol pol' before added after d d' r r' h h' =
      rw (decided pol h, decided pol' h', r, r') (outranks-any_mono _ _ before added after)

  -- A deadline never makes a decision more lenient: a decision taken under any deadline ranks at least
  -- as high, in the order allow, escalate, deny, as the one taken with none.
  pub evaluate_policy-fail_safe :
      (pol : Policy) (n : ℕ) (d d₀ : Decision)
      → (evaluate_policy py clock receipt pol ctx n).0 ≡ ok d
      → untimed_result pol ≡ ok d₀
      → precedence d₀.decision ≤ precedence d.decision
  evaluate_policy-fail_safe pol n d d₀ h h₀ =
      elim (evaluate_policy-or-timeout py clock receipt ctx pol n) [
        | inl same ↦
            let e : d ≡ d₀ =
              ok-injective
                (sym h ∙ same ∙ sym (evaluate_policy-specified py clock receipt ctx pol 0) ∙ h₀) in
            omega (arith, ap (λ (x : Decision). precedence x.decision) e)
        | inr (_, _, vs, _, _, _, late) ↦
            let e = ok-injective (sym h ∙ late) in
            omega (arith, precedence-le d₀.decision, ap (λ (x : Decision). precedence x.decision) e)
      ]
