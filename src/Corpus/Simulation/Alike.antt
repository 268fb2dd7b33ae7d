-- ===== src/Corpus/Simulation/Alike.antt =====
-- When `compute_simulation_diffs` of packages/openterms-py/scripts/generate_corpus.py takes two decisions
-- for the same.
use mathlib.Core.Bool.{false≢true}
use openterms.Prelude.{and-true, ◌≡◌, refl, true, String, List, [], ◌∷◌, ◌==◌, eq_iff}
use openterms.Policy.Types.{DecisionOutcome, allow, escalate, deny, outcome_text, Decision}
use openterms.Corpus.Simulation.{same_texts, decided_alike}

-- two decisions with the same outcome and the same triggered rules
pub Alike : Decision → Decision → Type 0
Alike d1 d2 = (d1.decision ≡ d2.decision) × (d1.triggered_rules ≡ d2.triggered_rules)

outcome_text-injective : (o p : DecisionOutcome) → (outcome_text o == outcome_text p) ≡ true → o ≡ p
unfolding outcome_text
outcome_text-injective allow allow same = refl
outcome_text-injective escalate escalate same = refl
outcome_text-injective deny deny same = refl
outcome_text-injective allow escalate same = absurd (false≢true same)
outcome_text-injective allow deny same = absurd (false≢true same)
outcome_text-injective escalate allow same = absurd (false≢true same)
outcome_text-injective escalate deny same = absurd (false≢true same)
outcome_text-injective deny allow same = absurd (false≢true same)
outcome_text-injective deny escalate same = absurd (false≢true same)

same_texts-equal : (ss ts : List String) → same_texts ss ts ≡ true → ss ≡ ts
unfolding same_texts
same_texts-equal [] [] same = refl
same_texts-equal [] (t ∷ ts) same = absurd (false≢true same)
same_texts-equal (s ∷ ss) [] same = absurd (false≢true same)
same_texts-equal (s ∷ ss) (t ∷ ts) same =
    let (first, rest) = and-true (s == t) (same_texts ss ts) same in
    rw ((eq_iff s t).0 first, same_texts-equal ss ts rest) refl

same_texts_refl : (ss : List String) → same_texts ss ss ≡ true
unfolding same_texts
same_texts_refl [] = refl
same_texts_refl (s ∷ ss) = rw ((eq_iff s s).1 refl) (same_texts_refl ss)

pub decided_alike-Alike : (d1 d2 : Decision) → decided_alike d1 d2 ≡ true → Alike d1 d2
unfolding decided_alike Alike
decided_alike-Alike d1 d2 same =
    let (outcome, rules) =
      and-true (outcome_text d1.decision == outcome_text d2.decision)
        (same_texts d1.triggered_rules d2.triggered_rules) same in
    (outcome_text-injective d1.decision d2.decision outcome, same_texts-equal _ _ rules)

pub Alike-decided_alike : (d1 d2 : Decision) → Alike d1 d2 → decided_alike d1 d2 ≡ true
unfolding decided_alike Alike
Alike-decided_alike d1 d2 (outcome, rules) =
    rw
      (
        outcome,
        rules,
        (eq_iff (outcome_text d2.decision) (outcome_text d2.decision)).1 refl,
        same_texts_refl d2.triggered_rules,
      )
      refl
