-- ===== src/Corpus/Decisions.antt =====
-- `evaluate_corpus` of packages/openterms-py/scripts/generate_corpus.py.
use openterms.Prelude.{none, some, List, [], ◌∷◌}
use openterms.Prelude.Int.{ℤ}
use openterms.Python.{
  Value, str, list, dict, Fields, end, field, Builtins, value_error, Result, ok, fail, subscript,
  texts,
}
use openterms.Policy.Types.{Decision, outcome_text}
use openterms.Policy.Clock.{Clock, Timed, ◌>>=◌, untimed}
use openterms.Policy.Engine.{raw, evaluate}
use openterms.Corpus.Daily.{compute_daily_aggregates}
use openterms.Corpus.RuleIds.{find_rule_id}

-- an entry of the decisions: the receipt's hash, and what `evaluate` decided
pub record CorpusDecision : Type 0 where
  pub receipt_hash : Value
  pub made : Decision

-- the entry as a dictionary
unfoldable pub decision_value : CorpusDecision → Value
unfolding outcome_text texts
decision_value d = dict (
    field "receipt_hash" d.receipt_hash (
      field "decision" (str (outcome_text d.made.decision)) (
        field "triggered_rules" (list (texts d.made.triggered_rules)) (
          field "reasons" (list (texts d.made.reasons)) (
            field "policy_version" (str d.made.policy_version)
              (field "evaluated_at" (str d.made.evaluated_at) end))))))

-- What an evaluation reads besides its arguments: `to_int` is int, and `budget` 0.1 seconds in ticks.
pub record Evaluator : Type 0 where
  pub py : Builtins
  pub to_int : Value → Result ℤ
  pub clock : Clock
  pub budget : ℤ

-- one round of the loop of `evaluate_corpus`
unfoldable pub decide : Evaluator → Fields → Fields → Fields → Timed CorpusDecision
unfolding subscript
decide ev policy r agg = do
  decision ← evaluate ev.py ev.clock r (raw (dict policy)) (some agg) ev.budget none
  hash ← untimed (subscript (dict r) "canonical_hash")
  untimed (ok (record { receipt_hash = hash; made = decision }))

-- the loop of `evaluate_corpus`, over zip(receipts, aggs, strict=True)
unfoldable pub decide_each :
    Evaluator → Fields → List Fields → List Fields → Timed (List CorpusDecision)
unfolding decide
decide_each ev policy [] [] = untimed (ok [])
decide_each ev policy (r ∷ receipts) (agg ∷ aggs) = do
  decision ← decide ev policy r agg
  decisions ← decide_each ev policy receipts aggs
  untimed (ok (decision ∷ decisions))
decide_each ev policy _ _ = untimed (fail (value_error "zip() arguments differ in length"))

-- `evaluate_corpus`
unfoldable pub evaluate_corpus : Evaluator → List Fields → Fields → Timed (List CorpusDecision)
unfolding find_rule_id compute_daily_aggregates decide_each
evaluate_corpus ev receipts policy = do
  rule_id ← untimed (find_rule_id ev.py policy "daily_limit")
  aggs ← untimed (compute_daily_aggregates ev.to_int receipts rule_id)
  decide_each ev policy receipts aggs
