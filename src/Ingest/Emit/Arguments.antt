-- ===== src/Ingest/Emit/Arguments.antt =====
-- What IngestClient.emit_receipt takes for its optional arguments.
use mathlib.Core.Bool.{false≢true}
use openterms.Prelude.{
  ℕ, suc, ◌≡◌, ◌≢◌, ◌⊎◌, refl, sym, ap, ◌∙◌, String, true, false, Option, none, some, ◌==◌, eq_iff,
  Bool-cases, inl, inr,
}
use openterms.Python.{ok, fail_ok, ok-injective}
use openterms.Ingest.Service.{World, or_else, or_option}
use openterms.Ingest.Emit.{agent_text}

-- no text, or an empty one
pub data Absent : Option String → Type 0 where
  not_given : Absent none
  empty_text : Absent (some "")

-- A text that is given, or what a source says, which takes a moment.
pub data Chosen (source : ℕ → String) (w : World) (o : Option String)
    : String → World → Type 0 where
  given : {s : String} → o ≡ some s → s ≢ "" → Chosen source w o s w
  called : Absent o → Chosen source w o (source w.moment) (record w { moment = suc w.moment })

-- A text that is given, or a default.
pub data OrDefault (default : String) (o : Option String) : String → Type 0 where
  own : {s : String} → o ≡ some s → s ≢ "" → OrDefault default o s
  by_default : Absent o → OrDefault default o default

-- The agent of the call, or else that of the client.
pub data AgentOf (mine theirs : Option String) (agent : String) : Type 0 where
  of_call : mine ≡ some agent → AgentOf mine theirs agent
  of_client : Absent mine → theirs ≡ some agent → AgentOf mine theirs agent

empty-Absent : (s : String) → (s == "") ≡ true → Absent (some s)
empty-Absent s empty = rw ((eq_iff s "").0 empty) Absent.empty_text

full-text : (s : String) → (s == "") ≡ false → s ≢ ""
full-text s full same = false≢true (sym full ∙ (eq_iff s "").1 same)

pub text-cases :
    (s : String) → (((s == "") ≡ true) × Absent (some s)) ⊎ (((s == "") ≡ false) × (s ≢ ""))
text-cases s = elim (Bool-cases (s == "")) [
  | inl empty ↦ inl (empty, empty-Absent s empty)
  | inr full ↦ inr (full, full-text s full)
]

pub Chosen-sent :
    {source : ℕ → String} {w w' : World} {o : Option String} {s : String}
    → Chosen source w o s w'
    → w'.sent ≡ w.sent
Chosen-sent (Chosen.given there full) = refl
Chosen-sent (Chosen.called absent) = refl

pub or_else-OrDefault :
    (o : Option String) (default : String) → OrDefault default o (or_else o default)
unfolding or_else
or_else-OrDefault none default = OrDefault.by_default Absent.not_given
or_else-OrDefault (some s) default = elim (text-cases s) [
  | inl (empty, absent) ↦ rw (or_else, empty) (OrDefault.by_default absent)
  | inr (full, named) ↦ rw (or_else, full) (OrDefault.own refl named)
]

agent_text-named :
    (o : Option String) {agent : String} → agent_text o ≡ ok agent → (o ≡ some agent) × (agent ≢ "")
unfolding agent_text
agent_text-named none returned = absurd (fail_ok returned)
agent_text-named (some s) {agent = agent} returned = elim (text-cases s) [
  | inl (empty, absent) ↦ absurd (fail_ok (rw (agent_text, empty) at returned))
  | inr (full, named) ↦
      (let same : s ≡ agent = ok-injective (rw (agent_text, full) at returned) in
        (ap some same, λ empty. named (same ∙ empty)))
]

pub agent_text-AgentOf :
    (mine theirs : Option String) {agent : String}
    → agent_text (or_option mine theirs) ≡ ok agent
    → AgentOf mine theirs agent × (agent ≢ "")
unfolding or_option
agent_text-AgentOf none theirs returned =
    let (there, named) = agent_text-named theirs returned in
    (AgentOf.of_client Absent.not_given there, named)
agent_text-AgentOf (some s) theirs returned = elim (text-cases s) [
  | inl (empty, absent) ↦
      (let (there, named) = agent_text-named theirs (rw (or_option, empty) at returned) in
        (AgentOf.of_client absent there, named))
  | inr (full, _) ↦
      (let (there, named) = agent_text-named (some s) (rw (or_option, full) at returned) in
        (AgentOf.of_call there, named))
]
