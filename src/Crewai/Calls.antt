-- ===== src/Crewai/Calls.antt =====
-- How a wrapped call ends, and whether the callable was called.
use openterms.Prelude.{
  and-true, arith, Bool-cases, inl, inr, ℕ, suc, ◌≡◌, refl, String, true, false, Option, none, some,
  ◌&&◌, not, if-either,
}
use openterms.Python.{
  Value, null, str, dict, Values, Fields, end, field, Error, Result, ok, fail, is_null,
}
use openterms.Ingest.Service.{World, or_else}
use openterms.Ingest.Outcome.{IngestError, Outcome, returned, raised, ingest_failed}
use openterms.Ingest.Transport.{IngestResponse}
use openterms.Ingest.Emit.{emit_receipt, emit_post_action_receipt}
use openterms.Crewai.Wrapper.{
  OpenTermsToolConfig, Tool, Environment, State, build_args, own_name, call_emission, result_hash,
  after_post, after_call, call_tool, after_pre, wrapper,
}

-- how the call's `emit_receipt` ends
unfoldable pub first_receipt :
    Environment
    → OpenTermsToolConfig
    → Tool
    → Option String
    → Values
    → Fields
    → State
    → Outcome IngestResponse × World
unfolding or_else own_name build_args call_emission
first_receipt env config tool tool_name args kwargs s =
    let action_context : Fields =
      field "tool_id" (str (or_else tool_name (own_name tool)))
        (field "args" (dict (build_args env tool args kwargs)) end) in
    emit_receipt env.outside env.py env.crypto config.client
      (call_emission config action_context (some (env.outside.uuid4 s.world.moment)))
      (record s.world { moment = suc s.world.moment })

-- how the call's `emit_post_action_receipt` ends, for the world behind the callable and its value
unfoldable pub second_receipt :
    Environment → OpenTermsToolConfig → State → World → Value → Outcome IngestResponse × World
unfolding call_emission result_hash
second_receipt env config s w result =
    emit_post_action_receipt env.outside env.py env.crypto config.client
      (env.outside.uuid4 s.world.moment) (result_hash env result) (call_emission config end none) w

-- When the callable is called: the first receipt was sent, or failed with an IngestError that is passed
-- over. The value is the hash that the service gave it, or null.
pub data GoesOn (config : OpenTermsToolConfig) (pre : Outcome IngestResponse) : Value → Type 0 where
  answered : (resp : IngestResponse) → pre ≡ returned resp → GoesOn config pre resp.canonical_hash
  passed_over :
      (x : IngestError) → pre ≡ ingest_failed x → config.strict ≡ false → GoesOn config pre null

-- There is a second receipt: it is asked for, and the first one has a hash.
pub data Twice (config : OpenTermsToolConfig) (hash : Value) : Type 0 where
  twice : config.emit_post_action ≡ true → is_null hash ≡ false → Twice config hash

-- There is none.
pub data Once (config : OpenTermsToolConfig) (hash : Value) : Type 0 where
  not_asked : config.emit_post_action ≡ false → Once config hash
  no_hash : is_null hash ≡ true → Once config hash

-- The ends of a wrapped call. `first` is how `emit_receipt` ended, `ran` what the callable did, and
-- `second` how `emit_post_action_receipt` ends for a value.
pub data CallEnd (config : OpenTermsToolConfig) (first : Outcome IngestResponse × World)
    (called : ℕ) (ran : Result Value) (second : World → Value → Outcome IngestResponse × World)
    : Outcome Value × State → Type 0 where
  -- the first receipt could not be made or read, and the callable was not called
  refused :
      (x : Error)
      → first.0 ≡ raised x
      → CallEnd config first called ran second
          (raised x, record { world = first.1; called = called })
  refused_strict :
      (x : IngestError)
      → first.0 ≡ ingest_failed x
      → config.strict ≡ true
      → CallEnd config first called ran second
          (ingest_failed x, record { world = first.1; called = called })
  -- the callable was called once, and raised
  failed :
      {hash : Value} (x : Error)
      → GoesOn config first.0 hash
      → ran ≡ fail x
      → CallEnd config first called ran second
          (raised x, record { world = first.1; called = suc called })
  -- it returned, and there is no second receipt
  done :
      {hash : Value} (v : Value)
      → GoesOn config first.0 hash
      → ran ≡ ok v
      → Once config hash
      → CallEnd config first called ran second
          (returned v, record { world = first.1; called = suc called })
  -- it returned, and the second receipt was sent, or failed
  sent_twice :
      {hash : Value} (v : Value) (resp : IngestResponse)
      → GoesOn config first.0 hash
      → ran ≡ ok v
      → Twice config hash
      → (second first.1 v).0 ≡ returned resp
      → CallEnd config first called ran second
          (returned v, record { world = (second first.1 v).1; called = suc called })
  post_raised :
      {hash : Value} (v : Value) (x : Error)
      → GoesOn config first.0 hash
      → ran ≡ ok v
      → Twice config hash
      → (second first.1 v).0 ≡ raised x
      → CallEnd config first called ran second
          (raised x, record { world = (second first.1 v).1; called = suc called })
  post_strict :
      {hash : Value} (v : Value) (x : IngestError)
      → GoesOn config first.0 hash
      → ran ≡ ok v
      → Twice config hash
      → (second first.1 v).0 ≡ ingest_failed x
      → config.strict ≡ true
      → CallEnd config first called ran second
          (ingest_failed x, record { world = (second first.1 v).1; called = suc called })
  post_passed_over :
      {hash : Value} (v : Value) (x : IngestError)
      → GoesOn config first.0 hash
      → ran ≡ ok v
      → Twice config hash
      → (second first.1 v).0 ≡ ingest_failed x
      → config.strict ≡ false
      → CallEnd config first called ran second
          (returned v, record { world = (second first.1 v).1; called = suc called })

module _ (config : OpenTermsToolConfig) (first : Outcome IngestResponse × World) (called : ℕ)
    (ran : Result Value) (second : World → Value → Outcome IngestResponse × World) where
  after_post-CallEnd :
      {hash : Value} (v : Value) (o : Outcome IngestResponse)
      → GoesOn config first.0 hash
      → ran ≡ ok v
      → Twice config hash
      → (second first.1 v).0 ≡ o
      → CallEnd config first called ran second
          (after_post config.strict v (suc called) (o, (second first.1 v).1))
  unfolding after_post
  after_post-CallEnd v (returned resp) on did both ended =
      CallEnd.sent_twice v resp on did both ended
  after_post-CallEnd v (raised x) on did both ended = CallEnd.post_raised v x on did both ended
  after_post-CallEnd v (ingest_failed x) on did both ended =
      if-either
        (λ o.
          CallEnd config first called ran second
            (o, record { world = (second first.1 v).1; called = suc called }))
        config.strict (λ strict. CallEnd.post_strict v x on did both ended strict)
        (λ lenient. CallEnd.post_passed_over v x on did both ended lenient)

both-Twice :
    (config : OpenTermsToolConfig) (hash : Value)
    → (config.emit_post_action && not (is_null hash)) ≡ true
    → Twice config hash
both-Twice config hash both =
    let (asked, hashed) = and-true config.emit_post_action (not (is_null hash)) both in
    Twice.twice asked (ground (arith, hashed))

either-Once :
    (config : OpenTermsToolConfig) (hash : Value)
    → (config.emit_post_action && not (is_null hash)) ≡ false
    → Once config hash
either-Once config hash either = elim (Bool-cases config.emit_post_action) [
  | inr off ↦ Once.not_asked off
  | inl asked ↦ Once.no_hash (ground (arith, asked, either))
]

module _ (env : Environment) (config : OpenTermsToolConfig) (s : State)
    (first : Outcome IngestResponse × World) (called : ℕ) (ran : Result Value) where
  after_call-CallEnd :
      {hash : Value} (r : Result Value)
      → GoesOn config first.0 hash
      → ran ≡ r
      → CallEnd config first called ran
          (second_receipt env config s)
          (after_call env config (env.outside.uuid4 s.world.moment) hash first.1 (suc called) r)
  unfolding after_call second_receipt
  after_call-CallEnd (fail x) on did = CallEnd.failed x on did
  after_call-CallEnd {hash = hash} (ok v) on did =
      if-either (CallEnd config first called ran (second_receipt env config s))
        (config.emit_post_action && not (is_null hash))
        (λ both.
          after_post-CallEnd config first called ran (second_receipt env config s) v _ on did
            (both-Twice config hash both) refl)
        (λ once. CallEnd.done v on did (either-Once config hash once))

module _ (env : Environment) (config : OpenTermsToolConfig) (tool : Tool) (args : Values)
    (kwargs : Fields) where
  after_pre-CallEnd :
      (s : State) (called : ℕ) (e : Outcome IngestResponse × World)
      → CallEnd config e called
          (tool.func called args kwargs)
          (second_receipt env config s)
          (after_pre env config tool args kwargs (env.outside.uuid4 s.world.moment) called e)
  unfolding after_pre call_tool
  after_pre-CallEnd s called (returned resp, w) =
      after_call-CallEnd env config s (returned resp, w) called (tool.func called args kwargs) _
        (GoesOn.answered resp refl) refl
  after_pre-CallEnd s called (raised x, w) = CallEnd.refused x refl
  after_pre-CallEnd s called (ingest_failed x, w) =
      if-either
        (CallEnd config (ingest_failed x, w) called (tool.func called args kwargs)
          (second_receipt env config s))
        config.strict (λ strict. CallEnd.refused_strict x refl strict)
        (λ lenient.
          after_call-CallEnd env config s (ingest_failed x, w) called (tool.func called args kwargs)
            _ (GoesOn.passed_over x refl lenient) refl)

  -- A wrapped call ends in one of eight ways. The callable is called once, unless emit_receipt
  -- raised an exception that is no IngestError, or an IngestError in strict mode, which is then
  -- what the call ends with. What the callable raised is what the wrapped call raises. What it
  -- returned is what the wrapped call returns, unless emit_post_action is set, the first receipt
  -- has a hash, and emit_post_action_receipt for the receipt id of the first and the hash of the
  -- value raised an exception that is no IngestError, or an IngestError in strict mode, which is
  -- then what the call ends with. The world is that behind the last of these calls to the client.
  pub wrapper-CallEnd :
      (tool_name : Option String) (s : State)
      → CallEnd config
          (first_receipt env config tool tool_name args kwargs s)
          s.called
          (tool.func s.called args kwargs)
          (second_receipt env config s)
          (wrapper env config tool tool_name args kwargs s)
  unfolding wrapper first_receipt
  wrapper-CallEnd tool_name s = after_pre-CallEnd s s.called _
