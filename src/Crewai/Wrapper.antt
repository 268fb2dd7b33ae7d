-- ===== src/Crewai/Wrapper.antt =====
-- `wrap_tool` and `_build_args`. Log lines are left out.
use openterms.Prelude.{ℕ, suc, String, Bool, Option, none, some, [], ◌∷◌, ◌&&◌, not, if◌then◌else◌}
use openterms.Prelude.Int.{pos}
use openterms.Python.{
  Value, null, str, dict, Values, nil, cons, Fields, end, field, other, Builtins, Result, ok, fail,
  codes, put, join_text, is_null,
}
use openterms.Receipts.Canonical.Json.{utf8}
use openterms.Receipts.Crypto.{Crypto, hex}
use openterms.Ingest.Service.{Outside, IngestClient, World, or_else}
use openterms.Ingest.Outcome.{Outcome, returned, raised, ingest_failed}
use openterms.Ingest.Transport.{IngestResponse}
use openterms.Ingest.Emit.{Emission, emit_receipt, emit_post_action_receipt}

-- `OpenTermsToolConfig`
pub record OpenTermsToolConfig : Type 0 where
  pub client : IngestClient
  pub agent_id : String
  pub terms_url : String
  pub terms_hash : String
  pub emit_post_action : Bool
  pub strict : Bool

-- What a wrapped call reads. `func` is the callable at its n-th call, `bind_partial` the names that
-- inspect.signature(func).bind_partial gives the arguments, with `none` for a TypeError or a
-- ValueError, and `name` its `__name__`, if it has one. The tuple that is bound for *args stands as a
-- list, which `_validate` and json.dumps treat alike.
pub record Tool : Type 0 where
  pub func : ℕ → Values → Fields → Result Value
  pub bind_partial : Values → Fields → Option Fields
  pub name : Option String

pub record Environment : Type 0 where
  pub outside : Outside
  pub py : Builtins
  pub crypto : Crypto
  -- str of a position
  pub index_text : ℕ → String

-- the world of the client, and how often the callable was called
pub record State : Type 0 where
  pub world : World
  pub called : ℕ

-- {f"arg_{i}": v for i, v in enumerate(args)}, from position i on
unfoldable pub numbered : (ℕ → String) → ℕ → Values → Fields
unfolding join_text
numbered index_text i nil = end
numbered index_text i (cons v vs) =
    field (join_text ("arg_" ∷ index_text i ∷ [])) v (numbered index_text (suc i) vs)

-- out.update(kwargs); a keyword is a text
unfoldable pub update_fields : Fields → Fields → Fields
unfolding put
update_fields end out = out
update_fields (field k v kwargs) out = update_fields kwargs (put k v out)
update_fields (other k v kwargs) out = update_fields kwargs out

-- `_build_args`
unfoldable pub build_args : Environment → Tool → Values → Fields → Fields
unfolding numbered update_fields
build_args env tool args kwargs = elim (tool.bind_partial args kwargs) [
  | some bound ↦ bound
  | none ↦ update_fields kwargs (numbered env.index_text 0 args)
]

-- getattr(func, "__name__", "tool")
unfoldable pub own_name : Tool → String
own_name tool = elim tool.name [ none ↦ "tool" | some name ↦ name ]

-- the arguments of `emit_receipt` for a call
unfoldable pub call_emission : OpenTermsToolConfig → Fields → Option String → Emission
call_emission config action_context receipt_id = record {
  action_type = "tool_call";
  terms_url = config.terms_url;
  terms_hash = config.terms_hash;
  action_context = some action_context;
  pricing_version = "v1";
  amount_charged = pos 0;
  agent_id = some config.agent_id;
  receipt_id = receipt_id;
  timestamp = none;
  created_at = none;
  idempotency_key = none;
  extra = none;
}

-- hashlib.sha256(str(result).encode("utf-8")).hexdigest()
unfoldable pub result_hash : Environment → Value → String
unfolding utf8 codes hex
result_hash env result = hex (env.crypto.sha256 (utf8 (codes (env.py.str_of result))))

-- what the wrapper does with the end of `emit_post_action_receipt`
unfoldable pub after_post :
    Bool → Value → ℕ → Outcome IngestResponse × World → Outcome Value × State
after_post strict result called (returned resp, w) =
    (returned result, record { world = w; called = called })
after_post strict result called (raised e, w) = (raised e, record { world = w; called = called })
after_post strict result called (ingest_failed e, w) =
    (if strict then ingest_failed e else returned result, record { world = w; called = called })

-- the part of the wrapper behind the call of the callable
unfoldable pub after_call :
    Environment
    → OpenTermsToolConfig
    → String
    → Value
    → World
    → ℕ
    → Result Value
    → Outcome Value × State
unfolding after_post call_emission result_hash
after_call env config receipt_id pre_canonical_hash w called (fail e) =
    (raised e, record { world = w; called = called })
after_call env config receipt_id pre_canonical_hash w called (ok result) =
    if config.emit_post_action && not (is_null pre_canonical_hash)
    then after_post config.strict result called (
        emit_post_action_receipt env.outside env.py env.crypto config.client receipt_id
          (result_hash env result) (call_emission config end none) w)
    else (returned result, record { world = w; called = called })

-- result = func(*args, **kwargs), and what follows it
unfoldable pub call_tool :
    Environment
    → OpenTermsToolConfig
    → Tool
    → Values
    → Fields
    → String
    → Value
    → World
    → ℕ
    → Outcome Value × State
unfolding after_call
call_tool env config tool args kwargs receipt_id pre_canonical_hash w called =
    after_call env config receipt_id pre_canonical_hash w (suc called)
      (tool.func called args kwargs)

-- what the wrapper does with the end of `emit_receipt`
unfoldable pub after_pre :
    Environment
    → OpenTermsToolConfig
    → Tool
    → Values
    → Fields
    → String
    → ℕ
    → Outcome IngestResponse × World
    → Outcome Value × State
unfolding call_tool
after_pre env config tool args kwargs receipt_id called (returned resp, w) =
    call_tool env config tool args kwargs receipt_id resp.canonical_hash w called
after_pre env config tool args kwargs receipt_id called (raised e, w) =
    (raised e, record { world = w; called = called })
after_pre env config tool args kwargs receipt_id called (ingest_failed e, w) =
    if config.strict
    then (ingest_failed e, record { world = w; called = called })
    else call_tool env config tool args kwargs receipt_id null w called

-- The wrapper that `wrap_tool` returns; `tool_name` is none for None.
unfoldable pub wrapper :
    Environment
    → OpenTermsToolConfig
    → Tool
    → Option String
    → Values
    → Fields
    → State
    → Outcome Value × State
unfolding or_else own_name build_args call_emission after_pre
wrapper env config tool tool_name args kwargs s =
    let action_context : Fields =
      field "tool_id" (str (or_else tool_name (own_name tool)))
        (field "args" (dict (build_args env tool args kwargs)) end) in
    let receipt_id = env.outside.uuid4 s.world.moment in
    after_pre env config tool args kwargs receipt_id s.called (
      emit_receipt env.outside env.py env.crypto config.client
        (call_emission config action_context (some receipt_id))
        (record s.world { moment = suc s.world.moment }))

-- What `wrap_tool` returns: the wrapper, and the attribute that it is given. What functools.wraps copies
-- is left out.
pub record Wrapped : Type 0 where
  pub call : Values → Fields → State → Outcome Value × State
  pub openterms_config : OpenTermsToolConfig

-- `wrap_tool`
unfoldable pub wrap_tool : Environment → Tool → OpenTermsToolConfig → Option String → Wrapped
unfolding wrapper
wrap_tool env func config tool_name = record {
  call = wrapper env config func tool_name;
  openterms_config = config;
}

-- `openterms_tool`: the function `decorate`
unfoldable pub openterms_tool : Environment → OpenTermsToolConfig → Option String → Tool → Wrapped
unfolding wrap_tool
openterms_tool env config tool_name func = wrap_tool env func config tool_name
