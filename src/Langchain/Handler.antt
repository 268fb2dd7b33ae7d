-- ===== src/Langchain/Handler.antt =====
-- OpenTermsCallbackHandler. A callback is one step: the lock covers the accesses to the pending
-- receipts, and no other callback of the same run comes before it has returned. Log lines are left out.
use openterms.Prelude.{suc, String, Bool, Option, none, some, List, ◌==◌, if◌then◌else◌}
use openterms.Prelude.Int.{pos}
use openterms.Python.{
  Value, null, str, list, dict, Values, nil, cons, Fields, end, field, Builtins, codes, get_or,
  lookup, insert, erase,
}
use openterms.Receipts.Canonical.Json.{utf8}
use openterms.Receipts.Crypto.{Crypto, hex}
use openterms.Ingest.Service.{Outside, IngestClient, World}
use openterms.Ingest.Outcome.{Outcome, returned, raised, ingest_failed}
use openterms.Ingest.Transport.{IngestResponse}
use openterms.Ingest.Emit.{Emission, emit_receipt, emit_post_action_receipt}

-- `_PendingReceipt`, with null for a hash that is None
pub record PendingReceipt : Type 0 where
  pub receipt_id : String
  pub canonical_hash : Value

pub record Terms : Type 0 where
  pub terms_url : String
  pub terms_hash : String

-- the attributes that stay as they are
pub record Settings : Type 0 where
  pub client : IngestClient
  pub agent_id : String
  pub terms : Terms
  pub emit_post_action : Bool
  pub strict : Bool

-- `_per_tool_terms`, `_pending` by run id, and the world of the client
pub record Handler : Type 0 where
  pub per_tool_terms : List (String × Terms)
  pub pending : List (String × PendingReceipt)
  pub world : World

-- what a callback reads besides the handler
pub record Environment : Type 0 where
  pub outside : Outside
  pub py : Builtins
  pub crypto : Crypto

abbrev pub Callback : Type 0
Callback = Handler → Outcome (Unit {0}) × Handler

-- `set_tool_terms`
unfoldable pub set_tool_terms : String → Terms → Handler → Handler
unfolding insert
set_tool_terms tool_name terms h = record h {
  per_tool_terms = insert tool_name terms h.per_tool_terms;
}

-- `_terms_for`
unfoldable pub terms_for : Settings → Handler → String → Terms
unfolding lookup
terms_for settings h tool_name = elim (lookup h.per_tool_terms tool_name) [
  | none ↦ settings.terms
  | some override ↦ override
]

-- str(ident[-1]) for a list that is not empty
unfoldable pub last_text : Builtins → Value → Values → String
last_text py v nil = py.str_of v
last_text py v (cons w vs) = last_text py w vs

-- the tool's name by its "id"
unfoldable pub name_by_id : Builtins → Value → String
unfolding last_text
name_by_id py (list (cons v vs)) = last_text py v vs
name_by_id py _ = "unknown_tool"

unfoldable pub name_or_id : Builtins → Value → Value → String
unfolding name_by_id
name_or_id py (str name) ident = if name == "" then name_by_id py ident else name
name_or_id py _ ident = name_by_id py ident

-- `_extract_tool_name`
unfoldable pub extract_tool_name : Builtins → Value → String
unfolding name_or_id get_or
extract_tool_name py (dict serialized) =
    name_or_id py (get_or serialized "name" null) (get_or serialized "id" null)
extract_tool_name py _ = "unknown_tool"

-- the arguments of `emit_receipt` for a tool call
unfoldable pub tool_emission : Settings → Terms → Fields → Option String → Emission
tool_emission settings terms action_context receipt_id = record {
  action_type = "tool_call";
  terms_url = terms.terms_url;
  terms_hash = terms.terms_hash;
  action_context = some action_context;
  pricing_version = "v1";
  amount_charged = pos 0;
  agent_id = some settings.agent_id;
  receipt_id = receipt_id;
  timestamp = none;
  created_at = none;
  idempotency_key = none;
  extra = none;
}

-- run_id or uuid.uuid4()
unfoldable pub run_id_or_new : Outside → Option String → World → String × World
run_id_or_new outside none w = (outside.uuid4 w.moment, record w { moment = suc w.moment })
run_id_or_new outside (some run_id) w = (run_id, w)

-- what `on_tool_start` does with the end of `emit_receipt`
unfoldable pub started :
    Bool → String → String → Handler → Outcome IngestResponse × World → Outcome (Unit {0}) × Handler
unfolding insert
started strict run_id receipt_id h (returned resp, w) = (
  returned tt,
  record h {
    pending =
        insert run_id (record { receipt_id = receipt_id; canonical_hash = resp.canonical_hash })
          h.pending;
    world = w;
  },
)
started strict run_id receipt_id h (raised e, w) = (raised e, record h { world = w })
started strict run_id receipt_id h (ingest_failed e, w) = (
  if strict then ingest_failed e else returned tt,
  record h {
    pending = insert run_id (record { receipt_id = receipt_id; canonical_hash = null }) h.pending;
    world = w;
  },
)

-- inputs if inputs is not None else {"input": input_str}
unfoldable pub args_of : Option Fields → String → Value
args_of none input_str = dict (field "input" (str input_str) end)
args_of (some inputs) input_str = dict inputs

-- `on_tool_start`, once the run and the receipt have their ids
unfoldable pub start_run :
    Environment → Settings → Value → String → Option Fields → String → String → World → Callback
unfolding extract_tool_name terms_for tool_emission started args_of
start_run env settings serialized input_str inputs run_id receipt_id w h =
    let tool_name = extract_tool_name env.py serialized in
    let action_context : Fields =
      field "tool_id" (str tool_name) (field "args" (args_of inputs input_str) end) in
    started settings.strict run_id receipt_id h (
      emit_receipt env.outside env.py env.crypto settings.client
        (tool_emission settings (terms_for settings h tool_name) action_context (some receipt_id))
        w)

-- `on_tool_start`
unfoldable pub on_tool_start :
    Environment → Settings → Value → String → Option String → Option Fields → Callback
unfolding run_id_or_new start_run
on_tool_start env settings serialized input_str run_id inputs h =
    let (rid, w) = run_id_or_new env.outside run_id h.world in
    start_run env settings serialized input_str inputs rid (env.outside.uuid4 w.moment)
      (record w { moment = suc w.moment }) h

-- self._pending.pop(run_id, None)
unfoldable pub forget : String → Handler → Handler
unfolding erase
forget run_id h = record h { pending = erase run_id h.pending }

-- what `on_tool_end` does with the end of `emit_post_action_receipt`
unfoldable pub ended :
    Bool → Handler → Outcome IngestResponse × World → Outcome (Unit {0}) × Handler
ended strict h (returned resp, w) = (returned tt, record h { world = w })
ended strict h (raised e, w) = (raised e, record h { world = w })
ended strict h (ingest_failed e, w) =
    (if strict then ingest_failed e else returned tt, record h { world = w })

-- hashlib.sha256(str(output).encode("utf-8")).hexdigest()
unfoldable pub output_hash : Environment → Value → String
unfolding utf8 codes hex
output_hash env output = hex (env.crypto.sha256 (utf8 (codes (env.py.str_of output))))

-- the second receipt of a run, for its pending receipt
unfoldable pub finish_run : Environment → Settings → Value → Option PendingReceipt → Callback
unfolding output_hash ended tool_emission
finish_run env settings output none h = (returned tt, h)
finish_run env settings output (some pending) h = ended settings.strict h (
    emit_post_action_receipt env.outside env.py env.crypto settings.client pending.receipt_id
      (output_hash env output) (tool_emission settings settings.terms end none) h.world)

-- `on_tool_end`
unfoldable pub on_tool_end : Environment → Settings → Value → Option String → Callback
unfolding finish_run forget lookup
on_tool_end env settings output none h = (returned tt, h)
on_tool_end env settings output (some run_id) h =
    if settings.emit_post_action
    then finish_run env settings output (lookup h.pending run_id) (forget run_id h)
    else (returned tt, forget run_id h)

-- `on_tool_error`
unfoldable pub on_tool_error : Option String → Callback
unfolding forget
on_tool_error none h = (returned tt, h)
on_tool_error (some run_id) h = (returned tt, forget run_id h)

-- `emit_receipt_for_tool`
unfoldable pub emit_receipt_for_tool :
    Environment → Settings → String → Fields → Handler → Outcome IngestResponse × Handler
unfolding terms_for tool_emission
emit_receipt_for_tool env settings tool_name inputs h =
    let (outcome, w) =
      emit_receipt env.outside env.py env.crypto settings.client
        (tool_emission settings (terms_for settings h tool_name)
          (field "tool_id" (str tool_name) (field "args" (dict inputs) end)) none)
        h.world in
    (outcome, record h { world = w })
