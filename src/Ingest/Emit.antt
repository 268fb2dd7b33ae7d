-- ===== src/Ingest/Emit.antt =====
-- `emit_receipt` and `emit_post_action_receipt` of packages/openterms-py/openterms/client.py.
pub mod Complete
pub mod Arguments
pub mod Payload
pub mod Prepared
pub mod Posted
pub mod PostAction
pub mod Refused
use openterms.Prelude.{
  ℕ, suc, String, Bool, true, false, Option, none, some, List, [], ◌∷◌, ◌==◌, if◌then◌else◌,
}
use openterms.Prelude.Int.{ℤ}
use openterms.Python.{
  Value, null, int, str, dict, Fields, end, field, other, Builtins, value_error, Result, ok, fail,
  get, put, is_null,
}
use openterms.Receipts.Canonical.{build_payload}
use openterms.Receipts.Crypto.{Crypto}
use openterms.Receipts.Signing.{sign_receipt}
use openterms.Ingest.Service.{Outside, IngestClient, World, or_option, or_else}
use openterms.Ingest.Outcome.{Outcome, returned, Call, ◌>>=◌, lift}
use openterms.Ingest.Transport.{IngestResponse, post}

-- the arguments of `emit_receipt`
pub record Emission : Type 0 where
  pub action_type : String
  pub terms_url : String
  pub terms_hash : String
  pub action_context : Option Fields
  pub pricing_version : String
  pub amount_charged : ℤ
  pub agent_id : Option String
  pub receipt_id : Option String
  pub timestamp : Option String
  pub created_at : Option String
  pub idempotency_key : Option String
  pub extra : Option Fields

-- if not agent: raise ValueError
unfoldable pub agent_text : Option String → Result String
agent_text none = fail (value_error "agent_id must be provided either at init or per-call")
agent_text (some agent) =
    if agent == ""
    then fail (value_error "agent_id must be provided either at init or per-call")
    else ok agent

unfoldable pub agent_of : IngestClient → Emission → Result String
unfolding agent_text or_option
agent_of client e = agent_text (or_option e.agent_id client.agent_id)

-- for k, v in extra.items(): if v is not None: receipt[k] = v. An entry whose key is no text is left
-- out, since `build_payload` reads none.
unfoldable pub merge : Fields → Fields → Fields
unfolding put
merge end receipt = receipt
merge (field k v extra) receipt = merge extra (if is_null v then receipt else put k v receipt)
merge (other k v extra) receipt = merge extra receipt

unfoldable pub merge_extra : Option Fields → Fields → Fields
unfolding merge
merge_extra none receipt = receipt
merge_extra (some extra) receipt = merge extra receipt

unfoldable pub put_context : Option Fields → Fields → Fields
unfolding put
put_context none receipt = receipt
put_context (some context) receipt = put "action_context" (dict context) receipt

-- the dictionary that `emit_receipt` begins with
unfoldable pub base_receipt : IngestClient → Emission → String → String → String → Fields
unfolding or_else
base_receipt client e agent ts receipt_id = field "workspace_id" (str client.workspace_id) (
    field "agent_id" (str agent) (
      field "action_type" (str e.action_type) (
        field "terms_url" (str e.terms_url) (
          field "terms_hash" (str e.terms_hash) (
            field "timestamp" (str ts) (
              field "pricing_version" (str e.pricing_version) (
                field "receipt_id" (str receipt_id) (
                  field "amount_charged" (int e.amount_charged)
                    (field "created_at" (str (or_else e.created_at ts)) end)))))))))

unfoldable pub full_receipt : IngestClient → Emission → String → String → String → Fields
unfolding base_receipt put_context merge_extra
full_receipt client e agent ts receipt_id =
    merge_extra e.extra (put_context e.action_context (base_receipt client e agent ts receipt_id))

-- a or f(), where the call passes a moment
unfoldable pub text_or_call : Option String → (ℕ → String) → Call String
text_or_call none source w = (returned (source w.moment), record w { moment = suc w.moment })
text_or_call (some s) source w =
    if s == ""
    then (returned (source w.moment), record w { moment = suc w.moment })
    else (returned s, w)

-- `emit_receipt` up to the POST: the signed receipt
unfoldable pub signed_receipt : Outside → Builtins → Crypto → IngestClient → Emission → Call Fields
unfolding agent_of text_or_call full_receipt build_payload sign_receipt
signed_receipt outside py crypto client e = do
  agent ← lift (agent_of client e)
  ts ← text_or_call e.timestamp outside.utcnow
  receipt_id ← text_or_call e.receipt_id outside.uuid4
  payload ← lift (build_payload (full_receipt client e agent ts receipt_id))
  lift (sign_receipt py crypto (dict payload) client.private_key (str client.key_id))

-- `IngestClient.emit_receipt`
unfoldable pub emit_receipt :
    Outside → Builtins → Crypto → IngestClient → Emission → Call IngestResponse
unfolding signed_receipt post
emit_receipt outside py crypto client e = do
  signed ← signed_receipt outside py crypto client e
  post outside client signed e.idempotency_key

-- {**context, "post_state_hash": hash}
unfoldable pub post_context : Fields → String → Fields
unfolding put
post_context context post_state_hash = put "post_state_hash" (str post_state_hash) context

-- {k: v for k, v in extra.items() if k != "action_context"}
unfoldable pub without_context : Fields → Fields
without_context end = end
without_context (field k v d) =
    let rest = without_context d in if k == "action_context" then rest else field k v rest
without_context (other k v d) = other k v (without_context d)

-- The context and the extra fields that `emit_post_action_receipt` passes on, by what the extra fields
-- have for the context.
unfoldable pub split_context : Option Value → Fields → String → Fields × Option Fields
unfolding post_context without_context
split_context (some (dict context)) extra post_state_hash =
    (post_context context post_state_hash, some (without_context extra))
split_context _ extra post_state_hash = (post_context end post_state_hash, some extra)

unfoldable pub post_fields : Option Fields → String → Fields × Option Fields
unfolding split_context get
post_fields none post_state_hash = (post_context end post_state_hash, none)
post_fields (some extra) post_state_hash =
    split_context (get extra "action_context") extra post_state_hash

-- the arguments that `emit_post_action_receipt` passes to `emit_receipt`
unfoldable pub post_emission : String → String → Emission → Emission
unfolding post_fields
post_emission receipt_id post_state_hash e =
    let (context, extra) = post_fields e.extra post_state_hash in
    record e { action_context = some context; receipt_id = some receipt_id; extra = extra }

-- `IngestClient.emit_post_action_receipt`: the context and the receipt id of `e` are not read
unfoldable pub emit_post_action_receipt :
    Outside → Builtins → Crypto → IngestClient → String → String → Emission → Call IngestResponse
unfolding post_emission emit_receipt
emit_post_action_receipt outside py crypto client receipt_id post_state_hash e =
    emit_receipt outside py crypto client (post_emission receipt_id post_state_hash e)
