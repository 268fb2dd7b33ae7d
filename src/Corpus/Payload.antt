-- ===== src/Corpus/Payload.antt =====
-- `build_receipt_payload` of packages/openterms-py/scripts/generate_corpus.py.
use openterms.Prelude.{ℕ, suc, String, Bool, true, false, ◌&&◌, Option, none, some, [], ◌∷◌, ltb}
pub mod Commitments
pub mod Signable
use openterms.Prelude.Int.{pos}
use openterms.Python.{int, str, dict, Fields, end, field, ok, put, join_text}
use openterms.Policy.Clock.{◌>>=◌, untimed}
use openterms.Corpus.Scenario.{Bucket, Scenario, Random, Draw, draw_below, pick, deterministic_hex}
use openterms.Corpus.Buckets.{Choice, choose}
use openterms.Corpus.Times.{Datetimes, shift, to_iso_z}

-- The dictionary `chain_state`. Its other entries are read only when it is active, and then they are set.
pub record ChainState : Type 0 where
  pub active : Bool
  pub depth : ℕ
  pub chain_id : String
  pub parent_receipt_id : String
  pub originating_agent : String

-- {"active": False}
abbrev pub no_chain : ChainState
no_chain = record {
  active = false;
  depth = 0;
  chain_id = "";
  parent_receipt_id = "";
  originating_agent = "";
}

unfoldable pub args_commitment : Random → Bool → Fields → Draw Fields
unfolding deterministic_hex put
args_commitment rng true commitments = do
  args_hash ← deterministic_hex rng 32
  untimed (ok (put "args_hash" (str args_hash) commitments))
args_commitment rng false commitments = untimed (ok commitments)

abbrev pub zero_hash : String
zero_hash = "0000000000000000000000000000000000000000000000000000000000000000"

unfoldable pub pre_commitment : Random → Bool → Fields → Draw Fields
unfolding deterministic_hex put
pre_commitment rng true commitments = do
  pre_state_hash ← deterministic_hex rng 32
  untimed (
      ok (
        put "post_state_hash" (str zero_hash)
          (put "pre_state_hash" (str pre_state_hash) commitments)))
pre_commitment rng false commitments = untimed (ok commitments)

unfoldable pub state_commitment : Random → Option String → Fields → Draw Fields
unfolding draw_below pre_commitment put
state_commitment rng (some hash) commitments =
    untimed (ok (put "post_state_hash" (str hash) commitments))
state_commitment rng none commitments = do
  with_pre ← draw_below rng "0.15"
  pre_commitment rng with_pre commitments

unfoldable pub tool_commitment : Option String → Fields
tool_commitment none = end
tool_commitment (some tool_id) = field "tool_id" (str tool_id) end

-- the commitments, if they are included; they may be empty
unfoldable pub draw_commitments : Random → Bool → Choice → Draw Fields
unfolding draw_below args_commitment state_commitment tool_commitment
draw_commitments rng false choice = untimed (ok end)
draw_commitments rng true choice = do
  with_args ← draw_below rng "0.5"
  commitments ← args_commitment rng with_args (tool_commitment choice.tool_id)
  state_commitment rng choice.post_state_hash commitments

-- The two branches on the chain of the receipts before: the new entry and the state behind it.
unfoldable pub extend_chain :
    Random → Bool → ChainState → String → String → Draw (Option Fields × ChainState)
unfolding deterministic_hex join_text
extend_chain rng true chain receipt_id agent_id = untimed (
    ok (
      some (
          field "parent_receipt_id" (str chain.parent_receipt_id) (
            field "chain_id" (str chain.chain_id) (
              field "chain_depth" (int (pos chain.depth))
                (field "originating_agent" (str chain.originating_agent) end)))),
      record chain { parent_receipt_id = receipt_id; depth = suc chain.depth },
    ))
extend_chain rng false chain receipt_id agent_id = do
  suffix ← deterministic_hex rng 4
  let chain_id = join_text ("chain-" ∷ suffix ∷ [])
  untimed (
      ok (
        some (
            field "chain_id" (str chain_id)
              (field "chain_depth" (int (pos 0)) (field "originating_agent" (str agent_id) end))),
        record {
          active = true;
          depth = 1;
          chain_id = chain_id;
          parent_receipt_id = receipt_id;
          originating_agent = agent_id;
        },
      ))

unfoldable pub draw_chain :
    Random → Bool → ChainState → String → String → Draw (Option Fields × ChainState)
unfolding extend_chain
draw_chain rng false chain receipt_id agent_id =
    untimed (ok (none, record chain { active = false }))
draw_chain rng true chain receipt_id agent_id =
    extend_chain rng (chain.active && ltb chain.depth 3) chain receipt_id agent_id

-- action_context["ors"], with the commitments if there are any, and the chain
unfoldable pub ors_of : Fields → Option Fields → Fields
ors_of end none = end
ors_of end (some chain) = field "chain" (dict chain) end
ors_of commitments none = field "commitments" (dict commitments) end
ors_of commitments (some chain) =
    field "commitments" (dict commitments) (field "chain" (dict chain) end)

-- if action_context: payload["action_context"] = action_context
unfoldable pub with_context : Fields → Fields → Fields
unfolding put
with_context end payload = payload
with_context ors payload = put "action_context" (dict (field "ors" (dict ors) end)) payload

unfoldable pub with_provider : Bool → Fields → Fields
unfolding put
with_provider false payload = payload
with_provider true payload =
    put "provider"
      (dict
        (field "origin" (str "https://api.openai.com") (field "provider_id" (str "openai") end)))
      payload

unfoldable pub with_request_binding : Random → Bool → Fields → Draw Fields
unfolding deterministic_hex put
with_request_binding rng false payload = untimed (ok payload)
with_request_binding rng true payload = do
  nonce ← deterministic_hex rng 16
  untimed (
      ok (
        put "request_binding"
          (dict (
            field "provider_nonce" (str nonce) (field "binding_method" (str "provider_nonce") end)))
          payload))

unfoldable pub with_version : Bool → Fields → Fields
unfolding put
with_version false payload = payload
with_version true payload = put "ors_version" (str "0.2") payload

-- the dictionary that the payload begins with
unfoldable pub base_payload :
    Scenario → Choice → String → String → String → String → String → Fields
base_payload scenario choice agent_id receipt_id terms_hash timestamp created_at =
    field "workspace_id" (str scenario.workspace_id) (
      field "agent_id" (str agent_id) (
        field "action_type" (str choice.action_type) (
          field "terms_url" (str choice.terms_url) (
            field "terms_hash" (str terms_hash) (
              field "timestamp" (str timestamp) (
                field "pricing_version" (str "2026-q2") (
                  field "receipt_id" (str receipt_id) (
                    field "amount_charged" (int choice.amount) (
                      field "created_at" (str created_at)
                        (field "issuer" (str scenario.issuer) end))))))))))

-- `build_receipt_payload`: the payload and the chain state behind it
unfoldable pub build_receipt_payload :
    Random → Datetimes → Scenario → Bucket → ℕ → String → ChainState → Draw (Fields × ChainState)
unfolding pick draw_below choose deterministic_hex shift to_iso_z base_payload draw_commitments
    draw_chain ors_of with_context with_provider with_request_binding with_version
build_receipt_payload rng dates scenario bucket when receipt_id chain_state = do
  agent_id ← pick rng scenario.agents
  include_provider ← draw_below rng "0.2"
  include_request_binding ← draw_below rng "0.1"
  include_v02_fields ← draw_below rng "0.05"
  choice ← choose rng scenario bucket
  terms_hash ← deterministic_hex rng 32
  created ← untimed (shift when (pos 1))
  commitments ← draw_commitments rng choice.include_commitments choice
  chained ← draw_chain rng choice.include_chain chain_state receipt_id agent_id
  let payload = with_provider include_provider (
      with_context (ors_of commitments chained.0) (
        base_payload scenario choice agent_id receipt_id terms_hash (to_iso_z dates when)
          (to_iso_z dates created)))
  payload ← with_request_binding rng include_request_binding payload
  untimed (ok (with_version include_v02_fields payload, chained.1))
