-- ===== src/Corpus/Buckets.antt =====
-- What `build_receipt_payload` of packages/openterms-py/scripts/generate_corpus.py chooses by the bucket.
use openterms.Prelude.{String, Bool, true, false, not, Option, none, some, List, [], ◌∷◌}
use openterms.Prelude.Int.{ℤ, pos, ◌+ℤ◌}
use openterms.Python.{ok}
use openterms.Policy.Clock.{◌>>=◌, untimed}
use openterms.Corpus.Scenario.{
  Bucket, model_training, max_amount, url_off_list, url_blocked, args_debug, daily_limit,
  escalation_only, tool_off_list, post_state_mismatch, stress, allow, Scenario, Random, Draw,
  draw_range, draw_below, pick, deterministic_hex,
}

-- the variables that the branches set
pub record Choice : Type 0 where
  pub action_type : String
  pub amount : ℤ
  pub terms_url : String
  pub tool_id : Option String
  pub post_state_hash : Option String
  pub include_commitments : Bool
  pub include_chain : Bool

-- A choice of a tool, with commitments and without a chain.
abbrev pub plain_choice : String → ℤ → String → String → Choice
plain_choice action_type amount terms_url tool_id = record {
  action_type = action_type;
  amount = amount;
  terms_url = terms_url;
  tool_id = some tool_id;
  post_state_hash = none;
  include_commitments = true;
  include_chain = false;
}

abbrev pub four_types : List String
four_types = "api_call" ∷ "data_access" ∷ "purchase" ∷ "custom" ∷ []

abbrev pub three_types : List String
three_types = "api_call" ∷ "data_access" ∷ "custom" ∷ []

-- rng.randrange(0, scenario["amounts"]["allow_max"] + 1)
unfoldable pub small_amount : Random → Scenario → Draw ℤ
unfolding draw_range
small_amount rng scenario = draw_range rng (pos 0) (scenario.amounts.allow_max +ℤ pos 1)

-- if rng.random() < 0.05: no commitments and no tool
unfoldable pub allow_tool : Random → Scenario → Bool → Draw (Option String)
unfolding pick
allow_tool rng scenario true = untimed (ok none)
allow_tool rng scenario false = do
  tool_id ← pick rng scenario.tools_allowed
  untimed (ok (some tool_id))

-- The branches on the bucket. The last one of the source, for any other text, is not reached, since the
-- buckets come from `BUCKET_ORDER`.
unfoldable pub choose : Random → Scenario → Bucket → Draw Choice
unfolding pick draw_range draw_below small_amount allow_tool deterministic_hex
choose rng scenario model_training = do
  amount ← draw_range rng (pos 100) (pos 500000)
  terms_url ← pick rng scenario.terms_urls_allowed
  tool_id ← pick rng scenario.tools_allowed
  untimed (ok (plain_choice "model_training" amount terms_url tool_id))
choose rng scenario max_amount = do
  action_type ← pick rng four_types
  amount ← draw_range rng scenario.amounts.max_amount_min (scenario.amounts.max_amount_max +ℤ pos 1)
  terms_url ← pick rng scenario.terms_urls_allowed
  tool_id ← pick rng scenario.tools_allowed
  untimed (ok (plain_choice action_type amount terms_url tool_id))
choose rng scenario url_off_list = do
  action_type ← pick rng four_types
  amount ← small_amount rng scenario
  tool_id ← pick rng scenario.tools_allowed
  untimed (ok (plain_choice action_type amount scenario.terms_url_off_list tool_id))
choose rng scenario url_blocked = do
  action_type ← pick rng four_types
  amount ← small_amount rng scenario
  tool_id ← pick rng scenario.tools_allowed
  untimed (ok (plain_choice action_type amount scenario.terms_url_blocked tool_id))
choose rng scenario args_debug = do
  action_type ← pick rng three_types
  amount ← small_amount rng scenario
  terms_url ← pick rng scenario.terms_urls_allowed
  untimed (ok (plain_choice action_type amount terms_url scenario.tool_debug))
choose rng scenario daily_limit = do
  action_type ← pick rng ("api_call" ∷ "purchase" ∷ [])
  terms_url ← pick rng scenario.terms_urls_allowed
  tool_id ← pick rng scenario.tools_allowed
  untimed (ok (plain_choice action_type scenario.amounts.daily_limit_per_receipt terms_url tool_id))
choose rng scenario escalation_only = do
  action_type ← pick rng four_types
  amount ←
      draw_range rng scenario.amounts.escalation_only_min
        (scenario.amounts.escalation_only_max +ℤ pos 1)
  terms_url ← pick rng scenario.terms_urls_allowed
  tool_id ← pick rng scenario.tools_allowed
  untimed (ok (plain_choice action_type amount terms_url tool_id))
choose rng scenario tool_off_list = do
  action_type ← pick rng three_types
  amount ← small_amount rng scenario
  terms_url ← pick rng scenario.terms_urls_allowed
  tool_id ← pick rng scenario.tools_off_list
  untimed (ok (plain_choice action_type amount terms_url tool_id))
choose rng scenario post_state_mismatch = do
  action_type ← pick rng three_types
  amount ← small_amount rng scenario
  terms_url ← pick rng scenario.terms_urls_allowed
  tool_id ← pick rng scenario.tools_allowed
  post_state_hash ← deterministic_hex rng 32
  untimed (
      ok (record (plain_choice action_type amount terms_url tool_id) {
        post_state_hash = some post_state_hash;
      }))
choose rng scenario stress = do
  amount ← draw_range rng scenario.amounts.stress_min (scenario.amounts.stress_max +ℤ pos 1)
  tool_id ← pick rng scenario.tools_allowed
  untimed (ok (plain_choice "model_training" amount scenario.terms_url_off_list tool_id))
choose rng scenario allow = do
  action_type ← pick rng four_types
  amount ← small_amount rng scenario
  terms_url ← pick rng scenario.terms_urls_allowed
  without_tool ← draw_below rng "0.05"
  tool_id ← allow_tool rng scenario without_tool
  include_chain ← draw_below rng "0.18"
  untimed (
      ok (record {
        action_type = action_type;
        amount = amount;
        terms_url = terms_url;
        tool_id = tool_id;
        post_state_hash = none;
        include_commitments = not without_tool;
        include_chain = include_chain;
      }))
