-- ===== src/Crewai/Examples.antt =====
-- The wrapper's theorems at concrete calls.
use openterms.Prelude.{true, false, none, some}
use openterms.Python.{str, nil, Fields, end, field, ok}
use openterms.Samples.{toy, plain, reachable, acme, idle}
use openterms.Crewai.Wrapper.{OpenTermsToolConfig, Tool, Environment, State, wrapper}
use openterms.Crewai.Calls.{first_receipt, second_receipt, CallEnd, wrapper-CallEnd}

abbrev env : Environment
env = record { outside = reachable; py = plain; crypto = toy; index_text = λ n. "0" }

abbrev config : OpenTermsToolConfig
config = record {
  client = acme;
  agent_id = "crew";
  terms_url = "https://acme.com/terms";
  terms_hash = "h";
  emit_post_action = true;
  strict = false;
}

-- a search whose arguments bind to themselves
abbrev search_web : Tool
search_web = record {
  func = λ n args kwargs. ok (str "3 cats");
  bind_partial = λ args kwargs. some kwargs;
  name = some "search_web";
}

abbrev fresh : State
fresh = record { world = idle; called = 0 }

abbrev cats : Fields
cats = field "query" (str "cats") end

wrapper-CallEnd_example :
    CallEnd config
      (first_receipt env config search_web none nil cats fresh)
      0
      (ok (str "3 cats"))
      (second_receipt env config fresh)
      (wrapper env config search_web none nil cats fresh)
wrapper-CallEnd_example = wrapper-CallEnd env config search_web nil cats none fresh
