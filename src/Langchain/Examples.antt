-- ===== src/Langchain/Examples.antt =====
-- The handler's theorems at concrete runs.
use openterms.Prelude.{◌≡◌, ◌≢◌, refl, sym, ◌∙◌, true, false, none, some, [], ◌∷◌}
use openterms.Python.{Value, null, str, dict, end, field, Error, ok, fail_ok, lookup}
use openterms.Receipts.Canonical.{validate}
use openterms.Samples.{
  copies, toy, plain, toy-CryptoLaws, plain-TextsEqual, key_one, reachable, acme, idle, half,
}
use openterms.Ingest.Outcome.{Outcome, IngestError, returned, raised, ingest_failed}
use openterms.Ingest.Service.{World}
use openterms.Ingest.Transport.{IngestResponse}
use openterms.Ingest.Emit.{emit_receipt, emit_post_action_receipt}
use openterms.Langchain.Handler.{
  PendingReceipt, Settings, Handler, Environment, on_tool_start, on_tool_end, forget, output_hash,
  tool_emission, extract_tool_name, args_of,
}
use openterms.Langchain.Runs.{Event, tool_start, tool_error, after, starts, closes, NewIds, IsOpen}
use openterms.Langchain.Ended.{EndsAs}
use openterms.Langchain.Pending.{Untouched, after-IsOpen, on_tool_end-after-start}
use openterms.Langchain.Failures.{callbacks_lenient, on_tool_start-unsignable}

abbrev env : Environment
env = record { outside = reachable; py = plain; crypto = toy }

abbrev settings : Settings
settings = record {
  client = acme;
  agent_id = "bot";
  terms = record { terms_url = "https://acme.com/terms"; terms_hash = "h" };
  emit_post_action = true;
  strict = false;
}

abbrev new : Handler
new = record { per_tool_terms = []; pending = []; world = idle }

new_ids : NewIds env "run-1"
new_ids = record { differ = λ moment. refl }

abbrev search_tool : Value
search_tool = dict (field "name" (str "search") end)

abbrev start_one : Event
start_one = tool_start search_tool "cats" (some "run-1") none

abbrev other_error : Event
other_error = tool_error (some "run-2")

abbrev broken : IngestError
broken = record {
  message = "ingest failed with HTTP 500";
  status = some 500;
  body = none;
  code = null;
}

callbacks_lenient_example :
    ((on_tool_start env settings search_tool "cats" (some "run-1") none new).0
      ≢ ingest_failed broken)
    × ((on_tool_end env settings (str "3 cats") (some "run-1") new).0 ≢ ingest_failed broken)
callbacks_lenient_example =
    callbacks_lenient env settings search_tool (str "3 cats") "cats" (some "run-1") none new refl
      broken

abbrev kept_receipt : PendingReceipt
kept_receipt = record {
  receipt_id = "00000000-0000-4000-8000-000000000000";
  canonical_hash = str "h";
}

start_one_returns :
    (on_tool_start env settings search_tool "cats" (some "run-1") none new).0 ≡ returned tt
unfolding on_tool_start emit_receipt validate
start_one_returns = refl

start_one_kept :
    lookup (after env settings (other_error ∷ start_one ∷ []) new).pending "run-1"
    ≡ some kept_receipt
unfolding after on_tool_start emit_receipt validate
start_one_kept = refl

after-IsOpen_example : IsOpen "run-1" (other_error ∷ start_one ∷ [])
unfolding lookup
after-IsOpen_example =
    after-IsOpen env settings new (other_error ∷ start_one ∷ []) "run-1" kept_receipt new_ids refl
      start_one_kept

returned-raised : {x : Error} → returned tt ≢ raised x
returned-raised same = cc

other_Untouched : Untouched "run-1" (other_error ∷ [])
unfolding starts closes
other_Untouched = Untouched.other_call refl refl Untouched.nothing

on_tool_end-after-start_example :
    let h' : Handler =
      after env settings
        (other_error ∷ [])
        (on_tool_start env settings search_tool "cats" (some "run-1") none new).1 in
    let called : Outcome IngestResponse × World =
      emit_post_action_receipt env.outside env.py env.crypto settings.client
        (env.outside.uuid4 0)
        (output_hash env (str "3 cats"))
        (tool_emission settings settings.terms end none)
        h'.world in
    let finished : Outcome Unit × Handler =
      on_tool_end env settings (str "3 cats") (some "run-1") h' in
    (finished.1 ≡ record (forget "run-1" h') { world = called.1 })
    × EndsAs settings.strict called.0 finished.0
on_tool_end-after-start_example =
    on_tool_end-after-start env settings search_tool "cats" "run-1" none (str "3 cats") new
      (other_error ∷ []) new_ids refl (λ x failed. returned-raised (sym start_one_returns ∙ failed))
      other_Untouched

half_args_refused :
    validate plain (
      dict (
        field "tool_id"
          (str (extract_tool_name plain search_tool))
          (field "args" (args_of (some half) "cats") end)))
    ≢ ok tt
unfolding validate extract_tool_name args_of
half_args_refused passed = fail_ok passed

on_tool_start-unsignable_example :
    (x : Error) × (h' : Handler) × (on_tool_start env settings search_tool "cats"
        (some "run-1")
        (some half)
        new
      ≡ (raised x, h'))
    × (h'.pending ≡ [])
    × (h'.world.sent ≡ [])
on_tool_start-unsignable_example =
    on_tool_start-unsignable env settings (copies 32 1) search_tool "cats" "run-1" (some half) new
      plain-TextsEqual toy-CryptoLaws key_one half_args_refused
