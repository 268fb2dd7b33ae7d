-- ===== src/Langchain/Failures.antt =====
-- Which failures get out of the callbacks.
use openterms.Prelude.{
  suc, ◌≡◌, ◌≢◌, refl, ap, arith, String, Bool, true, false, Option, none, some, if◌then◌else◌,
}
use openterms.Python.{Value, str, dict, Fields, end, field, Error, ok, lookup}
use openterms.Receipts.Canonical.{Bytes, validate}
use openterms.Receipts.Crypto.{CryptoLaws}
use openterms.Receipts.Signing.{coerce_private_key}
use openterms.Receipts.RoundTrip.{TextsEqual}
use openterms.Ingest.Service.{World}
use openterms.Ingest.Outcome.{IngestError, Outcome, returned, raised, ingest_failed}
use openterms.Ingest.Transport.{IngestResponse}
use openterms.Ingest.Emit.Refused.{emit_receipt-refused}
use openterms.Langchain.Handler.{
  PendingReceipt, Settings, Handler, Environment, Terms, terms_for, tool_emission, args_of,
  extract_tool_name, run_id_or_new, start_run, started, on_tool_start, finish_run, ended,
  on_tool_end, forget,
}

started-lenient :
    (strict : Bool) (run_id receipt_id : String) (h : Handler) (e : Outcome IngestResponse × World)
    → strict ≡ false
    → (x : IngestError) → (started strict run_id receipt_id h e).0 ≢ ingest_failed x
unfolding started
started-lenient strict run_id receipt_id h (returned resp, w) lenient x same = cc
started-lenient strict run_id receipt_id h (raised e, w) lenient x same = cc
started-lenient strict run_id receipt_id h (ingest_failed e, w) lenient x same = ground arith

ended-lenient :
    (strict : Bool) (h : Handler) (e : Outcome IngestResponse × World)
    → strict ≡ false
    → (x : IngestError) → (ended strict h e).0 ≢ ingest_failed x
unfolding ended
ended-lenient strict h (returned resp, w) lenient x same = cc
ended-lenient strict h (raised e, w) lenient x same = cc
ended-lenient strict h (ingest_failed e, w) lenient x same = ground arith

finish_run-lenient :
    (env : Environment) (settings : Settings) (output : Value) (found : Option PendingReceipt)
    (h : Handler)
    → settings.strict ≡ false
    → (x : IngestError) → (finish_run env settings output found h).0 ≢ ingest_failed x
unfolding finish_run
finish_run-lenient env settings output none h lenient x same = cc
finish_run-lenient env settings output (some p) h lenient x same =
    ended-lenient settings.strict h _ lenient x same

on_tool_end-lenient :
    (env : Environment) (settings : Settings) (output : Value) (run_id : Option String)
    (h : Handler)
    → settings.strict ≡ false
    → (x : IngestError) → (on_tool_end env settings output run_id h).0 ≢ ingest_failed x
unfolding on_tool_end
on_tool_end-lenient env settings output none h lenient x same = cc
on_tool_end-lenient env settings output (some run_id) h lenient x same =
    branch settings.emit_post_action same
  where
    branch :
        (b : Bool)
        → (if b
            then finish_run env settings output (lookup h.pending run_id) (forget run_id h)
            else (returned tt, forget run_id h)).0
          ≢ ingest_failed x
    branch true =
        finish_run-lenient env settings output (lookup h.pending run_id) (forget run_id h) lenient x
    branch false = λ same. cc

-- Without strict, neither on_tool_start nor on_tool_end ends in an IngestError, whatever the
-- service replies.
pub callbacks_lenient :
    (env : Environment) (settings : Settings) (serialized output : Value) (input_str : String)
    (run_id : Option String) (inputs : Option Fields) (h : Handler)
    → settings.strict ≡ false
    → (x : IngestError)
    → ((on_tool_start env settings serialized input_str run_id inputs h).0 ≢ ingest_failed x)
      × ((on_tool_end env settings output run_id h).0 ≢ ingest_failed x)
unfolding on_tool_start start_run
callbacks_lenient env settings serialized output input_str run_id inputs h lenient x = (
  started-lenient settings.strict _ _ h _ lenient x,
  on_tool_end-lenient env settings output run_id h lenient x,
)

-- Under the laws of Ed25519 and when equal texts compare equal, strict or not, when the key
-- coerces and the arguments of a tool hold what _validate refuses, on_tool_start for a run raises
-- an exception that is no IngestError, sends nothing and leaves the pending receipts as they were.
pub on_tool_start-unsignable :
    (env : Environment) (settings : Settings) (seed : Bytes) (serialized : Value)
    (input_str rid : String) (inputs : Option Fields) (h : Handler)
    → TextsEqual env.py
    → CryptoLaws env.crypto
    → coerce_private_key env.py settings.client.private_key ≡ ok seed
    → validate env.py (
        dict (
          field "tool_id"
            (str (extract_tool_name env.py serialized))
            (field "args" (args_of inputs input_str) end)))
      ≢ ok tt
    → (x : Error) × (h' : Handler) × (on_tool_start env settings serialized input_str
          (some rid)
          inputs
          h
        ≡ (raised x, h'))
      × (h'.pending ≡ h.pending)
      × (h'.world.sent ≡ h.world.sent)
unfolding on_tool_start start_run run_id_or_new started tool_emission
on_tool_start-unsignable env settings seed serialized input_str rid inputs h equal laws coerced
      bad =
    let w : World = record h.world { moment = suc h.world.moment } in
    let terms : Terms = terms_for settings h (extract_tool_name env.py serialized) in
    let context : Fields =
      field "tool_id" (str (extract_tool_name env.py serialized))
        (field "args" (args_of inputs input_str) end) in
    let (x, w', failed, kept) =
      emit_receipt-refused env.outside env.py env.crypto settings.client seed
        (tool_emission settings terms context (some (env.outside.uuid4 h.world.moment))) w context
        equal laws coerced refl refl bad in
    (
      x,
      record h { world = w' },
      ap (started settings.strict rid (env.outside.uuid4 h.world.moment) h) failed,
      refl,
      kept,
    )
