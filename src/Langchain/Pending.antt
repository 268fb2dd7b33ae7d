-- ===== src/Langchain/Pending.antt =====
-- Which runs have a pending receipt.
use mathlib.Core.Path.{subst}
use openterms.Prelude.{
  ◌≡◌, ◌≢◌, refl, sym, ap, ◌∙◌, arith, String, Bool, true, false, Option, none, some, List, [], ◌∷◌,
  ◌==◌, eq_iff, Bool-cases, inl, inr, if◌then◌else◌, some-none,
}
use openterms.Python.{
  Value, Fields, end, Error, lookup, erase, lookup-insert_same, lookup-insert_other,
  lookup-erase_same, lookup-erase_other,
}
use openterms.Ingest.Service.{World}
use openterms.Ingest.Outcome.{Outcome, returned, raised, ingest_failed}
use openterms.Ingest.Transport.{IngestResponse}
use openterms.Ingest.Emit.{emit_post_action_receipt}
use openterms.Langchain.Handler.{
  PendingReceipt, Settings, Handler, Environment, set_tool_terms, on_tool_start, on_tool_end,
  on_tool_error, emit_receipt_for_tool, start_run, started, forget, finish_run, ended,
  run_id_or_new, output_hash, tool_emission,
}
use openterms.Langchain.Runs.{
  Event, tool_start, tool_end, tool_error, tool_terms, tool_receipt, handle, after, starts, closes,
  NewIds, IsOpen,
}
use openterms.Langchain.Ended.{EndsAs, AfterCall, ended-AfterCall}

-- A start touches the pending receipt of its own run only.
started-other :
    (strict : Bool) (run_id receipt_id : String) (h : Handler) (e : Outcome IngestResponse × World)
    (rid : String)
    → (run_id == rid) ≡ false
    → lookup (started strict run_id receipt_id h e).1.pending rid ≡ lookup h.pending rid
unfolding started
started-other strict run_id receipt_id h (returned resp, w) rid apart =
    lookup-insert_other run_id _ h.pending rid apart
started-other strict run_id receipt_id h (raised e, w) rid apart = refl
started-other strict run_id receipt_id h (ingest_failed e, w) rid apart =
    lookup-insert_other run_id _ h.pending rid apart

ended-pending :
    (strict : Bool) (h : Handler) (e : Outcome IngestResponse × World)
    → (ended strict h e).1.pending ≡ h.pending
unfolding ended
ended-pending strict h (returned resp, w) = refl
ended-pending strict h (raised e, w) = refl
ended-pending strict h (ingest_failed e, w) = refl

finish_run-pending :
    (env : Environment) (settings : Settings) (output : Value) (found : Option PendingReceipt)
    (h : Handler)
    → (finish_run env settings output found h).1.pending ≡ h.pending
unfolding finish_run
finish_run-pending env settings output none h = refl
finish_run-pending env settings output (some p) h = ended-pending settings.strict h _

on_tool_end-pending :
    (env : Environment) (settings : Settings) (output : Value) (run_id : String) (h : Handler)
    → (on_tool_end env settings output (some run_id) h).1.pending ≡ erase run_id h.pending
unfolding on_tool_end forget
on_tool_end-pending env settings output run_id h = elim (Bool-cases settings.emit_post_action) [
  | inl both ↦
      rw both (finish_run-pending env settings output (lookup h.pending run_id) (forget run_id h))
  | inr once ↦ rw once refl
]

-- A call that neither starts nor ends a run leaves its pending receipt.
pub handle-other :
    (env : Environment) (settings : Settings) (event : Event) (h : Handler) (rid : String)
    → NewIds env rid
    → starts rid event ≡ false
    → closes rid event ≡ false
    → lookup (handle env settings event h).pending rid ≡ lookup h.pending rid
unfolding handle starts closes on_tool_start on_tool_error on_tool_end start_run run_id_or_new
    set_tool_terms emit_receipt_for_tool forget
handle-other env settings (tool_start serialized input_str none inputs) h rid new not_started
      not_closed =
    started-other settings.strict _ _ h _ rid (new.differ h.world.moment)
handle-other env settings (tool_start serialized input_str (some run_id) inputs) h rid new
      not_started not_closed =
    started-other settings.strict run_id _ h _ rid not_started
handle-other env settings (tool_end output none) h rid new not_started not_closed = refl
handle-other env settings (tool_end output (some run_id)) h rid new not_started not_closed =
    ap (λ p. lookup p rid) (on_tool_end-pending env settings output run_id h)
    ∙ lookup-erase_other run_id h.pending rid not_closed
handle-other env settings (tool_error none) h rid new not_started not_closed = refl
handle-other env settings (tool_error (some run_id)) h rid new not_started not_closed =
    lookup-erase_other run_id h.pending rid not_closed
handle-other env settings (tool_terms tool_name terms) h rid new not_started not_closed = refl
handle-other env settings (tool_receipt tool_name inputs) h rid new not_started not_closed = refl

-- A call that ends a run takes its pending receipt away.
handle-closed :
    (env : Environment) (settings : Settings) (event : Event) (h : Handler) (rid : String)
    → closes rid event ≡ true
    → lookup (handle env settings event h).pending rid ≡ none
unfolding handle closes on_tool_error forget
handle-closed env settings (tool_end output (some run_id)) h rid closed =
    ap (λ p. lookup p rid) (on_tool_end-pending env settings output run_id h)
    ∙ (rw ((eq_iff run_id rid).0 closed) (lookup-erase_same rid h.pending))
handle-closed env settings (tool_error (some run_id)) h rid closed =
    rw ((eq_iff run_id rid).0 closed) (lookup-erase_same rid h.pending)
handle-closed env settings event h rid closed = ground arith

-- When uuid4 never gives the id of a run and the handler began without a pending receipt for it,
-- then after any history of calls, failures included, a pending receipt for the run means that
-- on_tool_start was called for it and that neither on_tool_end nor on_tool_error was called for it
-- since.
pub after-IsOpen :
    (env : Environment) (settings : Settings) (h : Handler) (history : List Event) (rid : String)
    (p : PendingReceipt)
    → NewIds env rid
    → lookup h.pending rid ≡ none
    → lookup (after env settings history h).pending rid ≡ some p
    → IsOpen rid history
unfolding after
after-IsOpen env settings h [] rid p new empty found = absurd (some-none (sym found ∙ empty))
after-IsOpen env settings h (event ∷ history) rid p new empty found =
    let h' : Handler = after env settings history h in
    elim (Bool-cases (closes rid event)) [
      | inl closed ↦ absurd (some-none (sym found ∙ handle-closed env settings event h' rid closed))
      | inr open_still ↦ (elim (Bool-cases (starts rid event)) [
        | inl now ↦ IsOpen.begun now
        | inr before ↦ IsOpen.goes_on open_still (
            after-IsOpen env settings h history rid p new empty
              (sym (handle-other env settings event h' rid new before open_still) ∙ found))
      ])
    ]

-- No call of the history starts or ends the run.
pub data Untouched (rid : String) : List Event → Type 0 where
  nothing : Untouched rid []
  other_call :
      {event : Event} {history : List Event}
      → starts rid event ≡ false
      → closes rid event ≡ false
      → Untouched rid history
      → Untouched rid (event ∷ history)

after-Untouched :
    (env : Environment) (settings : Settings) (h : Handler) (rid : String)
    → NewIds env rid
    → {history : List Event} → Untouched rid history
    → lookup (after env settings history h).pending rid ≡ lookup h.pending rid
unfolding after
after-Untouched env settings h rid new Untouched.nothing = refl
after-Untouched env settings h rid new
      (Untouched.other_call {event = event} {history = history} s c u) =
    handle-other env settings event (after env settings history h) rid new s c
    ∙ after-Untouched env settings h rid new u

started-pending :
    (strict : Bool) (run_id receipt_id : String) (h : Handler) (e : Outcome IngestResponse × World)
    → ((x : Error) → (started strict run_id receipt_id h e).0 ≢ raised x)
    → (hash : Value) × (lookup (started strict run_id receipt_id h e).1.pending run_id
        ≡ some (record { receipt_id = receipt_id; canonical_hash = hash }))
unfolding started
started-pending strict run_id receipt_id h (returned resp, w) alive =
    (_, lookup-insert_same run_id _ h.pending)
started-pending strict run_id receipt_id h (raised x, w) alive = absurd (alive x refl)
started-pending strict run_id receipt_id h (ingest_failed e, w) alive =
    (_, lookup-insert_same run_id _ h.pending)

on_tool_end-found :
    (env : Environment) (settings : Settings) (output : Value) (rid : String) (h : Handler)
    (p : PendingReceipt)
    → settings.emit_post_action ≡ true
    → lookup h.pending rid ≡ some p
    → on_tool_end env settings output (some rid) h
      ≡ ended settings.strict (forget rid h) (
          emit_post_action_receipt env.outside env.py env.crypto settings.client p.receipt_id
            (output_hash env output)
            (tool_emission settings settings.terms end none)
            h.world)
unfolding on_tool_end finish_run forget
on_tool_end-found env settings output rid h p both found =
    ap
      (λ b.
        if b
        then finish_run env settings output (lookup h.pending rid) (forget rid h)
        else (returned tt, forget rid h))
      both
    ∙ ap (λ o. finish_run env settings output o (forget rid h)) found

on_tool_end-AfterCall :
    (env : Environment) (settings : Settings) (output : Value) (rid : String) (h : Handler)
    (p : PendingReceipt)
    → settings.emit_post_action ≡ true
    → lookup h.pending rid ≡ some p
    → AfterCall settings.strict
        (forget rid h)
        (emit_post_action_receipt env.outside env.py env.crypto settings.client p.receipt_id
          (output_hash env output)
          (tool_emission settings settings.terms end none)
          h.world)
        (on_tool_end env settings output (some rid) h)
on_tool_end-AfterCall env settings output rid h p both found =
    subst (AfterCall settings.strict (forget rid h) _)
      (sym (on_tool_end-found env settings output rid h p both found))
      (ended-AfterCall settings.strict (forget rid h) _)

-- When emit_post_action is set, uuid4 never gives the id of the run, on_tool_start for the run did
-- not raise another exception than IngestError, and only calls that neither start nor end the run
-- came in between, on_tool_end makes the call of emit_post_action_receipt with the receipt id of
-- on_tool_start and the hash of the output, takes the pending receipt of the run away and leaves
-- the world as this call does. It returns when this call returns and raises what it raises, but
-- for an IngestError without strict, after which it returns.
pub on_tool_end-after-start :
    (env : Environment) (settings : Settings) (serialized : Value) (input_str rid : String)
    (inputs : Option Fields) (output : Value) (h : Handler) (history : List Event)
    → NewIds env rid
    → settings.emit_post_action ≡ true
    → ((x : Error)
        → (on_tool_start env settings serialized input_str (some rid) inputs h).0 ≢ raised x)
    → Untouched rid history
    → let h' : Handler =
        after env settings history
          (on_tool_start env settings serialized input_str (some rid) inputs h).1 in
      let called : Outcome IngestResponse × World =
        emit_post_action_receipt env.outside env.py env.crypto settings.client
          (env.outside.uuid4 h.world.moment)
          (output_hash env output)
          (tool_emission settings settings.terms end none)
          h'.world in
      let finished : Outcome Unit × Handler = on_tool_end env settings output (some rid) h' in
      (finished.1 ≡ record (forget rid h') { world = called.1 })
      × EndsAs settings.strict called.0 finished.0
unfolding on_tool_start start_run run_id_or_new AfterCall
on_tool_end-after-start env settings serialized input_str rid inputs output h history new both alive
      untouched =
    let (hash, stored) =
      started-pending settings.strict rid (env.outside.uuid4 h.world.moment) h _ alive in
    on_tool_end-AfterCall env settings output rid _ _ both
      (after-Untouched env settings _ rid new untouched ∙ stored)
