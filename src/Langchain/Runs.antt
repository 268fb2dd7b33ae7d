-- ===== src/Langchain/Runs.antt =====
-- The callbacks of a handler in sequence.
use openterms.Prelude.{ℕ, ◌≡◌, String, Bool, true, false, Option, some, List, [], ◌∷◌, ◌==◌}
use openterms.Python.{Value, Fields}
use openterms.Langchain.Handler.{
  Terms, Settings, Handler, Environment, set_tool_terms, on_tool_start, on_tool_end, on_tool_error,
  emit_receipt_for_tool,
}

-- a call of one of the handler's methods
pub data Event : Type 0 where
  tool_start : Value → String → Option String → Option Fields → Event
  tool_end : Value → Option String → Event
  tool_error : Option String → Event
  tool_terms : String → Terms → Event
  tool_receipt : String → Fields → Event

-- the handler behind a call, however it ended
unfoldable pub handle : Environment → Settings → Event → Handler → Handler
unfolding on_tool_start on_tool_end on_tool_error set_tool_terms emit_receipt_for_tool
handle env settings (tool_start serialized input_str run_id inputs) h =
    (on_tool_start env settings serialized input_str run_id inputs h).1
handle env settings (tool_end output run_id) h = (on_tool_end env settings output run_id h).1
handle env settings (tool_error run_id) h = (on_tool_error run_id h).1
handle env settings (tool_terms tool_name terms) h = set_tool_terms tool_name terms h
handle env settings (tool_receipt tool_name inputs) h =
    (emit_receipt_for_tool env settings tool_name inputs h).1

-- the handler behind a history, whose last call comes first
unfoldable pub after : Environment → Settings → List Event → Handler → Handler
unfolding handle
after env settings [] h = h
after env settings (event ∷ history) h = handle env settings event (after env settings history h)

-- the call starts this run
unfoldable pub starts : String → Event → Bool
starts rid (tool_start _ _ (some run_id) _) = run_id == rid
starts rid _ = false

-- the call ends this run
unfoldable pub closes : String → Event → Bool
closes rid (tool_end _ (some run_id)) = run_id == rid
closes rid (tool_error (some run_id)) = run_id == rid
closes rid _ = false

-- uuid4 makes no id that the run has
pub record NewIds (env : Environment) (rid : String) : Type 0 where
  pub differ : (moment : ℕ) → (env.outside.uuid4 moment == rid) ≡ false

-- The run was started in the history, and has not ended since.
pub data IsOpen (rid : String) : List Event → Type 0 where
  begun :
      {event : Event} {history : List Event}
      → starts rid event ≡ true
      → IsOpen rid (event ∷ history)
  goes_on :
      {event : Event} {history : List Event}
      → closes rid event ≡ false
      → IsOpen rid history
      → IsOpen rid (event ∷ history)
