-- ===== src/Langchain/Ended.antt =====
-- How on_tool_end ends by the end of its call.
use openterms.Prelude.{◌≡◌, refl, Bool, true, false, Bool-cases, inl, inr}
use openterms.Python.{Error}
use openterms.Ingest.Service.{World}
use openterms.Ingest.Outcome.{IngestError, Outcome, returned, raised, ingest_failed}
use openterms.Ingest.Transport.{IngestResponse}
use openterms.Langchain.Handler.{Handler, ended}

-- How on_tool_end ends by the end of emit_post_action_receipt.
pub data EndsAs (strict : Bool) : Outcome IngestResponse → Outcome Unit → Type 0 where
  as_returned : (resp : IngestResponse) → EndsAs strict (returned resp) (returned tt)
  as_raised : (x : Error) → EndsAs strict (raised x) (raised x)
  let_out : (x : IngestError) → strict ≡ true → EndsAs strict (ingest_failed x) (ingest_failed x)
  passed_over : (x : IngestError) → strict ≡ false → EndsAs strict (ingest_failed x) (returned tt)

-- The end of the call, and the handler with the world behind the call.
unfoldable pub AfterCall :
    Bool → Handler → Outcome IngestResponse × World → Outcome Unit × Handler → Type 0
AfterCall strict h called (end_of, h') =
    (h' ≡ record h { world = called.1 }) × EndsAs strict called.0 end_of

pub ended-AfterCall :
    (strict : Bool) (h : Handler) (called : Outcome IngestResponse × World)
    → AfterCall strict h called (ended strict h called)
unfolding ended AfterCall
ended-AfterCall strict h (returned resp, w) = (refl, EndsAs.as_returned resp)
ended-AfterCall strict h (raised x, w) = (refl, EndsAs.as_raised x)
ended-AfterCall strict h (ingest_failed x, w) = elim (Bool-cases strict) [
  | inl out ↦ (refl, rw out (EndsAs.let_out x refl))
  | inr over ↦ (refl, rw over (EndsAs.passed_over x refl))
]
