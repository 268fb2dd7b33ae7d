-- ===== src/Ingest/Emit/Prepared.antt =====
-- IngestClient.emit_receipt up to the POST.
use openterms.Prelude.{
  ℕ, ◌≡◌, ◌≢◌, eq_iff, ◌⊎◌, refl, sym, ◌∙◌, String, true, false, Option, none, some, ◌==◌,
  Bool-cases, inl, inr,
}
use openterms.Python.{str, dict, Fields, Builtins, Error, ok, fail, fail_ok, Result-cases}
use openterms.Receipts.Canonical.{Bytes, build_payload, validate}
use openterms.Receipts.Crypto.{Crypto}
use openterms.Receipts.Signing.{coerce_private_key, sign_receipt}
use openterms.Receipts.Signing.Accepted.{sign_receipt-returns}
use openterms.Ingest.Emit.Arguments.{
  Absent, Chosen, AgentOf, text-cases, Chosen-sent, agent_text-AgentOf,
}
use openterms.Ingest.Emit.Complete.{build_payload-full_receipt}
use openterms.Ingest.Service.{or_else, or_option, Outside, IngestClient, World}
use openterms.Ingest.Outcome.{Outcome, returned, raised, Call, ◌>>=◌, lift}
use openterms.Ingest.Emit.{
  Emission, agent_text, agent_of, text_or_call, full_receipt, signed_receipt,
}

-- Why `emit_receipt` raises before the POST: there is no agent, the key id is empty, or `_validate`
-- refuses the payload.
pub data Refusal (py : Builtins) (client : IngestClient) (e : Emission) : Type 0 where
  no_agent : or_else (or_option e.agent_id client.agent_id) "" ≡ "" → Refusal py client e
  no_key_id : client.key_id ≡ "" → Refusal py client e
  not_canonical :
      (agent ts id : String) (payload : Fields)
      → build_payload (full_receipt client e agent ts id) ≡ ok payload
      → validate py (dict payload) ≢ ok tt
      → Refusal py client e

-- The clock is read before uuid4, and each only when no text is given.
pub data Drawn (outside : Outside) (e : Emission) (w : World) (ts id : String) (w' : World)
    : Type 0 where
  drawn :
      {between : World}
      → Chosen outside.utcnow w e.timestamp ts between
      → Chosen outside.uuid4 between e.receipt_id id w'
      → Drawn outside e w ts id w'

-- How the part of `emit_receipt` before the POST ends.
pub data Prepared (outside : Outside) (py : Builtins) (crypto : Crypto) (client : IngestClient)
    (e : Emission) (w : World) : Outcome Fields × World → Type 0 where
  refused :
      (x : Error) (w' : World)
      → Refusal py client e
      → w'.sent ≡ w.sent
      → Prepared outside py crypto client e w (raised x, w')
  made :
      (agent ts id : String) (signed payload : Fields) (w' : World)
      → AgentOf e.agent_id client.agent_id agent
      → agent ≢ ""
      → Drawn outside e w ts id w'
      → w'.sent ≡ w.sent
      → build_payload (full_receipt client e agent ts id) ≡ ok payload
      → sign_receipt py crypto (dict payload) client.private_key (str client.key_id) ≡ ok signed
      → Prepared outside py crypto client e w (returned signed, w')

agent_text-fail :
    (agent : Option String) {x : Error} → agent_text agent ≡ fail x → or_else agent "" ≡ ""
unfolding agent_text or_else
agent_text-fail none failed = refl
agent_text-fail (some agent) failed = elim (Bool-cases (agent == "")) [
  | inl empty ↦ rw empty refl
  | inr full ↦ absurd (fail_ok (sym (rw (agent_text, full) at failed)))
]

module _ (outside : Outside) (py : Builtins) (crypto : Crypto) (client : IngestClient)
    (seed : Bytes) (e : Emission) (w : World)
    (coerced : coerce_private_key py client.private_key ≡ ok seed) where
  signing-Prepared :
      (agent ts id : String) (payload : Fields) (w' : World)
      → AgentOf e.agent_id client.agent_id agent
      → agent ≢ ""
      → Drawn outside e w ts id w'
      → w'.sent ≡ w.sent
      → build_payload (full_receipt client e agent ts id) ≡ ok payload
      → Prepared outside py crypto client e w
          (lift (sign_receipt py crypto (dict payload) client.private_key (str client.key_id)) w')
  signing-Prepared agent ts id payload w' chosen named at kept built =
      elim (Result-cases
        (sign_receipt py crypto (dict payload) client.private_key (str client.key_id))) [
          | inl (signed, signed_so) ↦
              rw signed_so
                (Prepared.made agent ts id signed payload w' chosen named at kept built signed_so)
          | inr (x, failed) ↦
              rw failed (Prepared.refused x w' (why failed (Bool-cases (client.key_id == ""))) kept)
        ]
    where
      why :
          {x : Error}
          → sign_receipt py crypto (dict payload) client.private_key (str client.key_id) ≡ fail x
          → ((client.key_id == "") ≡ true) ⊎ ((client.key_id == "") ≡ false)
          → Refusal py client e
      why failed (inl empty) = Refusal.no_key_id ((eq_iff client.key_id "").0 empty)
      why failed (inr named) = Refusal.not_canonical agent ts id payload built (λ valid.
          let (signed, signed_so) =
            sign_receipt-returns py crypto (full_receipt client e agent ts id) client.private_key
              client.key_id built coerced named valid in
          fail_ok (sym failed ∙ signed_so))

  building-Prepared :
      (agent ts id : String) (w' : World)
      → AgentOf e.agent_id client.agent_id agent
      → agent ≢ ""
      → Drawn outside e w ts id w'
      → w'.sent ≡ w.sent
      → Prepared outside py crypto client e w (
          (lift (build_payload (full_receipt client e agent ts id)) >>= (λ payload.
              lift (sign_receipt py crypto (dict payload) client.private_key (str client.key_id))))
            w')
  building-Prepared agent ts id w' chosen named at kept =
      let (payload, built) = build_payload-full_receipt client e agent ts id in
      rw built (signing-Prepared agent ts id payload w' chosen named at kept built)

  -- The clock or uuid4 always answers, and sends nothing.
  text-Prepared :
      (o : Option String) (source : ℕ → String) (rest : String → Call Fields) (w' : World)
      → ((s : String) (w'' : World)
          → Chosen source w' o s w''
          → Prepared outside py crypto client e w (rest s w''))
      → Prepared outside py crypto client e w ((text_or_call o source >>= rest) w')
  unfolding text_or_call
  text-Prepared none source rest w' then_so = then_so _ _ (Chosen.called Absent.not_given)
  text-Prepared (some s) source rest w' then_so = elim (text-cases s) [
    | inl (empty, absent) ↦ rw (text_or_call, empty) (then_so _ _ (Chosen.called absent))
    | inr (full, named) ↦ rw (text_or_call, full) (then_so s w' (Chosen.given refl named))
  ]

  pub signed_receipt-Prepared :
      Prepared outside py crypto client e w (signed_receipt outside py crypto client e w)
  unfolding signed_receipt agent_of
  signed_receipt-Prepared = elim (Result-cases (agent_of client e)) [
    | inr (raise, failed) ↦ rw failed (
        Prepared.refused raise w
          (Refusal.no_agent (agent_text-fail (or_option e.agent_id client.agent_id) failed)) refl)
    | inl (agent, chosen) ↦
        (let (from, named) = agent_text-AgentOf e.agent_id client.agent_id chosen in
          let build : String → String → Call Fields = λ ts id.
            lift (build_payload (full_receipt client e agent ts id)) >>= (λ payload.
              lift
                (sign_receipt py crypto (dict payload) client.private_key (str client.key_id))) in
          rw chosen (
            text-Prepared e.timestamp outside.utcnow
              (λ ts. text_or_call e.receipt_id outside.uuid4 >>= build ts) w
              (λ ts w1 first.
                text-Prepared e.receipt_id outside.uuid4 (build ts) w1 (λ id w2 second.
                  building-Prepared agent ts id w2 from named (Drawn.drawn first second)
                    (Chosen-sent second ∙ Chosen-sent first)))))
  ]
