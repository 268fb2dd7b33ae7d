-- ===== src/Ingest/Emit/Payload.antt =====
-- What the arguments of IngestClient.emit_receipt put into the payload of its receipt.
use openterms.Prelude.{
  ◌≡◌, ◌⊎◌, refl, ap, ◌∙◌, String, Bool, true, false, Option, none, some, ◌==◌, Bool-cases, inl,
  inr, some-none, if◌then◌else◌,
}
use openterms.Python.{
  int, str, dict, Fields, end, field, other, ok, get, put, is_null, text_mem, get-put_same,
  get-put_other,
}
use openterms.Receipts.Canonical.{
  build_payload, payload_keys_required, payload_keys_signed_envelope,
}
use openterms.Receipts.Canonical.Payload.{present}
use openterms.Receipts.Signing.Payloads.{
  build_payload-required, build_payload-envelope, build_payload-optional,
}
use openterms.Ingest.Service.{IngestClient, or_else}
use openterms.Ingest.Emit.{Emission, merge, merge_extra, put_context, base_receipt, full_receipt}
use openterms.Ingest.Emit.Arguments.{OrDefault, or_else-OrDefault}

-- Fields that are not there change nothing.
pub get-merge :
    (k : String) (extra receipt : Fields)
    → get extra k ≡ none
    → get (merge extra receipt) k ≡ get receipt k
unfolding merge get
get-merge k end receipt absent = refl
get-merge k (other j v extra) receipt absent = get-merge k extra receipt absent
get-merge k (field j v extra) receipt absent = elim (Bool-cases (j == k)) [
  | inl same ↦ absurd (some-none (rw (get, same) at absent))
  | inr differ ↦ get-merge k extra _ (rw (get, differ) at absent) ∙ untouched (is_null v) differ
]
  where
    untouched :
        (b : Bool)
        → (j == k) ≡ false
        → get (if b then receipt else put j v receipt) k ≡ get receipt k
    untouched true differ = refl
    untouched false differ = get-put_other j v receipt k differ

-- The extra fields do not name a key.
pub data NotExtra (k : String) : Option Fields → Type 0 where
  no_extra : NotExtra k none
  not_named : {extra : Fields} → get extra k ≡ none → NotExtra k (some extra)

-- A payload with the value of each argument that the extra fields do not name.
pub record FromArguments (client : IngestClient) (e : Emission) (agent ts id : String)
    (payload : Fields) : Type 0 where
  pub workspace_id :
      NotExtra "workspace_id" e.extra → get payload "workspace_id" ≡ some (str client.workspace_id)
  pub agent_id : NotExtra "agent_id" e.extra → get payload "agent_id" ≡ some (str agent)
  pub action_type :
      NotExtra "action_type" e.extra → get payload "action_type" ≡ some (str e.action_type)
  pub terms_url : NotExtra "terms_url" e.extra → get payload "terms_url" ≡ some (str e.terms_url)
  pub terms_hash :
      NotExtra "terms_hash" e.extra → get payload "terms_hash" ≡ some (str e.terms_hash)
  pub timestamp : NotExtra "timestamp" e.extra → get payload "timestamp" ≡ some (str ts)
  pub pricing_version :
      NotExtra "pricing_version" e.extra
      → get payload "pricing_version" ≡ some (str e.pricing_version)
  pub receipt_id : NotExtra "receipt_id" e.extra → get payload "receipt_id" ≡ some (str id)
  pub amount_charged :
      NotExtra "amount_charged" e.extra → get payload "amount_charged" ≡ some (int e.amount_charged)
  pub created_at :
      NotExtra "created_at" e.extra
      → (created : String) × OrDefault ts e.created_at created
        × (get payload "created_at" ≡ some (str created))
  pub action_context :
      NotExtra "action_context" e.extra
      → (e.action_context ≡ none) × (get payload "action_context" ≡ none)
        ⊎ (context : Fields) × (e.action_context ≡ some context)
          × (get payload "action_context" ≡ some (dict context))

module _ (client : IngestClient) (e : Emission) (agent ts id : String) where
  get-merge_extra :
      (k : String) (o : Option Fields) (d : Fields)
      → NotExtra k o
      → get (merge_extra o d) k ≡ get d k
  unfolding merge_extra
  get-merge_extra k none d NotExtra.no_extra = refl
  get-merge_extra k (some extra) d (NotExtra.not_named absent) = get-merge k extra d absent

  get-full_receipt :
      (k : String)
      → ("action_context" == k) ≡ false
      → NotExtra k e.extra
      → get (full_receipt client e agent ts id) k ≡ get (base_receipt client e agent ts id) k
  unfolding full_receipt put_context
  get-full_receipt k apart unnamed =
      get-merge_extra k e.extra (put_context e.action_context base) unnamed
      ∙ contexted e.action_context
    where
      base : Fields
      base = base_receipt client e agent ts id

      contexted : (o : Option Fields) → get (put_context o base) k ≡ get base k
      contexted none = refl
      contexted (some context) = get-put_other "action_context" (dict context) base k apart

  full_receipt-context :
      NotExtra "action_context" e.extra
      → (e.action_context ≡ none)
          × (get (full_receipt client e agent ts id) "action_context" ≡ none)
        ⊎ (context : Fields) × (e.action_context ≡ some context)
          × (get (full_receipt client e agent ts id) "action_context" ≡ some (dict context))
  unfolding full_receipt put_context base_receipt get
  full_receipt-context unnamed = go e.action_context refl
    where
      base : Fields
      base = base_receipt client e agent ts id

      merged :
          get (full_receipt client e agent ts id) "action_context"
          ≡ get (put_context e.action_context base) "action_context"
      merged = get-merge_extra "action_context" e.extra (put_context e.action_context base) unnamed

      go :
          (o : Option Fields)
          → e.action_context ≡ o
          → (e.action_context ≡ none)
              × (get (full_receipt client e agent ts id) "action_context" ≡ none)
            ⊎ (context : Fields) × (e.action_context ≡ some context)
              × (get (full_receipt client e agent ts id) "action_context" ≡ some (dict context))
      go none same = inl (same, merged ∙ ap (λ o. get (put_context o base) "action_context") same)
      go (some context) same = inr (
        context,
        same,
        merged
            ∙ (ap (λ o. get (put_context o base) "action_context") same
                ∙ get-put_same "action_context" (dict context) base),
      )

  module _ {payload : Fields}
      (built : build_payload (full_receipt client e agent ts id) ≡ ok payload) where
    required :
        (k : String)
        → text_mem k payload_keys_required ≡ true
        → ("action_context" == k) ≡ false
        → NotExtra k e.extra
        → get payload k ≡ get (base_receipt client e agent ts id) k
    required k inside apart unnamed =
        build_payload-required _ built k inside ∙ get-full_receipt k apart unnamed

    signed_envelope :
        (k : String)
        → text_mem k payload_keys_signed_envelope ≡ true
        → ("action_context" == k) ≡ false
        → NotExtra k e.extra
        → get payload k ≡ get (base_receipt client e agent ts id) k
    signed_envelope k inside apart unnamed =
        build_payload-envelope _ built k inside ∙ get-full_receipt k apart unnamed

    pub full_receipt-FromArguments : FromArguments client e agent ts id payload
    unfolding base_receipt get text_mem present
    full_receipt-FromArguments = record {
      workspace_id = required "workspace_id" refl refl;
      agent_id = required "agent_id" refl refl;
      action_type = required "action_type" refl refl;
      terms_url = required "terms_url" refl refl;
      terms_hash = required "terms_hash" refl refl;
      timestamp = required "timestamp" refl refl;
      pricing_version = required "pricing_version" refl refl;
      receipt_id = signed_envelope "receipt_id" refl refl;
      amount_charged = signed_envelope "amount_charged" refl refl;
      created_at = λ unnamed. (
        or_else e.created_at ts,
        or_else-OrDefault e.created_at ts,
        signed_envelope "created_at" refl refl unnamed,
      );
      action_context = λ unnamed.
          let same = build_payload-optional _ built "action_context" refl in
          elim (full_receipt-context unnamed) [
            | inl (none_given, absent) ↦ inl (none_given, same ∙ ap present absent)
            | inr (context, here, there) ↦ inr (context, here, same ∙ ap present there)
          ];
    }
