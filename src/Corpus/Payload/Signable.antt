-- ===== src/Corpus/Payload/Signable.antt =====
-- The payloads that `build_receipt_payload` of packages/openterms-py/scripts/generate_corpus.py builds, under the
-- checks of `sign_receipt` of packages/openterms-py/openterms/receipts/signing.py.
use mathlib.Core.Path.{subst}
use openterms.Prelude.{
  ◌≡◌, refl, ap, ◌∙◌, ◌⊎◌, inl, inr, ℕ, suc, String, Bool, true, false, leb, Option, none, some,
  ◌==◌, Bool-cases,
}
use openterms.Prelude.Int.{ℤ, pos, nat_abs}
use openterms.Python.{
  Value, str, int, dict, nil, Fields, end, field, other, Builtins, ok, ok-injective, get, put,
  codes, text_mem, get-put_other,
}
use openterms.Policy.Clock.{untimed}
use openterms.Policy.Clock.Returns.{timed-returned}
use openterms.Receipts.Canonical.{Bytes, validate, is_non_bmp, max_safe_integer}
use openterms.Receipts.Crypto.{Crypto}
use openterms.Receipts.Signing.{
  unknown_keys, signed_keys, key_object, coerce_private_key, sign_receipt,
}
use openterms.Receipts.Signing.Accepted.{put-known, sign_receipt-known}
use openterms.Corpus.Scenario.{Bucket, Scenario, Random, pick, deterministic_hex, draw_bytes}
use openterms.Corpus.Buckets.{Choice, choose}
use openterms.Corpus.Times.{Datetimes, shift, to_iso_z}
use openterms.Corpus.Payload.{
  ChainState, draw_commitments, draw_chain, ors_of, with_context, with_provider,
  with_request_binding, with_version, base_payload, build_receipt_payload,
}
use openterms.Corpus.Payload.Commitments.{
  Accepted, ChainAccepted, int-Accepted, end-Accepted, str-Accepted, dict-Accepted, field-Accepted,
  put-Accepted, draw_commitments-Accepted, draw_chain-Accepted,
}

module _ (py : Builtins) where
  -- A payload with an amount, whose keys may be signed, and which `_validate` accepts if it accepts the amount.
  pub record Signable (amount : ℤ) (d : Fields) : Type 0 where
    pub amount_entry : get d "amount_charged" ≡ some (int amount)
    pub known : unknown_keys d ≡ nil
    pub accepted : leb (nat_abs amount) max_safe_integer ≡ true → Accepted py d

  put-Signable :
      (k : String) (v : Value) (amount : ℤ) (d : Fields)
      → (k == "amount_charged") ≡ false
      → text_mem k signed_keys ≡ true
      → is_non_bmp k ≡ false
      → validate py v ≡ ok tt
      → Signable amount d
      → Signable amount (put k v d)
  put-Signable k v amount d apart member bmp valid s = record {
    amount_entry = get-put_other k v d "amount_charged" apart ∙ s.amount_entry;
    known = put-known k v d member s.known;
    accepted = λ small. put-Accepted py k v d bmp valid (s.accepted small);
  }

  base_payload-Signable :
      (scenario : Scenario) (choice : Choice)
      (agent_id receipt_id terms_hash timestamp created_at : String)
      → Signable choice.amount
          (base_payload scenario choice agent_id receipt_id terms_hash timestamp created_at)
  unfolding base_payload get unknown_keys text_mem is_non_bmp codes
  base_payload-Signable scenario choice agent_id receipt_id terms_hash timestamp created_at =
      record {
        amount_entry = refl;
        known = refl;
        accepted = λ small. field-Accepted py "workspace_id" _ _ refl (str-Accepted py _) (
            field-Accepted py "agent_id" _ _ refl (str-Accepted py _) (
              field-Accepted py "action_type" _ _ refl (str-Accepted py _) (
                field-Accepted py "terms_url" _ _ refl (str-Accepted py _) (
                  field-Accepted py "terms_hash" _ _ refl (str-Accepted py _) (
                    field-Accepted py "timestamp" _ _ refl (str-Accepted py _) (
                      field-Accepted py "pricing_version" _ _ refl (str-Accepted py _) (
                        field-Accepted py "receipt_id" _ _ refl (str-Accepted py _) (
                          field-Accepted py "amount_charged" _ _ refl
                            (int-Accepted py choice.amount small)
                            (field-Accepted py "created_at" _ _ refl (str-Accepted py _) (
                              field-Accepted py "issuer" _ _ refl (str-Accepted py _)
                                (end-Accepted py)))))))))));
      }

  ors_of-Accepted :
      (commitments : Fields) (chain : Option Fields)
      → Accepted py commitments
      → ChainAccepted py chain
      → Accepted py (ors_of commitments chain)
  unfolding ors_of is_non_bmp codes ChainAccepted
  ors_of-Accepted end none c h = end-Accepted py
  ors_of-Accepted end (some chain) c h =
      field-Accepted py "chain" (dict chain) _ refl (dict-Accepted py _ h) (end-Accepted py)
  ors_of-Accepted (field k v d) none c h =
      field-Accepted py "commitments" (dict (field k v d)) _ refl (dict-Accepted py _ c)
        (end-Accepted py)
  ors_of-Accepted (other k v d) none c h =
      field-Accepted py "commitments" (dict (other k v d)) _ refl (dict-Accepted py _ c)
        (end-Accepted py)
  ors_of-Accepted (field k v d) (some chain) c h =
      field-Accepted py "commitments" (dict (field k v d)) _ refl (dict-Accepted py _ c)
        (field-Accepted py "chain" (dict chain) _ refl (dict-Accepted py _ h) (end-Accepted py))
  ors_of-Accepted (other k v d) (some chain) c h =
      field-Accepted py "commitments" (dict (other k v d)) _ refl (dict-Accepted py _ c)
        (field-Accepted py "chain" (dict chain) _ refl (dict-Accepted py _ h) (end-Accepted py))

  with_context-Signable :
      (ors : Fields) (amount : ℤ) (d : Fields)
      → Accepted py ors
      → Signable amount d
      → Signable amount (with_context ors d)
  unfolding with_context is_non_bmp codes text_mem
  with_context-Signable end amount d accepted s = s
  with_context-Signable (field k v e) amount d accepted s =
      put-Signable "action_context" _ amount d refl refl refl
        (dict-Accepted py _ (
          field-Accepted py "ors" (dict (field k v e)) _ refl (dict-Accepted py _ accepted)
            (end-Accepted py)))
        s
  with_context-Signable (other k v e) amount d accepted s =
      put-Signable "action_context" _ amount d refl refl refl
        (dict-Accepted py _ (
          field-Accepted py "ors" (dict (other k v e)) _ refl (dict-Accepted py _ accepted)
            (end-Accepted py)))
        s

  with_provider-Signable :
      (include : Bool) (amount : ℤ) (d : Fields)
      → Signable amount d
      → Signable amount (with_provider include d)
  unfolding with_provider is_non_bmp codes text_mem
  with_provider-Signable false amount d s = s
  with_provider-Signable true amount d s =
      put-Signable "provider" _ amount d refl refl refl
        (dict-Accepted py _ (
          field-Accepted py "origin" _ _ refl (str-Accepted py _)
            (field-Accepted py "provider_id" _ _ refl (str-Accepted py _) (end-Accepted py))))
        s

  with_version-Signable :
      (include : Bool) (amount : ℤ) (d : Fields)
      → Signable amount d
      → Signable amount (with_version include d)
  unfolding with_version is_non_bmp codes text_mem
  with_version-Signable false amount d s = s
  with_version-Signable true amount d s =
      put-Signable "ors_version" _ amount d refl refl refl (str-Accepted py _) s

  with_request_binding-Signable :
      (rng : Random) (include : Bool) (amount : ℤ) (d : Fields) (n : ℕ) {bound : Fields} {n' : ℕ}
      → Signable amount d
      → with_request_binding rng include d n ≡ (ok bound, n')
      → Signable amount bound
  unfolding with_request_binding deterministic_hex draw_bytes is_non_bmp codes text_mem
  with_request_binding-Signable rng false amount d n s returned =
      subst (Signable amount) (ok-injective (ap (λ p. p.0) returned)) s
  with_request_binding-Signable rng true amount d n s returned =
      subst (Signable amount) (ok-injective (ap (λ p. p.0) returned)) (
        put-Signable "request_binding" _ amount d refl refl refl
          (dict-Accepted py _ (
            field-Accepted py "provider_nonce" _ _ refl (str-Accepted py _)
              (field-Accepted py "binding_method" _ _ refl (str-Accepted py _) (end-Accepted py))))
          s)

  build_receipt_payload-Signable :
      (rng : Random) (dates : Datetimes) (scenario : Scenario) (bucket : Bucket) (when : ℕ)
      (id : String) (before : ChainState) (n : ℕ) {payload : Fields} {after : ChainState} {n' : ℕ}
      → build_receipt_payload rng dates scenario bucket when id before n ≡ (ok (payload, after), n')
      → (amount : ℤ) × Signable amount payload
  unfolding build_receipt_payload
  build_receipt_payload-Signable rng dates scenario bucket when id before n returned =
      let (agent_id, n1, _, r1) = timed-returned (pick rng scenario.agents) _ n returned in
      let (choice, n2, _, r2) =
        timed-returned (choose rng scenario bucket) _ (suc (suc (suc n1))) r1 in
      let (created, n3, _, r3) = timed-returned (untimed (shift when (pos 1))) _ (suc n2) r2 in
      let (commitments, n4, committed, r4) =
        timed-returned (draw_commitments rng choice.include_commitments choice) _ n3 r3 in
      let (chained, n5, drawn, r5) =
        timed-returned (draw_chain rng choice.include_chain before id agent_id) _ n4 r4 in
      let ors = ors_of commitments chained.0 in
      let base =
        base_payload scenario choice agent_id id _ (to_iso_z dates when) (to_iso_z dates created) in
      let built = with_provider (rng.random_below n1 "0.2") (with_context ors base) in
      let (bound, n6, bound_of, r6) =
        timed-returned (with_request_binding rng (rng.random_below (suc n1) "0.1") built) _ n5 r5 in
      let ors_accepted =
        ors_of-Accepted commitments chained.0
          (draw_commitments-Accepted py rng choice.include_commitments choice n3 committed)
          (draw_chain-Accepted py rng choice.include_chain before id agent_id n4 drawn) in
      let made =
        with_version-Signable (rng.random_below (suc (suc n1)) "0.05") choice.amount bound (
          with_request_binding-Signable rng (rng.random_below (suc n1) "0.1") choice.amount built n5
            (with_provider-Signable (rng.random_below n1 "0.2") choice.amount
              (with_context ors base)
              (with_context-Signable ors choice.amount base ors_accepted (
                base_payload-Signable scenario choice agent_id id _ (to_iso_z dates when)
                  (to_iso_z dates created))))
            bound_of) in
      (
        choice.amount,
        subst (λ p. Signable choice.amount p.0) (ok-injective (ap (λ p. p.0) r6)) made,
      )

-- sign_receipt signs every payload that build_receipt_payload returns, whatever the bucket and the
-- random generator are, under a key id that is not empty, unless the amount is beyond 2^53 - 1.
pub build_receipt_payload-sign_receipt :
    (py : Builtins) (crypto : Crypto) (rng : Random) (dates : Datetimes) (scenario : Scenario)
    (bucket : Bucket) (when : ℕ) (id : String) (before : ChainState) (n : ℕ) (payload : Fields)
    (after : ChainState) (n' : ℕ) (seed : Bytes) (kid : String)
    → build_receipt_payload rng dates scenario bucket when id before n ≡ (ok (payload, after), n')
    → (kid == "") ≡ false
    → ((signed : Fields) × (sign_receipt py crypto (dict payload) (key_object seed) (str kid)
          ≡ ok signed))
      ⊎ ((amount : ℤ) × (get payload "amount_charged" ≡ some (int amount))
          × (leb (nat_abs amount) max_safe_integer ≡ false))
unfolding coerce_private_key
build_receipt_payload-sign_receipt py crypto rng dates scenario bucket when id before n payload
      after n' seed kid returned named =
    let (amount, s) =
      build_receipt_payload-Signable py rng dates scenario bucket when id before n returned in
    elim (Bool-cases (leb (nat_abs amount) max_safe_integer)) [
      | inl small ↦ inl (
          sign_receipt-known py crypto payload (key_object seed) kid s.known refl named
            (dict-Accepted py payload (s.accepted small)))
      | inr large ↦ inr (amount, s.amount_entry, large)
    ]
