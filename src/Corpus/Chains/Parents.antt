-- ===== src/Corpus/Chains/Parents.antt =====
-- The parent that `validate_corpus` reads from a payload that `build_receipt_payload` of
-- packages/openterms-py/scripts/generate_corpus.py builds.
use mathlib.Core.Path.{subst}
use openterms.Prelude.{
  ◌≡◌, refl, sym, ap, ◌∙◌, ℕ, String, Bool, true, false, Option, none, some, ◌==◌, Bool-cases, inl,
  inr,
}
use openterms.Python.{
  Value, null, str, Fields, end, field, other, ok, ok-injective, get, get_or, put, get-put_other,
}
use openterms.Ingest.Transport.{truthy, get_attribute}
use openterms.Corpus.Scenario.{Scenario, Random, draw_bytes, deterministic_hex}
use openterms.Corpus.Buckets.{Choice}
use openterms.Corpus.Payload.{
  ors_of, with_context, with_provider, with_request_binding, with_version, base_payload,
}
use openterms.Corpus.Links.{parent_of, chain_of, chain_of_context}
use openterms.Corpus.Chains.Drawn.{chain_parent}

value_or : Value → Option Value → Value
value_or default none = default
value_or default (some v) = v

get_or-get :
    (d : Fields) (k : String) (default : Value) → get_or d k default ≡ value_or default (get d k)
unfolding get get_or value_or
get_or-get end k default = refl
get_or-get (other j v d) k default = get_or-get d k default
get_or-get (field j v d) k default = elim (Bool-cases (j == k)) [
  | inl same ↦ rw same refl
  | inr differ ↦ rw differ (get_or-get d k default)
]

-- The parent depends on the context alone.
pub parent_of-get :
    (r d : Fields) → get r "action_context" ≡ get d "action_context" → parent_of r ≡ parent_of d
unfolding parent_of chain_of
parent_of-get r d same =
    let alike : get_or r "action_context" null ≡ get_or d "action_context" null =
      get_or-get r "action_context" null
      ∙ (ap (value_or null) same ∙ sym (get_or-get d "action_context" null)) in
    rw alike refl

base_payload-parent :
    (scenario : Scenario) (choice : Choice)
    (agent_id receipt_id terms_hash timestamp created_at : String) (ors : Fields)
    → parent_of (
        with_context ors
          (base_payload scenario choice agent_id receipt_id terms_hash timestamp created_at))
      ≡ parent_of (with_context ors end)
unfolding with_context base_payload put parent_of chain_of get_or
base_payload-parent scenario choice agent_id receipt_id terms_hash timestamp created_at end = refl
base_payload-parent scenario choice agent_id receipt_id terms_hash timestamp created_at
      (field _ _ _) =
    refl
base_payload-parent scenario choice agent_id receipt_id terms_hash timestamp created_at
      (other _ _ _) =
    refl

ors_of-parent :
    (commitments : Fields) (chain : Option Fields)
    → parent_of (with_context (ors_of commitments chain) end) ≡ ok (chain_parent chain)
unfolding ors_of with_context put parent_of chain_of chain_of_context get_or get_attribute truthy
    chain_parent
ors_of-parent end none = refl
ors_of-parent (field _ _ _) none = refl
ors_of-parent (other _ _ _) none = refl
ors_of-parent end (some end) = refl
ors_of-parent end (some (field _ _ _)) = refl
ors_of-parent end (some (other _ _ _)) = refl
ors_of-parent (field _ _ _) (some end) = refl
ors_of-parent (field _ _ _) (some (field _ _ _)) = refl
ors_of-parent (field _ _ _) (some (other _ _ _)) = refl
ors_of-parent (other _ _ _) (some end) = refl
ors_of-parent (other _ _ _) (some (field _ _ _)) = refl
ors_of-parent (other _ _ _) (some (other _ _ _)) = refl

-- What the last steps of `build_receipt_payload` keep of a payload: the id and the parent.
pub Alike : Fields → Fields → Type 0
Alike r d = (get r "receipt_id" ≡ get d "receipt_id") × (parent_of r ≡ parent_of d)

put-Alike :
    (key : String) (v : Value) (payload : Fields)
    → (key == "receipt_id") ≡ false
    → (key == "action_context") ≡ false
    → Alike (put key v payload) payload
unfolding Alike
put-Alike key v payload not_id not_context = (
  get-put_other key v payload "receipt_id" not_id,
  parent_of-get (put key v payload) payload
      (get-put_other key v payload "action_context" not_context),
)

with_provider-Alike :
    (include : Bool) (payload : Fields) → Alike (with_provider include payload) payload
unfolding with_provider Alike
with_provider-Alike false payload = (refl, refl)
with_provider-Alike true payload = put-Alike "provider" _ payload refl refl

with_version-Alike :
    (include : Bool) (payload : Fields) → Alike (with_version include payload) payload
unfolding with_version Alike
with_version-Alike false payload = (refl, refl)
with_version-Alike true payload = put-Alike "ors_version" _ payload refl refl

with_request_binding-Alike :
    (rng : Random) (include : Bool) (payload : Fields) (n : ℕ) {bound : Fields} {n' : ℕ}
    → with_request_binding rng include payload n ≡ (ok bound, n')
    → Alike bound payload
unfolding with_request_binding deterministic_hex draw_bytes Alike
with_request_binding-Alike rng false payload n returned =
    subst (λ d. Alike d payload) (ok-injective (ap (λ p. p.0) returned)) (refl, refl)
with_request_binding-Alike rng true payload n returned =
    subst (λ d. Alike d payload) (ok-injective (ap (λ p. p.0) returned))
      (put-Alike "request_binding" _ payload refl refl)

with_context-id :
    (ors : Fields) (scenario : Scenario) (choice : Choice)
    (agent_id receipt_id terms_hash timestamp created_at : String)
    → get
        (with_context ors
          (base_payload scenario choice agent_id receipt_id terms_hash timestamp created_at))
        "receipt_id"
      ≡ some (str receipt_id)
unfolding with_context base_payload get put
with_context-id end scenario choice agent_id receipt_id terms_hash timestamp created_at = refl
with_context-id (field _ _ _) scenario choice agent_id receipt_id terms_hash timestamp created_at =
    refl
with_context-id (other _ _ _) scenario choice agent_id receipt_id terms_hash timestamp created_at =
    refl

-- The payload names the parent of the chain that was drawn, and the id that it was given.
pub payload-parent :
    (rng : Random) (scenario : Scenario) (choice : Choice)
    (agent_id receipt_id terms_hash timestamp created_at : String) (commitments : Fields)
    (chain : Option Fields) (provider binding version : Bool) (n : ℕ) {bound : Fields} {n' : ℕ}
    → with_request_binding rng binding
        (with_provider provider (
          with_context
            (ors_of commitments chain)
            (base_payload scenario choice agent_id receipt_id terms_hash timestamp created_at)))
        n
      ≡ (ok bound, n')
    → (get (with_version version bound) "receipt_id" ≡ some (str receipt_id))
      × (parent_of (with_version version bound) ≡ ok (chain_parent chain))
unfolding Alike
payload-parent rng scenario choice agent_id receipt_id terms_hash timestamp created_at commitments
      chain provider binding version n {bound = bound} returned =
    let d =
      with_context (ors_of commitments chain)
        (base_payload scenario choice agent_id receipt_id terms_hash timestamp created_at) in
    let (id1, parent1) = with_version-Alike version bound in
    let (id2, parent2) =
      with_request_binding-Alike rng binding (with_provider provider d) n returned in
    let (id3, parent3) = with_provider-Alike provider d in
    (
      id1
          ∙ (id2
              ∙ (id3
                  ∙ with_context-id (ors_of commitments chain) scenario choice agent_id receipt_id
                      terms_hash timestamp created_at)),
      parent1
          ∙ (parent2
              ∙ (parent3
                  ∙ (base_payload-parent scenario choice agent_id receipt_id terms_hash timestamp
                        created_at (ors_of commitments chain)
                      ∙ ors_of-parent commitments chain))),
    )
