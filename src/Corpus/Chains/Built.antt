-- ===== src/Corpus/Chains/Built.antt =====
-- The chain of a receipt that the loop of `main` of packages/openterms-py/scripts/generate_corpus.py makes.
use mathlib.Core.Path.{subst}
use openterms.Prelude.{
  ◌≡◌, refl, sym, ap, ◌∙◌, inl, inr, ℕ, suc, String, true, Option, some, List, [], ◌∷◌, eq_iff,
}
use openterms.Python.{str, dict, Fields, ok, ok-injective, get, text_mem}
use openterms.Policy.Clock.{untimed}
use openterms.Policy.Clock.Returns.{timed-returned, untimed-returned}
use openterms.Receipts.Signing.{sign_receipt, key_object}
use openterms.Receipts.Signing.Signed.{sign_receipt-Signed}
use openterms.Prelude.Int.{pos}
use openterms.Corpus.Scenario.{Bucket, Scenario, Random, pick}
use openterms.Corpus.Buckets.{choose}
use openterms.Corpus.Times.{Datetimes, shift, to_iso_z}
use openterms.Corpus.Keys.{SigningKey, make_keys}
use openterms.Corpus.Payload.{
  ChainState, no_chain, draw_commitments, draw_chain, ors_of, with_context, with_provider,
  with_request_binding, base_payload, with_version, build_receipt_payload,
}
use openterms.Corpus.Generate.{Tools, seed_of, generate_one, generate_loop, generate_receipts}
use openterms.Corpus.Uuids.{stamp, uuid_text}
use openterms.Receipts.Canonical.{Bytes}
use openterms.Corpus.Schedule.{build_bucket_assignments, assign_timestamps}
use openterms.Corpus.Links.{parent_of}
use openterms.Corpus.Chains.{ParentIn, root, child, Linked, all_linked, link}
use openterms.Corpus.Chains.Drawn.{chain_parent, Extends, draw_chain-Extends}
use openterms.Corpus.Chains.Parents.{payload-parent, parent_of-get}

-- An active state has its parent among `seen`.
pub Ready : List String → ChainState → Type 0
Ready seen state = state.active ≡ true → text_mem state.parent_receipt_id seen ≡ true

-- A receipt with its id and its parent, and the state behind it.
pub Made : List String → String → Fields → ChainState → Type 0
Made seen id r after =
    (get r "receipt_id" ≡ some (str id)) × ParentIn seen r × Ready (id ∷ seen) after

mem_first : (id : String) (seen : List String) → text_mem id (id ∷ seen) ≡ true
unfolding text_mem
mem_first id seen = rw ((eq_iff id id).1 refl) refl

Extends-Made :
    (seen : List String) (id : String) (r : Fields) {before after : ChainState}
    {entry : Option Fields}
    → Ready seen before
    → Extends before id entry after
    → get r "receipt_id" ≡ some (str id)
    → parent_of r ≡ ok (chain_parent entry)
    → Made seen id r after
unfolding Made Ready
Extends-Made seen id r {before = before} {after = after} ready extends id_of parent = (
  id_of,
  elim extends.named [
    | inl none_named ↦ root (parent ∙ ap ok none_named)
    | inr (active, named) ↦ child before.parent_receipt_id (parent ∙ ap ok named) (ready active)
  ],
  λ active. elim extends.next [
    | inl inactive ↦ cc
    | inr next ↦ subst (λ p. text_mem p (id ∷ seen) ≡ true) (sym next) (mem_first id seen)
  ],
)

build_receipt_payload-Made :
    (rng : Random) (dates : Datetimes) (scenario : Scenario) (bucket : Bucket) (when : ℕ)
    (id : String) (before : ChainState) (seen : List String) (n : ℕ) {payload : Fields}
    {after : ChainState} {n' : ℕ}
    → Ready seen before
    → build_receipt_payload rng dates scenario bucket when id before n ≡ (ok (payload, after), n')
    → Made seen id payload after
unfolding build_receipt_payload
build_receipt_payload-Made rng dates scenario bucket when id before seen n ready returned =
    let (agent_id, n1, _, r1) = timed-returned (pick rng scenario.agents) _ n returned in
    let (choice, n2, _, r2) =
      timed-returned (choose rng scenario bucket) _ (suc (suc (suc n1))) r1 in
    let (created, n3, _, r3) = timed-returned (untimed (shift when (pos 1))) _ (suc n2) r2 in
    let (commitments, n4, _, r4) =
      timed-returned (draw_commitments rng choice.include_commitments choice) _ n3 r3 in
    let (chained, n5, drawn, r5) =
      timed-returned (draw_chain rng choice.include_chain before id agent_id) _ n4 r4 in
    let ors = ors_of commitments chained.0 in
    let built = with_provider (rng.random_below n1 "0.2") (
      with_context ors (
        base_payload scenario choice agent_id id _ (to_iso_z dates when)
          (to_iso_z dates created))) in
    let (bound, n6, bound_of, r6) =
      timed-returned (with_request_binding rng (rng.random_below (suc n1) "0.1") built) _ n5 r5 in
    let version = rng.random_below (suc (suc n1)) "0.05" in
    let (id_of, parent) =
      payload-parent rng scenario choice agent_id id _ (to_iso_z dates when)
        (to_iso_z dates created) commitments chained.0 (rng.random_below n1 "0.2")
        (rng.random_below (suc n1) "0.1") version n5 bound_of in
    subst (λ p. Made seen id p.0 p.1) (ok-injective (ap (λ p. p.0) r6))
      (Extends-Made seen id (with_version version bound) ready
        (draw_chain-Extends rng choice.include_chain before id agent_id n4 drawn) id_of parent)

signed-Made :
    (tools : Tools) (seen : List String) (id kid : String) (seed : Bytes) (payload signed : Fields)
    (after : ChainState)
    → sign_receipt tools.py tools.crypto (dict payload) (key_object seed) (str kid) ≡ ok signed
    → Made seen id payload after
    → Made seen id signed after
unfolding Made text_mem
signed-Made tools seen id kid seed payload signed after returned (id_of, parent, ready) =
    let (_, _, _, _, made) =
      sign_receipt-Signed tools.py tools.crypto payload (key_object seed) (str kid) signed
        returned in
    let same = parent_of-get signed payload (made.others "action_context" refl) in
    (
      made.others "receipt_id" refl ∙ id_of,
      (elim parent [
        | root none_named ↦ root (same ∙ none_named)
        | child p named known ↦ child p (same ∙ named) known
      ]),
      ready,
    )

generate_one-Made :
    (tools : Tools) (scenario : Scenario) (keys : List (String × SigningKey)) (pair : ℕ × Bucket)
    (before : ChainState) (seen : List String) (n : ℕ) {signed : Fields} {after : ChainState}
    {n' : ℕ}
    → Ready seen before
    → generate_one tools scenario keys pair before n ≡ (ok (signed, after), n')
    → (id : String) × Made seen id signed after
unfolding generate_one
generate_one-Made tools scenario keys (when, bucket) before seen n ready returned =
    let id = uuid_text (stamp (tools.rng.randbytes (suc n) 16)) in
    let (built, n2, building, r2) =
      timed-returned (build_receipt_payload tools.rng tools.dates scenario bucket when id before) _
        (suc (suc n)) returned in
    let (seed, n3, _, r3) = timed-returned (untimed (seed_of keys _)) _ n2 r2 in
    let (made, n4, signing, r4) =
      timed-returned
        (untimed (sign_receipt tools.py tools.crypto (dict built.0) (key_object seed) (str _))) _ n3
        r3 in
    (
      id,
      subst (λ p. Made seen id p.0 p.1) (ok-injective (ap (λ p. p.0) r4))
          (signed-Made tools seen id _ seed built.0 made built.1 (untimed-returned _ n3 signing) (
            build_receipt_payload-Made tools.rng tools.dates scenario bucket when id before seen
              (suc (suc n)) ready building)),
    )

-- The receipts of the loop are linked.
pub generate_loop-Linked :
    (tools : Tools) (scenario : Scenario) (keys : List (String × SigningKey))
    (pairs : List (ℕ × Bucket)) (before : ChainState) (seen : List String) (n : ℕ)
    {receipts : List Fields} {n' : ℕ}
    → Ready seen before
    → generate_loop tools scenario keys pairs before n ≡ (ok receipts, n')
    → Linked seen receipts
unfolding generate_loop Made
generate_loop-Linked tools scenario keys [] before seen n ready returned =
    subst (Linked seen) (ok-injective (ap (λ p. p.0) returned)) all_linked
generate_loop-Linked tools scenario keys (pair ∷ pairs) before seen n ready returned =
    let (made, n1, making, r1) =
      timed-returned (generate_one tools scenario keys pair before) _ n returned in
    let (rest, n2, looping, r2) =
      timed-returned (generate_loop tools scenario keys pairs made.1) _ n1 r1 in
    let (id, all) = generate_one-Made tools scenario keys pair before seen n ready making in
    let (id_of, parent, ready') = all in
    subst (Linked seen) (ok-injective (ap (λ p. p.0) r2)) (
      link id id_of parent
        (generate_loop-Linked tools scenario keys pairs made.1 (id ∷ seen) n1 ready' looping))

-- When the receipts of a scenario are generated, each has an id, and one that names a parent in
-- its chain names the id of an earlier receipt.
pub generate_receipts-Linked :
    (tools : Tools) (scenario : Scenario) (n : ℕ) {jwks : Fields} {receipts : List Fields} {n' : ℕ}
    → generate_receipts tools scenario n ≡ (ok (jwks, receipts), n')
    → Linked [] receipts
unfolding generate_receipts Ready
generate_receipts-Linked tools scenario n returned =
    let (keys, n1, _, r1) =
      timed-returned (untimed (make_keys tools.crypto scenario.seed scenario.keys [])) _ n
        returned in
    let (buckets, n2, _, r2) =
      timed-returned (untimed (build_bucket_assignments tools.py scenario)) _ n1 r1 in
    let (pairs, n3, _, r3) =
      timed-returned (untimed (assign_timestamps tools.dates scenario buckets)) _ n2 r2 in
    let (made, n4, looping, r4) =
      timed-returned (generate_loop tools scenario keys pairs no_chain) _ n3 r3 in
    subst (Linked []) (ap (λ p. p.1) (ok-injective (ap (λ p. p.0) r4)))
      (generate_loop-Linked tools scenario keys pairs no_chain [] n3 (λ active. cc) looping)
