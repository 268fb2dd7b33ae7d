-- ===== src/Ingest/Emit/Complete.antt =====
-- The receipt of emit_receipt has every key that build_payload asks for.
use openterms.Prelude.{
  and-true, ◌≡◌, refl, String, Bool, true, false, ◌&&◌, Option, none, some, List, [], ◌∷◌, ◌==◌,
  Bool-cases, inl, inr, if◌then◌else◌,
}
use openterms.Python.{Value, Fields, end, field, other, ok, get, has, put, is_null}
use openterms.Receipts.Canonical.{
  copy_required, copy_optional, build_payload, payload_keys_required, payload_keys_signed_envelope,
  payload_keys_optional,
}
use openterms.Ingest.Service.{IngestClient}
use openterms.Ingest.Emit.{Emission, merge, merge_extra, put_context, base_receipt, full_receipt}

abbrev has_all : List String → Fields → Bool
has_all [] d = true
has_all (k ∷ ks) d = has d k && has_all ks d

has-get : (k : String) (d : Fields) → has d k ≡ true → (v : Value) × (get d k ≡ some v)
unfolding has get
has-get k end there = cc
has-get k (other j w d) there = has-get k d there
has-get k (field j w d) there = elim (Bool-cases (j == k)) [
  | inl same ↦ (w, rw same refl)
  | inr differ ↦ rw (get, differ) (has-get k d (rw (has, differ) at there))
]

has-put : (k j : String) (v : Value) (d : Fields) → has d k ≡ true → has (put j v d) k ≡ true
unfolding has put
has-put k j v end there = cc
has-put k j v (other i w d) there = has-put k j v d there
has-put k j v (field i w d) there = elim (Bool-cases (i == j)) [
  | inl same ↦ rw (put, same) there
  | inr differ ↦
      rw (put, differ)
        (elim (Bool-cases (i == k)) [
          | inl here ↦ rw (has, here) refl
          | inr elsewhere ↦ rw (has, elsewhere) (has-put k j v d (rw (has, elsewhere) at there))
        ])
]

has_all-put :
    (ks : List String) (j : String) (v : Value) (d : Fields)
    → has_all ks d ≡ true
    → has_all ks (put j v d) ≡ true
has_all-put [] j v d all = refl
has_all-put (k ∷ ks) j v d all =
    let (first, rest) = and-true (has d k) (has_all ks d) all in
    rw (has-put k j v d first) (has_all-put ks j v d rest)

has_all-merge :
    (ks : List String) (extra d : Fields) → has_all ks d ≡ true → has_all ks (merge extra d) ≡ true
unfolding merge
has_all-merge ks end d all = all
has_all-merge ks (other j v extra) d all = has_all-merge ks extra d all
has_all-merge ks (field j v extra) d all = has_all-merge ks extra _ (chosen (is_null v))
  where
    chosen : (b : Bool) → has_all ks (if b then d else put j v d) ≡ true
    chosen true = all
    chosen false = has_all-put ks j v d all

has_all-full_receipt :
    (ks : List String) (client : IngestClient) (e : Emission) (agent ts id : String)
    → has_all ks (base_receipt client e agent ts id) ≡ true
    → has_all ks (full_receipt client e agent ts id) ≡ true
unfolding full_receipt put_context merge_extra
has_all-full_receipt ks client e agent ts id all = merged e.extra _ (contexted e.action_context)
  where
    contexted :
        (context : Option Fields)
        → has_all ks (put_context context (base_receipt client e agent ts id)) ≡ true
    contexted none = all
    contexted (some context) = has_all-put ks "action_context" _ _ all

    merged :
        (extra : Option Fields) (d : Fields)
        → has_all ks d ≡ true
        → has_all ks (merge_extra extra d) ≡ true
    merged none d all = all
    merged (some extra) d all = has_all-merge ks extra d all

copy_required-returns :
    (missing : String) (ks : List String) (r p : Fields)
    → has_all ks r ≡ true
    → (q : Fields) × (copy_required missing ks r p ≡ ok q)
unfolding copy_required
copy_required-returns missing [] r p all = (p, refl)
copy_required-returns missing (k ∷ ks) r p all =
    let (first, rest) = and-true (has r k) (has_all ks r) all in
    let (v, there) = has-get k r first in
    rw (copy_required, there) (copy_required-returns missing ks r (put k v p) rest)

-- `build_payload` finds every key that it requires in the receipt of `emit_receipt`.
pub build_payload-full_receipt :
    (client : IngestClient) (e : Emission) (agent ts id : String)
    → (payload : Fields) × (build_payload (full_receipt client e agent ts id) ≡ ok payload)
unfolding build_payload base_receipt has
build_payload-full_receipt client e agent ts id =
    let r : Fields = full_receipt client e agent ts id in
    let (p, required) =
      copy_required-returns "Missing required payload field: " payload_keys_required r end
        (has_all-full_receipt payload_keys_required client e agent ts id refl) in
    let (q, envelope) =
      copy_required-returns "Missing required signed envelope field: " payload_keys_signed_envelope
        r p (has_all-full_receipt payload_keys_signed_envelope client e agent ts id refl) in
    (copy_optional payload_keys_optional r q, rw (required, envelope) refl)
