-- ===== src/Receipts/Canonical.antt =====
-- packages/openterms-py/openterms/receipts/canonical.py: what may be canonicalized, and the signed
-- payload of a receipt.
pub mod Json
pub mod Order
pub mod Insertion
pub mod Reordered
pub mod Payload
use openterms.Prelude.{
  ℕ, String, Bool, true, false, Option, none, some, List, [], ◌∷◌, ◌++◌, leb, not, ltb,
  if◌then◌else◌, any,
}
use openterms.Prelude.Int.{nat_abs}
use openterms.Python.{
  Value, null, bool, int, float, str, list, dict, Values, nil, cons, Fields, end, field, other,
  Builtins, canonicalization_error, value_error, Result, ok, fail, ◌>>=◌, ◌>>◌, ensure, get, put,
  codes, join_text, is_null,
}
use Json.{emit, utf8}

abbrev pub Bytes : Type 0
Bytes = List ℕ

-- b"ORSv0.1\x00"
abbrev pub domain_separator : Bytes
domain_separator = b'O' ∷ b'R' ∷ b'S' ∷ b'v' ∷ b'0' ∷ b'.' ∷ b'1' ∷ 0 ∷ []

abbrev pub payload_keys_required : List String
payload_keys_required =
    "workspace_id" ∷ "agent_id" ∷ "action_type" ∷ "terms_url" ∷ "terms_hash" ∷ "timestamp"
    ∷ "pricing_version" ∷ []

abbrev pub payload_keys_signed_envelope : List String
payload_keys_signed_envelope = "receipt_id" ∷ "amount_charged" ∷ "created_at" ∷ []

abbrev pub payload_keys_optional : List String
payload_keys_optional =
    "action_context" ∷ "ors_version" ∷ "issuer" ∷ "provider" ∷ "decision" ∷ "request_binding"
    ∷ "terms_type" ∷ "terms_service" ∷ "terms_version" ∷ []

-- `_MAX_SAFE_INTEGER`, 2 ** 53 - 1
abbrev pub max_safe_integer : ℕ
max_safe_integer = 9007199254740991

-- any(ord(ch) > 0xFFFF for ch in k)
unfoldable pub is_non_bmp : String → Bool
unfolding codes
is_non_bmp k = any (ltb 0xffff) (codes k)

-- `_validate`
unfoldable mutual
  unfolding is_non_bmp join_text

  pub validate : Builtins → Value → Result (Unit {0})
  validate py null = ok tt
  validate py (bool b) = ok tt
  validate py (int n) = ensure (leb (nat_abs n) max_safe_integer) (
      canonicalization_error (
        join_text (
          "Integer "
          ∷ py.str_of (int n)
          ∷ " exceeds JavaScript Number.MAX_SAFE_INTEGER; encode as a string instead"
          ∷ [])))
  validate py (float x) = fail (
      canonicalization_error (
        join_text (
          "Float values are not allowed in ORS v0.1 canonical receipts (got "
          ∷ py.repr_of (float x)
          ∷ ")"
          ∷ [])))
  validate py (str s) = ok tt
  validate py (list vs) = validate_items py vs
  validate py (dict d) = validate_fields py d

  pub validate_items : Builtins → Values → Result (Unit {0})
  validate_items py nil = ok tt
  validate_items py (cons v vs) = validate py v >> validate_items py vs

  pub validate_fields : Builtins → Fields → Result (Unit {0})
  validate_fields py end = ok tt
  validate_fields py (field k v d) =
      ensure (not (is_non_bmp k)) (
        canonicalization_error (
          join_text (
            "Object key contains a non-BMP (supplementary-plane) character; not supported by ORS v0.1 canonicalization: "
            ∷ py.repr_of (str k)
            ∷ [])))
      >> (validate py v >> validate_fields py d)
  validate_fields py (other k v d) = fail (
      canonicalization_error
        (join_text ("Object keys must be strings; got " ∷ py.type_name k ∷ [])))

unfoldable mutual
  pub strip_nulls : Value → Value
  strip_nulls null = null
  strip_nulls (bool b) = bool b
  strip_nulls (int n) = int n
  strip_nulls (float x) = float x
  strip_nulls (str s) = str s
  strip_nulls (list vs) = list (strip_items vs)
  strip_nulls (dict d) = dict (strip_fields d)

  pub strip_items : Values → Values
  strip_items nil = nil
  strip_items (cons v vs) = cons (strip_nulls v) (strip_items vs)

  pub strip_fields : Fields → Fields
  strip_fields end = end
  strip_fields (field k v d) =
      let kept : Fields = field k (strip_nulls v) (strip_fields d) in
      if is_null v then strip_fields d else kept
  strip_fields (other k v d) =
      let kept : Fields = other k (strip_nulls v) (strip_fields d) in
      if is_null v then strip_fields d else kept

unfoldable pub canonicalize : Builtins → Fields → Result Bytes
canonicalize py payload = do
  validate py (dict payload)
  ok (utf8 (emit (strip_nulls (dict payload))))

-- One of the first two loops of `build_payload`: `missing` is the message up to the key's name.
unfoldable pub copy_required : String → List String → Fields → Fields → Result Fields
unfolding get put join_text
copy_required missing [] receipt payload = ok payload
copy_required missing (k ∷ ks) receipt payload = elim (get receipt k) [
  | none ↦ fail (value_error (join_text (missing ∷ k ∷ [])))
  | some v ↦ copy_required missing ks receipt (put k v payload)
]

-- The third loop of `build_payload`.
unfoldable pub copy_optional : List String → Fields → Fields → Fields
unfolding get put
copy_optional [] receipt payload = payload
copy_optional (k ∷ ks) receipt payload = elim (get receipt k) [
  | none ↦ copy_optional ks receipt payload
  | some v ↦ copy_optional ks receipt (if is_null v then payload else put k v payload)
]

unfoldable pub build_payload : Fields → Result Fields
unfolding copy_required copy_optional
build_payload receipt = do
  payload ← copy_required "Missing required payload field: " payload_keys_required receipt end
  payload ←
      copy_required "Missing required signed envelope field: " payload_keys_signed_envelope receipt
        payload
  ok (copy_optional payload_keys_optional receipt payload)
