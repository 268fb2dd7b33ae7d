-- ===== src/Receipts/Canonical/Payload.antt =====
-- Which entries build_payload takes.
use openterms.Prelude.{
  or-false, ◌≡◌, ◌⊎◌, refl, sym, ap, ◌∙◌, arith, String, Bool, true, false, Option, none, some,
  List, [], ◌∷◌, ◌==◌, ◌||◌, eq_iff, Bool-cases, Option-cases, inl, inr, if◌then◌else◌,
}
use openterms.Python.{
  fail_ok, Value, Fields, ok, get, put, text_mem, is_null, ok-injective, get-put_same,
  get-put_other, test_sym,
}
use openterms.Receipts.Canonical.{copy_required, copy_optional}

or-true : (a : Bool) → (a || true) ≡ true
or-true false = refl
or-true true = refl

or_true : (a b : Bool) → (a || b) ≡ true → b ≡ false → a ≡ true
or_true true b h nb = refl
or_true false b h nb = ground arith

-- an entry, if it is not None
unfoldable pub present : Option Value → Option Value
present none = none
present (some v) = if is_null v then none else some v

-- A required key that is there is copied.
copy_required-some :
    (missing : String) (k : String) (ks : List String) (receipt payload : Fields) {result : Fields}
    → copy_required missing (k ∷ ks) receipt payload ≡ ok result
    → (v : Value) × (get receipt k ≡ some v)
      × (copy_required missing ks receipt (put k v payload) ≡ ok result)
unfolding copy_required
copy_required-some missing k ks receipt payload returned = elim (Option-cases (get receipt k)) [
  | inl absent ↦ absurd (fail_ok (rw (copy_required, absent) at returned))
  | inr (v, there) ↦ (v, there, rw (copy_required, there) at returned)
]

pub copy_required-outside :
    (missing k : String) (ks : List String) (receipt payload : Fields) {result : Fields}
    → copy_required missing ks receipt payload ≡ ok result
    → text_mem k ks ≡ false
    → get result k ≡ get payload k
unfolding copy_required text_mem
copy_required-outside missing k [] receipt payload returned outside =
    ap (λ d. get d k) (sym (ok-injective returned))
copy_required-outside missing k (j ∷ ks) receipt payload returned outside =
    let (v, there, rest) = copy_required-some missing j ks receipt payload returned in
    let (apart, outside') = or-false (k == j) (text_mem k ks) outside in
    copy_required-outside missing k ks receipt (put j v payload) rest outside'
    ∙ get-put_other j v payload k (test_sym k j apart)

pub copy_required-inside :
    (missing k : String) (ks : List String) (receipt payload : Fields) {result : Fields}
    → copy_required missing ks receipt payload ≡ ok result
    → text_mem k ks ≡ true
    → get result k ≡ get receipt k
unfolding copy_required text_mem
copy_required-inside missing k [] receipt payload returned inside = ground arith
copy_required-inside missing k (j ∷ ks) receipt payload returned inside =
    let (v, there, rest) = copy_required-some missing j ks receipt payload returned in
    elim (Bool-cases (text_mem k ks)) [
      | inl again ↦ copy_required-inside missing k ks receipt (put j v payload) rest again
      | inr last ↦
          (let same : k ≡ j = (eq_iff k j).0 (or_true (k == j) (text_mem k ks) inside last) in
            rw same (
              copy_required-outside missing j ks receipt (put j v payload) rest (rw same at last)
              ∙ (get-put_same j v payload ∙ sym there)))
    ]

-- the payload behind one optional key
step : Option Value → String → Fields → Fields
step none j payload = payload
step (some v) j payload = if is_null v then payload else put j v payload

copy_optional-step :
    (j : String) (ks : List String) (receipt payload : Fields)
    → copy_optional (j ∷ ks) receipt payload
      ≡ copy_optional ks receipt (step (get receipt j) j payload)
unfolding copy_optional step
copy_optional-step j ks receipt payload = elim (Option-cases (get receipt j)) [
  | inl absent ↦ rw (copy_optional, absent) refl
  | inr (v, there) ↦ rw (copy_optional, there) refl
]

get-step_other :
    (o : Option Value) (j : String) (payload : Fields) (k : String)
    → (j == k) ≡ false
    → get (step o j payload) k ≡ get payload k
unfolding step
get-step_other none j payload k apart = refl
get-step_other (some v) j payload k apart = elim (Bool-cases (is_null v)) [
  | inl empty ↦ rw (step, empty) refl
  | inr full ↦ rw (step, full) (get-put_other j v payload k apart)
]

-- a key that was not copied yet, or was copied already
abbrev pub Pending : Fields → Fields → String → Type 0
Pending receipt payload k = (get payload k ≡ none) ⊎ (get payload k ≡ present (get receipt k))

get-step :
    (receipt payload : Fields) (k : String) (o : Option Value)
    → get receipt k ≡ o
    → Pending receipt payload k
    → get (step o k payload) k ≡ present o
unfolding step present
get-step receipt payload k none looked (inl e) = e
get-step receipt payload k none looked (inr e) = e ∙ ap present looked
get-step receipt payload k (some v) looked pending = elim (Bool-cases (is_null v)) [
  | inl empty ↦ (elim pending [
    | inl e ↦ rw (step, empty) e
    | inr e ↦ rw (step, empty) (rw (looked, present, empty) at e)
  ])
  | inr full ↦ rw (step, full) (get-put_same k v payload)
]

pub copy_optional-outside :
    (k : String) (ks : List String) (receipt payload : Fields)
    → text_mem k ks ≡ false
    → get (copy_optional ks receipt payload) k ≡ get payload k
unfolding copy_optional text_mem
copy_optional-outside k [] receipt payload outside = refl
copy_optional-outside k (j ∷ ks) receipt payload outside =
    let (apart, outside') = or-false (k == j) (text_mem k ks) outside in
    ap (λ d. get d k) (copy_optional-step j ks receipt payload)
    ∙ (copy_optional-outside k ks receipt _ outside'
        ∙ get-step_other (get receipt j) j payload k (test_sym k j apart))

pub copy_optional-inside :
    (k : String) (ks : List String) (receipt payload : Fields)
    → text_mem k ks ≡ true
    → Pending receipt payload k
    → get (copy_optional ks receipt payload) k ≡ present (get receipt k)
unfolding text_mem
copy_optional-inside k [] receipt payload inside pending = ground arith
copy_optional-inside k (j ∷ ks) receipt payload inside pending =
    ap (λ d. get d k) (copy_optional-step j ks receipt payload) ∙ elim (Bool-cases (k == j)) [
      | inl same ↦
          (let e : k ≡ j = (eq_iff k j).0 same in
            let now : get (step (get receipt j) j payload) k ≡ present (get receipt k) =
              rw (← e) (get-step receipt payload k (get receipt k) refl pending) in
            elim (Bool-cases (text_mem k ks)) [
              | inl again ↦ copy_optional-inside k ks receipt _ again (inr now)
              | inr last ↦ copy_optional-outside k ks receipt _ last ∙ now
            ])
      | inr apart ↦
          (let kept : get (step (get receipt j) j payload) k ≡ get payload k =
              get-step_other (get receipt j) j payload k (test_sym k j apart) in
            copy_optional-inside k ks receipt _ (rw (text_mem, apart) at inside)
              (elim pending [ inl e ↦ inl (kept ∙ e) | inr e ↦ inr (kept ∙ e) ]))
    ]

here : (j : String) (ks : List String) → text_mem j (j ∷ ks) ≡ true
unfolding text_mem
here j ks = rw ((eq_iff j j).1 refl) refl

later : (k j : String) (ks : List String) → text_mem k ks ≡ true → text_mem k (j ∷ ks) ≡ true
unfolding text_mem
later k j ks inside = rw inside (or-true (k == j))

-- The loops read nothing but the entries of their keys.
pub copy_required-same :
    (missing : String) (ks : List String) (r r' payload : Fields)
    → ((k : String) → text_mem k ks ≡ true → get r k ≡ get r' k)
    → copy_required missing ks r payload ≡ copy_required missing ks r' payload
unfolding copy_required text_mem
copy_required-same missing [] r r' payload agree = refl
copy_required-same missing (j ∷ ks) r r' payload agree = elim (Option-cases (get r' j)) [
  | inl absent ↦ rw (copy_required, agree j (here j ks), absent) refl
  | inr (v, there) ↦
      rw (copy_required, agree j (here j ks), there)
        (copy_required-same missing ks r r' (put j v payload)
          (λ k inside. agree k (later k j ks inside)))
]

step_of : Option Value → String → Fields → Fields
step_of none j payload = payload
step_of (some v) j payload = put j v payload

step-step_of :
    (o : Option Value) (j : String) (payload : Fields)
    → step o j payload ≡ step_of (present o) j payload
unfolding step step_of present
step-step_of none j payload = refl
step-step_of (some v) j payload = ground arith

pub copy_optional-same :
    (ks : List String) (r r' payload : Fields)
    → ((k : String) → text_mem k ks ≡ true → present (get r k) ≡ present (get r' k))
    → copy_optional ks r payload ≡ copy_optional ks r' payload
unfolding text_mem copy_optional
copy_optional-same [] r r' payload agree = refl
copy_optional-same (j ∷ ks) r r' payload agree =
    copy_optional-step j ks r payload
    ∙ (ap (copy_optional ks r) (
          step-step_of (get r j) j payload
          ∙ (ap (λ o. step_of o j payload) (agree j (here j ks))
              ∙ sym (step-step_of (get r' j) j payload)))
        ∙ (copy_optional-same ks r r' _ (λ k inside. agree k (later k j ks inside))
            ∙ sym (copy_optional-step j ks r' payload)))
