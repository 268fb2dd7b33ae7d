-- ===== src/Python/Exceptions.antt =====
-- Exceptions as values. A message is kept where the code writes one itself.
use openterms.Prelude.{◌≡◌, ◌≢◌, ◌⊎◌, inl, inr, refl, arith, String, Bool, true, false}

pub data Error : Type 0 where
  value_error : String → Error
  type_error : Error
  key_error : String → Error
  index_error : Error
  attribute_error : Error
  -- a subclass of ValueError
  canonicalization_error : String → Error
  policy_timeout : Error
  assertion_error : String → Error
  zero_division_error : Error
  overflow_error : Error

pub data Result {ℓ} (A : Type ℓ) : Type ℓ where
  ok : A → Result A
  fail : Error → Result A

-- The rest of a block runs on the value of its first part, and an exception skips it.
infixl 5 ◌>>=◌ ◌>>◌
abbrev pub ◌>>=◌ {ℓ κ} : {A : Type ℓ} {B : Type κ} → Result A → (A → Result B) → Result B
◌>>=◌ (fail raised) rest = fail raised
◌>>=◌ (ok value) rest = rest value

abbrev pub ◌>>◌ {ℓ} : {B : Type ℓ} → Result (Unit {0}) → Result B → Result B
◌>>◌ first rest = first >>= (λ _. rest)

-- if not test: raise e
abbrev pub ensure : Bool → Error → Result (Unit {0})
ensure false raised = fail raised
ensure true raised = ok tt

pub ok-injective {ℓ} : {A : Type ℓ} {x y : A} → ok x ≡ ok y → x ≡ y
ok-injective same = cc

pub fail-injective {ℓ} : {A : Type ℓ} {x y : Error} → ◌≡◌ {A = Result A} (fail x) (fail y) → x ≡ y
fail-injective same = cc

pub Result-cases {ℓ} :
    {A : Type ℓ} (r : Result A) → ((a : A) × (r ≡ ok a)) ⊎ ((e : Error) × (r ≡ fail e))
Result-cases (fail e) = inr (e, refl)
Result-cases (ok a) = inl (a, refl)

-- A block that returns has a first part that returned.
pub bind-ok {ℓ κ} :
    {A : Type ℓ} {B : Type κ} (first : Result A) (rest : A → Result B) {value : B}
    → (first >>= rest) ≡ ok value
    → (x : A) × (first ≡ ok x) × (rest x ≡ ok value)
bind-ok (fail raised) rest returned = cc
bind-ok (ok x) rest returned = (x, refl, returned)

-- A guard that was passed holds.
pub ensure-passed :
    (test : Bool) (raised : Error) {done : Unit {0}} → ensure test raised ≡ ok done → test ≡ true
ensure-passed true raised passed = refl
ensure-passed false raised passed = cc

-- A block whose rest cannot raise this exception had it from its first part.
pub bind-fail {ℓ κ} :
    {A : Type ℓ} {B : Type κ} (first : Result A) (rest : A → Result B) {raised : Error}
    → ((x : A) → rest x ≢ fail raised)
    → (first >>= rest) ≡ fail raised
    → first ≡ fail raised
bind-fail (fail x) rest never same = ground arith
bind-fail (ok x) rest never same = absurd (never x same)

pub fail_ok {ℓ} : {A : Type ℓ} {e : Error} {x : A} → ¬ (fail e ≡ ok x)
fail_ok same = cc
