-- ===== src/Ingest/Outcome.antt =====
-- How a call of the ingest client ends, and calls in sequence. What a call did to the world stays done
-- when it raises.
use openterms.Prelude.{ℕ, String, Option, ◌≡◌, ap, refl}
use openterms.Python.{Value, Error, Result, ok, fail}
use openterms.Ingest.Service.{World}

-- `IngestError`, with None for a code that the service did not send
pub record IngestError : Type 0 where
  pub message : String
  pub status : Option ℕ
  pub body : Option String
  pub code : Value

pub data Outcome (A : Type 0) : Type 0 where
  returned : A → Outcome A
  raised : Error → Outcome A
  ingest_failed : IngestError → Outcome A

abbrev pub Call : Type 0 → Type 0
Call A = World → Outcome A × World

infixl 5 ◌>>=◌
abbrev pub ◌>>=◌ : {A B : Type 0} → Call A → (A → Call B) → Call B
◌>>=◌ first rest w =
    let (outcome, w') = first w in
    elim outcome [
      | returned value ↦ rest value w'
      | raised e ↦ (raised e, w')
      | ingest_failed e ↦ (ingest_failed e, w')
    ]

abbrev pub of_result : {A : Type 0} → Result A → Outcome A
of_result (ok value) = returned value
of_result (fail e) = raised e

-- a call that only computes
abbrev pub lift : {A : Type 0} → Result A → Call A
lift r w = (of_result r, w)

pub raised-returned : {A : Type 0} {x : A} {e : Error} → ¬ (raised e ≡ returned x)
raised-returned same = cc

failed-returned : {A : Type 0} {x : A} {e : IngestError} → ¬ (ingest_failed e ≡ returned x)
failed-returned same = cc

-- A sequence that returns has a first part that returned.
pub bind-returned :
    {A B : Type 0} (first : Call A) (rest : A → Call B) (w : World) {value : B} {w' : World}
    → (first >>= rest) w ≡ (returned value, w')
    → (x : A) × (w1 : World) × (first w ≡ (returned x, w1)) × (rest x w1 ≡ (returned value, w'))
bind-returned {A = A} {B = B} first rest w ended = go (first w) ended
  where
    go :
        (p : Outcome A × World) {value : B} {w' : World}
        → elim p.0 [
          | returned value ↦ rest value p.1
          | raised e ↦ (raised e, p.1)
          | ingest_failed e ↦ (ingest_failed e, p.1)
        ]
          ≡ (returned value, w')
        → (x : A) × (w1 : World) × (p ≡ (returned x, w1)) × (rest x w1 ≡ (returned value, w'))
    go (returned x, w1) ended = (x, w1, refl, ended)
    go (raised e, w1) ended = absurd (raised-returned (ap (λ q. q.0) ended))
    go (ingest_failed e, w1) ended = absurd (failed-returned (ap (λ q. q.0) ended))
