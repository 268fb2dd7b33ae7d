-- ===== src/Policy/Clock/Returns.antt =====
-- What a sequence of actions that returned was made of.
use openterms.Prelude.{ℕ, ◌≡◌, refl, ap}
use openterms.Python.{Result, ok, fail, fail_ok}
use openterms.Policy.Clock.{continue, Timed, ◌>>=◌, untimed}

module _ {A B : Type 0} where
  continue-returned :
      (r : Result A) (f : A → Timed B) (n : ℕ) {b : B} {n' : ℕ}
      → continue r f n ≡ (ok b, n')
      → (a : A) × (r ≡ ok a) × (f a n ≡ (ok b, n'))
  continue-returned (ok a) f n returned = (a, refl, returned)
  continue-returned (fail e) f n returned = absurd (fail_ok (ap (λ q. q.0) returned))

  -- A sequence that returns has a first action that returned.
  pub timed-returned :
      (action : Timed A) (f : A → Timed B) (n : ℕ) {b : B} {n' : ℕ}
      → (action >>= f) n ≡ (ok b, n')
      → (a : A) × (m : ℕ) × (action n ≡ (ok a, m)) × (f a m ≡ (ok b, n'))
  timed-returned action f n returned =
      let m = (action n).1 in
      let (a, made, rest) = continue-returned (action n).0 f m returned in
      (a, m, ap (λ r. (r, m)) made, rest)

pub untimed-returned :
    {A : Type 0} (r : Result A) (n : ℕ) {a : A} {n' : ℕ} → untimed r n ≡ (ok a, n') → r ≡ ok a
untimed-returned r n returned = ap (λ q. q.0) returned
