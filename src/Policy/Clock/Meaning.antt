-- ===== src/Policy/Clock/Meaning.antt =====
-- What an action that reads the clock means: the result that it has when no deadline is set. Under a
-- deadline it has that result, or it times out.
use openterms.Prelude.{ℕ, ◌≡◌, ◌≢◌, refl, ◌⊎◌, inl, inr, none, arith}
use openterms.Python.{◌>>=◌ as bind_result}
use openterms.Python.{policy_timeout, Result, ok, fail}
use openterms.Policy.Types.{EvalContext}
use openterms.Policy.Clock.{Clock, Timed, ◌>>=◌, untimed, check_deadline}

-- any error but PolicyTimeout
pub record NotTimeout {A : Type 0} (r : Result A) : Type 0 where
  pub is_not : r ≢ fail policy_timeout

pub NotTimeout-ok : {A : Type 0} (a : A) → NotTimeout (ok a)
NotTimeout-ok a = record { is_not = λ e. cc e }

abbrev pub without_deadline : EvalContext → EvalContext
without_deadline ctx = record ctx { deadline = none }

abbrev pub Exactly : {A : Type 0} → Timed A → Result A → Type 0
Exactly m r = (n : ℕ) → m n ≡ (r, n)

abbrev pub Approximates : {A : Type 0} → Timed A → Result A → Type 0
Approximates m r = (n : ℕ) → ((m n).0 ≡ r) ⊎ ((m n).0 ≡ fail policy_timeout)

-- `m` reads the clock for the deadline `ctx` only, and its meaning is `r`.
pub record Means {A : Type 0} (m : EvalContext → Timed A) (ctx : EvalContext) (r : Result A)
    : Type 0 where
  pub exact : Exactly (m (without_deadline ctx)) r
  pub approx : Approximates (m ctx) r

pub Means-untimed : {A : Type 0} (ctx : EvalContext) (r : Result A) → Means (λ _. untimed r) ctx r
Means-untimed ctx r = record { exact = λ n. refl; approx = λ n. inl refl }

pub Means-check_deadline :
    (clock : Clock) (ctx : EvalContext) → Means (check_deadline clock) ctx (ok tt)
unfolding check_deadline
Means-check_deadline clock ctx = record { exact = λ n. refl; approx = λ n. ground arith }

module _ {A B : Type 0} (ctx : EvalContext) where
  Approximates-continue :
      (p : Result A × ℕ) (r : Result A) (f : A → Timed B) (g : A → Result B)
      → (p.0 ≡ r) ⊎ (p.0 ≡ fail policy_timeout)
      → ((a : A) → Approximates (f a) (g a))
      → ((((λ _. p) >>= f) 0).0 ≡ bind_result r g) ⊎ ((((λ _. p) >>= f) 0).0 ≡ fail policy_timeout)
  Approximates-continue (ok a, n) (ok b) f g (inl e) k = ground (arith, k a n)
  Approximates-continue (ok a, n) (fail e') f g (inl e) k = absurd (cc)
  Approximates-continue (ok a, n) r f g (inr e) k = absurd (cc)
  Approximates-continue (fail x, n) r f g (inr e) k = inr (ground arith)
  Approximates-continue (fail x, n) (ok b) f g (inl e) k = absurd (cc)
  Approximates-continue (fail x, n) (fail y) f g (inl e) k = inl (ground arith)

  pub Means-bind :
      {m : EvalContext → Timed A} {r : Result A} (f : EvalContext → A → Timed B) (g : A → Result B)
      → Means m ctx r
      → ((a : A) → Means (λ c. f c a) ctx (g a))
      → Means (λ c. m c >>= f c) ctx (bind_result r g)
  Means-bind {m} {r = ok a} f g km kf = record {
    exact = λ n. rw (km.exact n) ((kf a).exact n);
    approx =
        λ n. Approximates-continue (m ctx n) (ok a) (f ctx) g (km.approx n) (λ b. (kf b).approx);
  }
  Means-bind {m} {r = fail e} f g km kf = record {
    exact = λ n. rw (km.exact n);
    approx =
        λ n. Approximates-continue (m ctx n) (fail e) (f ctx) g (km.approx n) (λ b. (kf b).approx);
  }

module _ {A B : Type 0} where
  pub NotTimeout-bind :
      (r : Result A) (g : A → Result B)
      → NotTimeout r
      → ((a : A) → NotTimeout (g a))
      → NotTimeout (bind_result r g)
  NotTimeout-bind (ok a) g h k = k a
  NotTimeout-bind (fail x) g h k = record { is_not = λ e. h.is_not (ground arith) }
