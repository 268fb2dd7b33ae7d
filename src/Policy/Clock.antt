-- ===== src/Policy/Clock.antt =====
-- Reading `time.monotonic()` in policy/rules.py and policy/engine.py. The clock is the sequence of its
-- readings, and an action carries the number of readings made so far.
pub mod Meaning
pub mod Returns
use openterms.Prelude.{ℕ, suc, Option, none, some, ltb, if◌then◌else◌}
use openterms.Python.{Error, policy_timeout, Result, ok, fail}
use openterms.Policy.Types.{EvalContext}

abbrev pub Clock : Type 0
Clock = ℕ → ℕ

abbrev pub Timed : Type 0 → Type 0
Timed A = ℕ → Result A × ℕ

abbrev pub continue : {A B : Type 0} → Result A → (A → Timed B) → Timed B
continue (ok a) f n = f a n
continue (fail e) f n = (fail e, n)

infixl 5 ◌>>=◌ ◌>>◌
abbrev pub ◌>>=◌ : {A B : Type 0} → Timed A → (A → Timed B) → Timed B
◌>>=◌ m f n = let (r, n') = m n in continue r f n'

abbrev pub ◌>>◌ : {B : Type 0} → Timed (Unit {0}) → Timed B → Timed B
m >> k = m >>= λ _. k

-- an action that does not read the clock
abbrev pub untimed : {A : Type 0} → Result A → Timed A
untimed r n = (r, n)

-- if ctx.deadline_monotonic is not None and time.monotonic() > ctx.deadline_monotonic:
--     raise PolicyTimeout()
unfoldable pub check_deadline : Clock → EvalContext → Timed (Unit {0})
check_deadline clock ctx n = elim ctx.deadline [
  | none ↦ (ok tt, n)
  | some deadline ↦ (if ltb deadline (clock n) then fail policy_timeout else ok tt, suc n)
]
