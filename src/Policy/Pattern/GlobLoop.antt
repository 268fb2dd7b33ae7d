-- ===== src/Policy/Pattern/GlobLoop.antt =====
-- `_glob_match` decides `Matches`, within its fuel.
use mathlib.Core.Bool.{false≢true}
use openterms.Prelude.{
  ℕ, zero, suc, ◌≤◌, ◌<◌, Bool, true, false, ◌≡◌, refl, sym, ◌∙◌, ◌↔◌, inl, inr, Option, none, some,
  List, [], ◌∷◌, arith, length, get_elem?, Bool-cases, Option-cases, String,
}
use openterms.Python.{codes}
use openterms.Policy.Pattern.{
  Cursor, char_is, fits, accepts, round, at_end, glob_loop, glob_run, glob_match, glob_fuel, start,
}
use openterms.Policy.Pattern.Matches.{Matches, leave, is_star, one-inv, Starred-nil}
use openterms.Policy.Pattern.Positions.{inside, outside, at, at_end-Matches}
use openterms.Policy.Pattern.Invariant.{Answers, Answers-of, Inv, star-Inv, byte-Inv, retry-Answers}

-- One round, by what stands at the cursor.
module _ (p t : List ℕ) (f : ℕ) (c : Cursor) (l : c.t_i < length t) where
  pub round-star :
      (d : ℕ)
      → get_elem? p c.p_i ≡ some d
      → is_star d ≡ true
      → glob_loop (suc f) p t c
        ≡ glob_loop f p t
            (record { p_i = suc c.p_i; t_i = c.t_i; star = some c.p_i; matched = c.t_i })
  unfolding glob_loop round char_is
  round-star d g s = ground arith

  pub round-accept :
      (d x : ℕ)
      → get_elem? p c.p_i ≡ some d
      → get_elem? t c.t_i ≡ some x
      → is_star d ≡ false
      → fits d x ≡ true
      → glob_loop (suc f) p t c ≡ glob_loop f p t (record c { p_i = suc c.p_i; t_i = suc c.t_i })
  unfolding glob_loop round char_is accepts
  round-accept d x g g' s k = ground arith

  unfoldable pub retried : Option Bool
  retried = elim c.star [
    | none ↦ some false
    | some s ↦
        glob_loop f p t
          (record { p_i = suc s; t_i = suc c.matched; star = some s; matched = suc c.matched })
  ]

  pub round-mismatch :
      (d x : ℕ)
      → get_elem? p c.p_i ≡ some d
      → get_elem? t c.t_i ≡ some x
      → is_star d ≡ false
      → fits d x ≡ false
      → glob_loop (suc f) p t c ≡ retried
  unfolding glob_loop round char_is accepts retried
  round-mismatch d x g g' s k = ground arith

  round-exhausted : get_elem? p c.p_i ≡ none → glob_loop (suc f) p t c ≡ retried
  unfolding glob_loop round char_is accepts retried
  round-exhausted g = ground arith

loop-ended :
    (p t : List ℕ) (f : ℕ) (c : Cursor)
    → length t ≤ c.t_i
    → glob_loop (suc f) p t c ≡ some (at_end p c.p_i)
unfolding glob_loop
loop-ended p t f c h = ground arith

nothing-left : {t : List ℕ} {x : ℕ} → ¬ Matches [] (x ∷ t)
nothing-left m = elim m [ ]

loop-Answers :
    (p t : List ℕ) (f left : ℕ) (c : Cursor)
    → Inv p t f left c
    → Answers (Matches p t) (glob_loop f p t c)
unfolding retried
loop-Answers p t zero left c i = absurd (omega arith)
loop-Answers p t (suc f) left c i = elim (at t c.t_i) [
  | outside g' e' far ↦
      let (sound, complete) = at_end-Matches p c.p_i i.p_bound in
      rw (loop-ended p t f c far) (
        Answers-of (Matches p t) (at_end p c.p_i)
          (λ h. i.now (rw e' (sound h)), λ g. complete (Starred-nil (rw e' at (i.later g)))))
  | inside x g' e' near ↦ elim (at p c.p_i) [
    | outside g e far ↦ rw (round-exhausted p t f c near g) (
        retry-Answers p t c c.star (loop-Answers p t f) i refl (λ m. nothing-left (rw (e, e') at m))
          near)
    | inside d g e l ↦ elim (Bool-cases (is_star d)) [
      | inl s ↦
          rw (round-star p t f c near d g s) (loop-Answers p t f left _ (star-Inv p t i e s l))
      | inr s ↦ elim (Bool-cases (fits d x)) [
        | inl k ↦
            rw (round-accept p t f c near d x g g' s k)
              (loop-Answers p t f left _ (byte-Inv p t i e e' s k l near))
        | inr k ↦ rw (round-mismatch p t f c near d x g g' s k) (
            retry-Answers p t c c.star (loop-Answers p t f) i refl
              (λ m. false≢true (sym k ∙ (one-inv s (rw (e, e') at m)).0)) near)
      ]
    ]
  ]
]

-- The run from the start, within its fuel.
glob_run-Answers : (p t : List ℕ) → Answers (Matches p t) (glob_run p t)
unfolding glob_run
glob_run-Answers p t = loop-Answers p t (glob_fuel p t) (length t) start (record {
  now = λ m. m;
  later = λ m. leave refl m;
  saved = λ m. m;
  p_bound = omega arith;
  t_bound = omega arith;
  behind = omega arith;
  room = omega arith;
  fuel = omega arith;
})

-- The loop of _glob_match ends within its fuel on every pattern and text, and _glob_match answers
-- true exactly when the pattern matches the text.
pub glob_match_iff :
    (pattern target : String)
    → (answer : Bool) × (glob_run (codes pattern) (codes target) ≡ some answer)
      × (glob_match pattern target ≡ answer)
      × ((answer ≡ true) ↔ Matches (codes pattern) (codes target))
unfolding glob_match
glob_match_iff pattern target =
    let answer = glob_run-Answers (codes pattern) (codes target) in
    elim (Option-cases (glob_run (codes pattern) (codes target))) [
      | inl h ↦ absurd (rw h at answer)
      | inr (true, h) ↦ (true, h, ground (arith, h), (λ _. rw h at answer, λ _. refl))
      | inr (false, h) ↦ (
        false,
        h,
        ground (arith, h),
        (λ e. absurd (false≢true e), λ m. absurd ((rw h at answer) m)),
      )
    ]
