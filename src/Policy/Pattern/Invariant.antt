-- ===== src/Policy/Pattern/Invariant.antt =====
-- The invariant of the first loop of `_glob_match`, and that each of its branches keeps it.
use openterms.Prelude.{
  ℕ, zero, suc, ◌+◌, ◌*◌, ◌≤◌, ◌<◌, Bool, true, false, ◌≡◌, refl, ◌↔◌, Option, none, some, List,
  ◌∷◌, arith, length, drop,
}
use openterms.Policy.Pattern.{Cursor, fits, glob_loop}
use openterms.Policy.Pattern.Matches.{
  Matches, one, leave, is_star, Starred, one-inv, of-Starred, Starred-take, Starred-twice,
  Starred-drop,
}
use openterms.Policy.Pattern.Positions.{inside, outside, at}

-- The run has ended with an answer, and the answer to `G` is right.
abbrev pub Answers : Type 0 → Option Bool → Type 0
Answers G none = ⊥
Answers G (some true) = G
Answers G (some false) = ¬ G

pub Answers-of : (G : Type 0) (b : Bool) → (b ≡ true) ↔ G → Answers G (some b)
Answers-of G true e = e.0 refl
Answers-of G false e = λ g. absurd (cc (e.1 g))

module _ (p t : List ℕ) where
  abbrev pub From : ℕ → ℕ → Type 0
  From i j = Matches (drop i p) (drop j t)

  abbrev pub G : Type 0
  G = Matches p t

  -- What the saved star means: the question is whether it can take up the text from `matched`, and a
  -- match behind it at `matched` is a match from the cursor.
  abbrev pub Saved : Option ℕ → Cursor → Type 0
  Saved none c = G → From c.p_i c.t_i
  Saved (some s) c =
      (G ↔ Starred (drop (suc s) p) (drop c.matched t))
      × (From (suc s) c.matched → From c.p_i c.t_i)
      × (s < length p)

  -- `left` bounds the text that the saved star has not taken yet.
  pub record Inv (f left : ℕ) (c : Cursor) : Type 0 where
    pub now : From c.p_i c.t_i → G
    pub later : G → Starred (drop c.p_i p) (drop c.t_i t)
    pub saved : Saved c.star c
    pub p_bound : c.p_i ≤ length p
    pub t_bound : c.t_i ≤ length t
    pub behind : c.matched ≤ c.t_i
    pub room : length t ≤ c.matched + left
    pub fuel : left * (length p + 1) + length p < f + c.p_i

  pub star-Inv :
      {f left : ℕ} {c : Cursor} {d : ℕ}
      → Inv (suc f) left c
      → drop c.p_i p ≡ d ∷ drop (suc c.p_i) p
      → is_star d ≡ true
      → c.p_i < length p
      → Inv f left (record { p_i = suc c.p_i; t_i = c.t_i; star = some c.p_i; matched = c.t_i })
  star-Inv {f} {left} {c} {d} i e s l =
      let asked = λ (g : G). Starred-twice s (rw e at (i.later g)) in
      let answered =
        λ (m : Starred (drop (suc c.p_i) p) (drop c.t_i t)). i.now (rw e (of-Starred s m)) in
      record {
        now = λ m. answered (leave refl m);
        later = asked;
        saved = ((asked, answered), λ m. m, l);
        p_bound = omega arith;
        t_bound = omega arith;
        behind = omega arith;
        room = omega arith;
        fuel = omega arith;
      }

  Saved-byte :
      {d x : ℕ} (o : Option ℕ) (c : Cursor)
      → Saved o c
      → drop c.p_i p ≡ d ∷ drop (suc c.p_i) p
      → drop c.t_i t ≡ x ∷ drop (suc c.t_i) t
      → is_star d ≡ false
      → Saved o (record c { p_i = suc c.p_i; t_i = suc c.t_i })
  Saved-byte none c saved e e' s = λ g. (one-inv s (rw (e, e') at (saved g))).1
  Saved-byte (some k) c (asked, down, l) e e' s =
      (asked, λ m. (one-inv s (rw (e, e') at (down m))).1, l)

  pub byte-Inv :
      {f left : ℕ} {c : Cursor} {d x : ℕ}
      → Inv (suc f) left c
      → drop c.p_i p ≡ d ∷ drop (suc c.p_i) p
      → drop c.t_i t ≡ x ∷ drop (suc c.t_i) t
      → is_star d ≡ false
      → fits d x ≡ true
      → c.p_i < length p
      → c.t_i < length t
      → Inv f left (record c { p_i = suc c.p_i; t_i = suc c.t_i })
  byte-Inv {f} {left} {c} {d} {x} i e e' s k l l' = record {
    now = λ m. i.now (rw (e, e') (one s k m));
    later = λ g. Starred-drop (drop (suc c.t_i) t) s (rw (e, e') at (i.later g));
    saved = Saved-byte c.star c i.saved e e' s;
    p_bound = omega arith;
    t_bound = omega arith;
    behind = omega arith;
    room = omega arith;
    fuel = omega arith;
  }

  -- The last two branches of the loop: after a mismatch the saved star takes one character more.
  pub retry-Answers :
      {f left : ℕ} (c : Cursor) (o : Option ℕ)
      → ((left' : ℕ) (c' : Cursor) → Inv f left' c' → Answers G (glob_loop f p t c'))
      → Inv (suc f) left c
      → c.star ≡ o
      → ¬ From c.p_i c.t_i
      → c.t_i < length t
      → Answers G (elim o [
        | none ↦ some false
        | some s ↦
            glob_loop f p t
              (record { p_i = suc s; t_i = suc c.matched; star = some s; matched = suc c.matched })
      ])
  retry-Answers {f} {left} c none ih i e blocked l = λ g. blocked ((rw e at i.saved) g)
  retry-Answers {f} {left = zero} c (some s) ih i e blocked l = absurd (omega arith)
  retry-Answers {f} {left = suc left} c (some s) ih i e blocked l = elim (at t c.matched) [
    | outside _ _ far ↦ absurd (omega arith)
    | inside x _ e' near ↦
        let saved : Saved (some s) c = rw e at i.saved in
        let asked =
          λ (g : G). Starred-take (rw e' at (saved.0.0 g)) (λ m. blocked (saved.1 (rw e' m))) in
        let answered = λ (m : Starred (drop (suc s) p) (drop (suc c.matched) t)).
          saved.0.1 (rw e' (Matches.take refl m)) in
        let l' = saved.2 in
        ih left _ (record {
          now = λ m. answered (leave refl m);
          later = asked;
          saved = ((asked, answered), λ m. m, l');
          p_bound = omega arith;
          t_bound = omega arith;
          behind = omega arith;
          room = omega arith;
          fuel = omega arith;
        })
  ]
