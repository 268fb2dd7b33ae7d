-- ===== src/Policy/Pattern/Matches.antt =====
-- What it means for a text to match a glob pattern: `*` is any run of characters, `?` is any one
-- character, and any other character is itself. There is no search order in it.
use openterms.Prelude.{
  ℕ, Bool, true, false, ◌&&◌, ◌≡◌, refl, ◌↔◌, List, [], ◌∷◌, eqb, arith, Bool-cases, inl, inr,
}
use openterms.Policy.Pattern.{fits}

abbrev pub is_star : ℕ → Bool
is_star d = eqb d b'*'

pub data Matches : List ℕ → List ℕ → Type 0 where
  empty : Matches [] []
  one :
      {d c : ℕ} {p t : List ℕ}
      → is_star d ≡ false
      → fits d c ≡ true
      → Matches p t
      → Matches (d ∷ p) (c ∷ t)
  leave : {d : ℕ} {p t : List ℕ} → is_star d ≡ true → Matches p t → Matches (d ∷ p) t
  take : {d c : ℕ} {p t : List ℕ} → is_star d ≡ true → Matches (d ∷ p) t → Matches (d ∷ p) (c ∷ t)

abbrev pub Starred : List ℕ → List ℕ → Type 0
Starred p t = Matches (b'*' ∷ p) t

pub one-inv :
    {d c : ℕ} {p t : List ℕ}
    → is_star d ≡ false
    → Matches (d ∷ p) (c ∷ t)
    → (fits d c ≡ true) × Matches p t
one-inv h (one _ f m) = (f, m)
one-inv h (leave s m) = absurd (cc)
one-inv h (take s m) = absurd (cc)

-- a star of any spelling is the star
pub Starred-of : {d : ℕ} {p t : List ℕ} → is_star d ≡ true → Matches (d ∷ p) t → Starred p t
Starred-of h (one s _ _) = absurd (cc)
Starred-of h (leave _ m) = leave refl m
Starred-of h (take _ m) = take refl (Starred-of h m)

pub of-Starred : {d : ℕ} {p t : List ℕ} → is_star d ≡ true → Starred p t → Matches (d ∷ p) t
of-Starred h (one s _ _) = absurd (cc)
of-Starred h (leave _ m) = leave h m
of-Starred h (take _ m) = take h (of-Starred h m)

pub Starred-nil : {p : List ℕ} → Starred p [] → Matches p []
Starred-nil (leave _ m) = m

pub Starred-take : {p t : List ℕ} {c : ℕ} → Starred p (c ∷ t) → ¬ Matches p (c ∷ t) → Starred p t
Starred-take (one s _ _) n = absurd (cc)
Starred-take (leave _ m) n = absurd (n m)
Starred-take (take _ m) n = m

pub Starred-twice : {d : ℕ} {p t : List ℕ} → is_star d ≡ true → Starred (d ∷ p) t → Starred p t
Starred-twice h (one s _ _) = absurd (cc)
Starred-twice h (leave _ m) = Starred-of h m
Starred-twice h (take _ m) = take refl (Starred-twice h m)

not-Matches-nil : {d : ℕ} {p : List ℕ} → is_star d ≡ false → ¬ Matches (d ∷ p) []
not-Matches-nil h (leave s m) = cc

-- Where a character of the pattern has matched, what follows it begins after the first character.
pub Starred-drop :
    {d c : ℕ} {p : List ℕ} (t : List ℕ) → is_star d ≡ false → Starred (d ∷ p) (c ∷ t) → Starred p t
Starred-drop t h (one s _ _) = absurd (cc)
Starred-drop t h (leave _ (one _ _ m)) = leave refl m
Starred-drop t h (leave _ (leave s m)) = absurd (cc)
Starred-drop t h (leave _ (take s m)) = absurd (cc)
Starred-drop [] h (take _ (leave _ m)) = absurd (not-Matches-nil h m)
Starred-drop (c ∷ t) h (take _ m) = take refl (Starred-drop t h m)

unfoldable pub only_stars : List ℕ → Bool
only_stars [] = true
only_stars (d ∷ p) = is_star d && only_stars p

pub only_stars-Matches : (p : List ℕ) → (only_stars p ≡ true) ↔ Matches p []
unfolding only_stars
only_stars-Matches [] = (λ _. empty, λ _. refl)
only_stars-Matches (d ∷ p) = elim (Bool-cases (is_star d)) [
  | inl h ↦ (
    λ e. leave h ((only_stars-Matches p).0 (ground arith)),
    λ m. ground (arith, (only_stars-Matches p).1 (Starred-nil (Starred-of h m))),
  )
  | inr h ↦ (λ e. absurd (ground arith), λ m. absurd (not-Matches-nil h m))
]
