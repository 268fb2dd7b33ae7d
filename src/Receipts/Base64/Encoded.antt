-- ===== src/Receipts/Base64/Encoded.antt =====
-- The characters that packages/openterms-py/openterms/receipts/_b64.py writes.
use Prim.Native.Char.{Char, code}
use Prim.Native.String
use text.Mathlib.TextLemmas.{nil-append, cons-append, cons-ne-nil}
use mathlib.Core.List.{append-nil}
use openterms.Prelude.{
  ℕ, ◌+◌, ◌*◌, ◌/◌, ◌%◌, ◌<◌, ◌≡◌, refl, ap, ◌∙◌, arith, Bool, true, false, ◌&&◌, ◌==◌, List, [],
  ◌∷◌, ◌++◌, map, eqb, ltb→lt, Bool-cases, inl, inr, eq_iff, if◌then◌else◌,
}
use openterms.Python.{codes, rstrip, join_text}
use openterms.Receipts.Crypto.{AllBytes, more_bytes}
use openterms.Receipts.Base64.{sextet_text, urlsafe_b64encode, b64url_encode}
use openterms.Receipts.Base64.Sextets.{code_of, sextet-Character}

-- texts as lists of codes

pub codes-append : (s t : String.String) → codes (String.◌++◌ s t) ≡ codes s ++ codes t
unfolding codes
codes-append String.[] t = ap codes (nil-append t)
codes-append (String.◌∷◌ c s) t =
    ap codes (cons-append c s t) ∙ ap (λ cs. code c ∷ cs) (codes-append s t)

is_empty : List ℕ → Bool
is_empty [] = true
is_empty (x ∷ xs) = false

-- rstrip on the codes
strip : ℕ → List ℕ → List ℕ
strip c [] = []
strip c (d ∷ ds) = let rest = strip c ds in if eqb d c && is_empty rest then [] else d ∷ rest

empty_text : (s : String.String) → (s == "") ≡ is_empty (codes s)
unfolding codes is_empty
empty_text String.[] = refl
empty_text (String.◌∷◌ c s) = elim (Bool-cases (String.◌∷◌ c s == "")) [
  | inl same ↦ absurd (cons-ne-nil c s ((eq_iff (String.◌∷◌ c s) "").0 same))
  | inr differ ↦ differ
]

chosen :
    (b : Bool) (d : Char) (s : String.String)
    → codes (if b then "" else String.◌∷◌ d s) ≡ (if b then [] else code d ∷ codes s)
unfolding codes
chosen true d s = refl
chosen false d s = refl

codes-rstrip : (c : ℕ) (s : String.String) → codes (rstrip c s) ≡ strip c (codes s)
unfolding codes rstrip strip
codes-rstrip c String.[] = refl
codes-rstrip c (String.◌∷◌ d s) =
    rw (rstrip, empty_text (rstrip c s), codes-rstrip c s)
      (chosen (eqb (code d) c && is_empty (strip c (codes s))) d (rstrip c s)
        ∙ rw (codes-rstrip c s) refl)

-- the six-bit values of a text of base64, and its padding
unfoldable pub sextets : List ℕ → List ℕ
sextets [] = []
sextets (a ∷ []) = a / 4 ∷ a % 4 * 16 ∷ []
sextets (a ∷ b ∷ []) = a / 4 ∷ (a % 4 * 16 + b / 16) ∷ b % 16 * 4 ∷ []
sextets (a ∷ b ∷ c ∷ rest) =
    a / 4 ∷ (a % 4 * 16 + b / 16) ∷ (b % 16 * 4 + c / 64) ∷ c % 64 ∷ sextets rest

unfoldable pub padding : List ℕ → List ℕ
padding [] = []
padding (a ∷ []) = b'=' ∷ b'=' ∷ []
padding (a ∷ b ∷ []) = b'=' ∷ []
padding (a ∷ b ∷ c ∷ rest) = padding rest

codes-sextet :
    (v : ℕ) (t : String.String)
    → v < 64
    → codes (String.◌++◌ (sextet_text v) t) ≡ code_of v ∷ codes t
codes-sextet v t l =
    codes-append (sextet_text v) t ∙ ap (λ cs. cs ++ codes t) ((sextet-Character v l).codes_of)

codes-encode :
    (bytes : List ℕ)
    → AllBytes bytes
    → codes (urlsafe_b64encode bytes) ≡ map code_of (sextets bytes) ++ padding bytes
unfolding urlsafe_b64encode join_text sextets padding codes
codes-encode [] h = refl
codes-encode (a ∷ []) (more_bytes ha h) =
    let la = ltb→lt a 256 ha in
    rw (codes-sextet (a / 4) _ (omega arith), codes-sextet (a % 4 * 16) _ (omega arith)) refl
codes-encode (a ∷ b ∷ []) (more_bytes ha (more_bytes hb h)) =
    let la = ltb→lt a 256 ha in
    let lb = ltb→lt b 256 hb in
    rw
      (
        codes-sextet (a / 4) _ (omega arith),
        codes-sextet (a % 4 * 16 + b / 16) _ (omega arith),
        codes-sextet (b % 16 * 4) _ (omega arith),
      )
      refl
codes-encode (a ∷ b ∷ c ∷ rest) (more_bytes ha (more_bytes hb (more_bytes hc h))) =
    let la = ltb→lt a 256 ha in
    let lb = ltb→lt b 256 hb in
    let lc = ltb→lt c 256 hc in
    rw
      (
        codes-sextet (a / 4) _ (omega arith),
        codes-sextet (a % 4 * 16 + b / 16) _ (omega arith),
        codes-sextet (b % 16 * 4 + c / 64) _ (omega arith),
        codes-sextet (c % 64) _ (omega arith),
        codes-append (urlsafe_b64encode rest) "",
        codes-encode rest h,
      )
      (ap
        (λ t.
          code_of (a / 4)
          ∷ code_of (a % 4 * 16 + b / 16)
          ∷ code_of (b % 16 * 4 + c / 64)
          ∷ code_of (c % 64)
          ∷ t)
        (append-nil _))

-- every value is below 64
unfoldable pub Sextets : List ℕ → Type 0
Sextets [] = Unit {0}
Sextets (v ∷ vs) = (v < 64) × Sextets vs

pub sextets-Sextets : (bytes : List ℕ) → AllBytes bytes → Sextets (sextets bytes)
unfolding sextets Sextets
sextets-Sextets [] h = tt
sextets-Sextets (a ∷ []) (more_bytes ha h) =
    let la = ltb→lt a 256 ha in (omega arith, (omega arith, tt))
sextets-Sextets (a ∷ b ∷ []) (more_bytes ha (more_bytes hb h)) =
    let la = ltb→lt a 256 ha in
    let lb = ltb→lt b 256 hb in (omega arith, (omega arith, (omega arith, tt)))
sextets-Sextets (a ∷ b ∷ c ∷ rest) (more_bytes ha (more_bytes hb (more_bytes hc h))) =
    let la = ltb→lt a 256 ha in
    let lb = ltb→lt b 256 hb in
    let lc = ltb→lt c 256 hc in
    (omega arith, (omega arith, (omega arith, (omega arith, sextets-Sextets rest h))))

strip-padding : (bytes : List ℕ) → strip b'=' (padding bytes) ≡ []
unfolding strip padding is_empty
strip-padding [] = refl
strip-padding (a ∷ []) = refl
strip-padding (a ∷ b ∷ []) = refl
strip-padding (a ∷ b ∷ c ∷ rest) = strip-padding rest

strip-Sextets :
    (vs tail : List ℕ)
    → Sextets vs
    → strip b'=' tail ≡ []
    → strip b'=' (map code_of vs ++ tail) ≡ map code_of vs
unfolding strip Sextets
strip-Sextets [] tail h gone = gone
strip-Sextets (v ∷ vs) tail h gone =
    rw (strip, (sextet-Character v h.0).no_pad, strip-Sextets vs tail h.1 gone) refl

pub codes-b64url_encode :
    (bytes : List ℕ) → AllBytes bytes → codes (b64url_encode bytes) ≡ map code_of (sextets bytes)
unfolding b64url_encode
codes-b64url_encode bytes h =
    codes-rstrip b'=' (urlsafe_b64encode bytes)
    ∙ (ap (strip b'=') (codes-encode bytes h)
        ∙ strip-Sextets (sextets bytes) (padding bytes) (sextets-Sextets bytes h)
            (strip-padding bytes))
