-- ===== src/Receipts/Base64/RoundTrip.antt =====
-- Decoding what packages/openterms-py/openterms/receipts/_b64.py encoded.
use mathlib.Core.List.{append-nil}
use openterms.Prelude.{
  ℕ, zero, suc, ◌+◌, ◌-◌, ◌*◌, ◌/◌, ◌%◌, ◌<◌, ◌≡◌, refl, ap, ◌∙◌, arith, true, List, [], ◌∷◌, ◌++◌,
  map, length, replicate, ltb→lt,
}
use openterms.Python.{Result, ok, codes, join_text, repeat_text}
use openterms.Receipts.Crypto.{AllBytes, more_bytes}
use openterms.Receipts.Base64.{
  b64url_encode, b64url_decode, Quad, none_yet, after_one, after_two, after_three, bits, mark_of,
  a2b_step, a2b, is_ascii, prepend,
}
use openterms.Receipts.Base64.Sextets.{code_of, sextet-Character}
use openterms.Receipts.Base64.Encoded.{
  codes-append, sextets, padding, Sextets, sextets-Sextets, codes-b64url_encode,
}

-- one character of the decoder
a2b-sextet :
    (v : ℕ) (cs : List ℕ) (q : Quad)
    → v < 64
    → a2b (code_of v ∷ cs) q ≡ a2b_step (a2b cs) q (bits v)
unfolding a2b
a2b-sextet v cs q l = ap (a2b_step (a2b cs) q) ((sextet-Character v l).marks)

prepend-same :
    {b b' : ℕ} {bs : List ℕ} {r : Result (List ℕ)} → b ≡ b' → r ≡ ok bs → prepend b r ≡ ok (b' ∷ bs)
unfolding prepend
prepend-same same returned = rw (same, returned) refl

-- four characters are three bytes
a2b_group :
    (a b c : ℕ) (cs bs : List ℕ)
    → a < 256
    → b < 256
    → c < 256
    → a2b cs none_yet ≡ ok bs
    → a2b
        (code_of (a / 4)
          ∷ code_of (a % 4 * 16 + b / 16)
          ∷ code_of (b % 16 * 4 + c / 64)
          ∷ code_of (c % 64)
          ∷ cs)
        none_yet
      ≡ ok (a ∷ b ∷ c ∷ bs)
unfolding a2b_step
a2b_group a b c cs bs la lb lc rest =
    a2b-sextet (a / 4) _ none_yet (omega arith)
    ∙ (a2b-sextet (a % 4 * 16 + b / 16) _ (after_one (a / 4)) (omega arith)
        ∙ prepend-same (omega arith) (
            a2b-sextet (b % 16 * 4 + c / 64) _ (after_two _) (omega arith)
            ∙ prepend-same (omega arith) (
                a2b-sextet (c % 64) cs (after_three _) (omega arith)
                ∙ prepend-same (omega arith) rest)))

pad_three : (l : ℕ) → a2b (b'=' ∷ []) (after_three l) ≡ ok []
unfolding a2b mark_of
pad_three l = refl

a2b_two :
    (a b : ℕ)
    → a < 256
    → b < 256
    → a2b
        (code_of (a / 4) ∷ code_of (a % 4 * 16 + b / 16) ∷ code_of (b % 16 * 4) ∷ b'=' ∷ [])
        none_yet
      ≡ ok (a ∷ b ∷ [])
unfolding a2b_step
a2b_two a b la lb =
    a2b-sextet (a / 4) _ none_yet (omega arith)
    ∙ (a2b-sextet (a % 4 * 16 + b / 16) _ (after_one (a / 4)) (omega arith)
        ∙ prepend-same (omega arith) (
            a2b-sextet (b % 16 * 4) _ (after_two _) (omega arith)
            ∙ prepend-same (omega arith) (pad_three _)))

pad_two : (l : ℕ) → a2b (b'=' ∷ b'=' ∷ []) (after_two l) ≡ ok []
unfolding a2b mark_of
pad_two l = refl

a2b_one :
    (a : ℕ)
    → a < 256
    → a2b (code_of (a / 4) ∷ code_of (a % 4 * 16) ∷ b'=' ∷ b'=' ∷ []) none_yet ≡ ok (a ∷ [])
unfolding a2b_step
a2b_one a la =
    a2b-sextet (a / 4) _ none_yet (omega arith)
    ∙ (a2b-sextet (a % 4 * 16) _ (after_one (a / 4)) (omega arith)
        ∙ prepend-same (omega arith) (pad_two _))

nothing : a2b [] none_yet ≡ ok []
unfolding a2b
nothing = refl

a2b-sextets :
    (bytes : List ℕ)
    → AllBytes bytes
    → a2b (map code_of (sextets bytes) ++ padding bytes) none_yet ≡ ok bytes
unfolding sextets padding
a2b-sextets [] h = nothing
a2b-sextets (a ∷ []) (more_bytes ha h) = a2b_one a (ltb→lt a 256 ha)
a2b-sextets (a ∷ b ∷ []) (more_bytes ha (more_bytes hb h)) =
    a2b_two a b (ltb→lt a 256 ha) (ltb→lt b 256 hb)
a2b-sextets (a ∷ b ∷ c ∷ rest) (more_bytes ha (more_bytes hb (more_bytes hc h))) =
    a2b_group a b c _ rest (ltb→lt a 256 ha) (ltb→lt b 256 hb) (ltb→lt c 256 hc)
      (a2b-sextets rest h)

-- the padding that the decoder adds is the padding that the encoder took away
pad_count : ℕ → ℕ
pad_count n = (4 - n % 4) % 4

pad_step : (n : ℕ) → pad_count (suc (suc (suc (suc n)))) ≡ pad_count n
unfolding pad_count
pad_step n = omega arith

replicate-padding :
    (bytes : List ℕ)
    → replicate (pad_count (length (map code_of (sextets bytes)))) b'=' ≡ padding bytes
unfolding sextets padding pad_count
replicate-padding [] = refl
replicate-padding (a ∷ []) = refl
replicate-padding (a ∷ b ∷ []) = refl
replicate-padding (a ∷ b ∷ c ∷ rest) =
    ap (λ n. replicate n b'=') (pad_step (length (map code_of (sextets rest))))
    ∙ replicate-padding rest

codes-repeat : (n : ℕ) → codes (repeat_text n "=") ≡ replicate n b'='
unfolding repeat_text codes
codes-repeat zero = refl
codes-repeat (suc n) = codes-append "=" (repeat_text n "=") ∙ ap (λ cs. b'=' ∷ cs) (codes-repeat n)

is_ascii-Sextets :
    (vs tail : List ℕ)
    → Sextets vs
    → is_ascii tail ≡ true
    → is_ascii (map code_of vs ++ tail) ≡ true
unfolding is_ascii Sextets
is_ascii-Sextets [] tail h low = low
is_ascii-Sextets (v ∷ vs) tail h low =
    rw ((sextet-Character v h.0).ascii) (is_ascii-Sextets vs tail h.1 low)

is_ascii-padding : (bytes : List ℕ) → is_ascii (padding bytes) ≡ true
unfolding is_ascii padding
is_ascii-padding [] = refl
is_ascii-padding (a ∷ []) = refl
is_ascii-padding (a ∷ b ∷ []) = refl
is_ascii-padding (a ∷ b ∷ c ∷ rest) = is_ascii-padding rest

padded-codes :
    (bytes : List ℕ)
    → AllBytes bytes
    → codes (
        join_text (
          b64url_encode bytes
          ∷ repeat_text (pad_count (length (codes (b64url_encode bytes)))) "="
          ∷ []))
      ≡ map code_of (sextets bytes) ++ padding bytes
unfolding join_text codes
padded-codes bytes h =
    let n : ℕ = pad_count (length (codes (b64url_encode bytes))) in
    codes-append (b64url_encode bytes) _
    ∙ (rw
        (
          codes-append (repeat_text n "=") "",
          codes-repeat n,
          codes-b64url_encode bytes h,
          replicate-padding bytes,
        )
        (ap (λ t. map code_of (sextets bytes) ++ t) (append-nil (padding bytes))))

-- Decoding what b64url_encode made of bytes below 256 gives these bytes again, whatever their
-- number.
pub b64url_decode-encode :
    (bytes : List ℕ) → AllBytes bytes → b64url_decode (b64url_encode bytes) ≡ ok bytes
unfolding b64url_decode pad_count
b64url_decode-encode bytes h =
    rw
      (
        padded-codes bytes h,
        is_ascii-Sextets (sextets bytes) (padding bytes) (sextets-Sextets bytes h)
            (is_ascii-padding bytes),
      )
      (a2b-sextets bytes h)
