-- ===== src/Receipts/Base64.antt =====
-- packages/openterms-py/openterms/receipts/_b64.py, over the standard library's base64 module, whose
-- encoder and lenient decoder (binascii.a2b_base64) are written out.
pub mod Sextets
pub mod Encoded
pub mod RoundTrip
use openterms.Prelude.{
  ℕ, ◌+◌, ◌-◌, ◌*◌, ◌/◌, ◌%◌, String, Bool, true, ◌&&◌, ◌||◌, Option, none, some, List, [], ◌∷◌,
  length, leb, eqb, if◌then◌else◌, ltb,
}
use openterms.Python.{
  value_error, Result, ok, fail, ◌>>=◌, ◌>>◌, ensure, codes, rstrip, char_text, repeat_text,
  join_text,
}

abbrev pub alphabet : String
alphabet = "ABCDEFGHIJKLMNOPQRSTUVWXYZabcdefghijklmnopqrstuvwxyz0123456789-_"

-- the character of a six-bit value
unfoldable pub sextet_text : ℕ → String
unfolding char_text
sextet_text v = char_text alphabet v

-- base64.urlsafe_b64encode(data).decode("ascii")
unfoldable pub urlsafe_b64encode : List ℕ → String
unfolding join_text sextet_text
urlsafe_b64encode [] = ""
urlsafe_b64encode (a ∷ []) = join_text (sextet_text (a / 4) ∷ sextet_text (a % 4 * 16) ∷ "==" ∷ [])
urlsafe_b64encode (a ∷ b ∷ []) =
    join_text (
      sextet_text (a / 4) ∷ sextet_text (a % 4 * 16 + b / 16) ∷ sextet_text (b % 16 * 4) ∷ "=" ∷ [])
urlsafe_b64encode (a ∷ b ∷ c ∷ data_rest) = join_text (
    sextet_text (a / 4)
    ∷ sextet_text (a % 4 * 16 + b / 16)
    ∷ sextet_text (b % 16 * 4 + c / 64)
    ∷ sextet_text (c % 64)
    ∷ urlsafe_b64encode data_rest
    ∷ [])

unfoldable pub b64url_encode : List ℕ → String
unfolding urlsafe_b64encode rstrip
b64url_encode bytes = rstrip b'=' (urlsafe_b64encode bytes)

-- the six-bit value of a character, after the translation of "-_" to "+/"
unfoldable pub sextet_of : ℕ → Option ℕ
sextet_of c =
    if leb b'A' c && leb c b'Z'
    then some (c - b'A')
    else if leb b'a' c && leb c b'z'
    then some (c - b'a' + 26)
    else if leb b'0' c && leb c b'9'
    then some (c - b'0' + 52)
    else if eqb c b'+' || eqb c b'-'
    then some 62
    else if eqb c b'/' || eqb c b'_'
    then some 63
    else none

-- The decoder's position in a group of four characters, with the bits that are left over. A first pad
-- behind two characters is remembered.
pub data Quad : Type 0 where
  none_yet : Quad
  after_one : ℕ → Quad
  after_two : ℕ → Quad
  after_two_padded : ℕ → Quad
  after_three : ℕ → Quad

-- what the end of the input, or a pad, means
at_input_end : Quad → Result (List ℕ)
at_input_end none_yet = ok []
at_input_end (after_one _) = fail (value_error "Invalid base64-encoded string")
at_input_end _ = fail (value_error "Incorrect padding")

unfoldable pub prepend : ℕ → Result (List ℕ) → Result (List ℕ)
prepend b r = do bs ← r; ok (b ∷ bs)

-- what a character is to the decoder
pub data Mark : Type 0 where
  pad : Mark
  skip : Mark
  bits : ℕ → Mark

unfoldable pub mark_of : ℕ → Mark
unfolding sextet_of
mark_of c = if eqb c b'=' then pad else elim (sextet_of c) [ none ↦ skip | some v ↦ bits v ]

-- binascii.a2b_base64, one character: `rest` decodes what follows it
unfoldable pub a2b_step : (Quad → Result (List ℕ)) → Quad → Mark → Result (List ℕ)
unfolding prepend
a2b_step rest none_yet pad = rest none_yet
a2b_step rest (after_one l) pad = rest (after_one l)
a2b_step rest (after_two l) pad = rest (after_two_padded l)
a2b_step rest (after_two_padded l) pad = ok []
a2b_step rest (after_three l) pad = ok []
a2b_step rest q skip = rest q
a2b_step rest none_yet (bits v) = rest (after_one v)
a2b_step rest (after_one l) (bits v) = prepend (l * 4 + v / 16) (rest (after_two (v % 16)))
a2b_step rest (after_two l) (bits v) = prepend (l * 16 + v / 4) (rest (after_three (v % 4)))
a2b_step rest (after_two_padded l) (bits v) = prepend (l * 16 + v / 4) (rest (after_three (v % 4)))
a2b_step rest (after_three l) (bits v) = prepend (l * 64 + v) (rest none_yet)

-- binascii.a2b_base64: characters outside the alphabet are skipped
unfoldable pub a2b : List ℕ → Quad → Result (List ℕ)
unfolding at_input_end a2b_step mark_of
a2b [] q = at_input_end q
a2b (c ∷ cs) q = a2b_step (a2b cs) q (mark_of c)

unfoldable pub is_ascii : List ℕ → Bool
is_ascii [] = true
is_ascii (c ∷ cs) = ltb c 128 && is_ascii cs

unfoldable pub b64url_decode : String → Result (List ℕ)
unfolding a2b is_ascii codes join_text repeat_text
b64url_decode text =
    let pad_len = (4 - length (codes text) % 4) % 4 in
    let padded = codes (join_text (text ∷ repeat_text pad_len "=" ∷ [])) in
    ensure (is_ascii padded) (value_error "not ASCII") >> a2b padded none_yet
