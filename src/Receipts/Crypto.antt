-- ===== src/Receipts/Crypto.antt =====
-- What packages/openterms-py/openterms/receipts calls of hashlib and of the `cryptography` package.
use openterms.Prelude.{ℕ, ◌/◌, ◌%◌, ◌≡◌, String, Bool, true, [], ◌∷◌, length, ltb}
use openterms.Python.{char_text, join_text}
use openterms.Receipts.Canonical.{Bytes}

-- Ed25519 (RFC 8032) and SHA-256. A private key stands for its seed, a public key for its raw bytes;
-- `verify` tells whether Ed25519PublicKey.verify returns without InvalidSignature.
pub record Crypto : Type 0 where
  pub sha256 : Bytes → Bytes
  pub public_key : Bytes → Bytes
  pub sign : Bytes → Bytes → Bytes
  pub verify : Bytes → Bytes → Bytes → Bool

-- every byte is below 256
pub data AllBytes : Bytes → Type 0 where
  no_bytes : AllBytes []
  more_bytes : {b : ℕ} {bs : Bytes} → ltb b 256 ≡ true → AllBytes bs → AllBytes (b ∷ bs)

-- what RFC 8032 says of the sizes, and that a signature verifies under the key that made it
pub record CryptoLaws (crypto : Crypto) : Type 0 where
  pub length-public_key : (seed : Bytes) → length (crypto.public_key seed) ≡ 32
  pub length-sign : (seed message : Bytes) → length (crypto.sign seed message) ≡ 64
  pub public_key-AllBytes : (seed : Bytes) → AllBytes (crypto.public_key seed)
  pub sign-AllBytes : (seed message : Bytes) → AllBytes (crypto.sign seed message)
  pub verify-sign :
      (seed message : Bytes)
      → crypto.verify (crypto.public_key seed) (crypto.sign seed message) message ≡ true

abbrev hex_alphabet : String
hex_alphabet = "0123456789abcdef"

-- bytes.hex()
unfoldable pub hex : Bytes → String
unfolding char_text join_text
hex [] = ""
hex (b ∷ bs) =
    join_text (char_text hex_alphabet (b / 16) ∷ char_text hex_alphabet (b % 16) ∷ hex bs ∷ [])
