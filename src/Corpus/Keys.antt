-- ===== src/Corpus/Keys.antt =====
-- The signing keys of packages/openterms-py/scripts/generate_corpus.py.
use openterms.Prelude.{ℕ, zero, suc, ◌/◌, ◌%◌, ◌^◌, String, List, [], ◌∷◌, ◌++◌, ltb, if◌then◌else◌}
use openterms.Python.{Result, ok, fail, ◌>>=◌, overflow_error, codes, insert}
use openterms.Receipts.Canonical.{Bytes}
use openterms.Receipts.Canonical.Json.{utf8}
use openterms.Receipts.Crypto.{Crypto}
use openterms.Corpus.Scenario.{KeyEntry}

-- n.to_bytes(width, "big"), for a number that fits
unfoldable pub big_endian : ℕ → ℕ → Bytes
big_endian zero n = []
big_endian (suc width) n = big_endian width (n / 256) ++ (n % 256) ∷ []

-- the bytes that `derive_key_seed` hashes
unfoldable pub derivation_input : ℕ → String → Bytes
unfolding big_endian utf8 codes
derivation_input master_seed kid =
    codes "openterms-corpus-key-derivation-v1"
    ++ (0 ∷ (big_endian 8 master_seed ++ (0 ∷ utf8 (codes kid))))

-- `derive_key_seed`
unfoldable pub derive_key_seed : Crypto → ℕ → String → Result Bytes
unfolding derivation_input
derive_key_seed crypto master_seed kid =
    if ltb master_seed (2 ^ 64)
    then ok (crypto.sha256 (derivation_input master_seed kid))
    else fail overflow_error

-- (sk, entry): the seed of the key, and the entry of the scenario
pub record SigningKey : Type 0 where
  pub seed : Bytes
  pub entry : KeyEntry

-- `make_keys`, with the dictionary so far
unfoldable pub make_keys :
    Crypto → ℕ → List KeyEntry → List (String × SigningKey) → Result (List (String × SigningKey))
unfolding derive_key_seed insert
make_keys crypto master [] keys = ok keys
make_keys crypto master (entry ∷ entries) keys = do
  seed ← derive_key_seed crypto master entry.kid
  make_keys crypto master entries (insert entry.kid (record { seed = seed; entry = entry }) keys)
