-- ===== src/Samples.antt =====
-- Stand-ins for the libraries that the SDK calls, for the examples of every part.
use openterms.Prelude.{
  ℕ, zero, suc, ◌%◌, String, ◌≡◌, ◌≢◌, none, some, refl, arith, true, [], ◌∷◌, length, ltb, eq_iff,
}
use openterms.Python.{
  Value, null, float, str, dict, Fields, end, field, Builtins, ok, fail_ok, is_text,
}
use openterms.Receipts.Canonical.{Bytes}
use openterms.Receipts.Crypto.{Crypto, CryptoLaws, AllBytes, no_bytes, more_bytes}
use openterms.Receipts.RoundTrip.{TextsEqual}
use openterms.Receipts.Canonical.{validate}
use openterms.Receipts.Signing.{seed_bytes, coerce_private_key}
use openterms.Ingest.Service.{response, Outside, IngestClient, World}

abbrev pub copies : ℕ → ℕ → Bytes
copies zero b = []
copies (suc n) b = b ∷ copies n b

-- a stand-in for hashlib and cryptography, enough to run the examples
abbrev pub toy : Crypto
toy = record {
  sha256 = λ bytes. length bytes ∷ [];
  public_key = λ seed. copies 32 7;
  sign = λ seed message. copies 64 (length message % 256);
  verify = λ key signature message. true;
}

-- renderings of a few values, enough to run the examples
abbrev pub some_str : Value → String
some_str (str s) = s
some_str _ = "…"

abbrev pub plain : Builtins
plain = record {
  str_of = some_str;
  repr_of = some_str;
  type_name = some_str;
  sorted_of = ok;
  equals = λ v w. is_text v (some_str w);
}

copies-AllBytes : (n b : ℕ) → ltb b 256 ≡ true → AllBytes (copies n b)
copies-AllBytes zero b low = no_bytes
copies-AllBytes (suc n) b low = more_bytes low (copies-AllBytes n b low)

pub toy-CryptoLaws : CryptoLaws toy
toy-CryptoLaws = record {
  length-public_key = λ seed. refl;
  length-sign = λ seed message. refl;
  public_key-AllBytes = λ seed. copies-AllBytes 32 7 refl;
  sign-AllBytes = λ seed message. copies-AllBytes 64 (length message % 256) (ground arith);
  verify-sign = λ seed message. refl;
}

pub plain-TextsEqual : TextsEqual plain
unfolding is_text
plain-TextsEqual = record { same = λ s. (eq_iff s s).1 refl }

-- the key of the examples
pub key_one : coerce_private_key plain (seed_bytes (copies 32 1)) ≡ ok (copies 32 1)
unfolding coerce_private_key
key_one = refl

abbrev pub reachable : Outside
reachable = record {
  urlopen = λ m request. response 201 [];
  utcnow = λ m. "2026-01-01T00:00:00.000000Z";
  uuid4 = λ m. "00000000-0000-4000-8000-000000000000";
  loads = λ text. some (dict (field "hash" (str "h") (field "ingested_at" (str "now") end)));
  dumps = λ d. "{…}";
  decode = λ bytes. some "{…}";
  decode_replace = λ bytes. "{…}";
  number_text = λ n. "…";
  http_error_text = λ n. "HTTP Error";
}

abbrev pub acme : IngestClient
acme = record {
  base_url = "http://localhost:3000";
  workspace_id = "w";
  key_id = "k1";
  private_key = seed_bytes (copies 32 1);
  agent_id = some "bot";
  api_key = none;
  jwks_url = none;
}

abbrev pub idle : World
idle = record { jwks = null; moment = 0; sent = [] }

abbrev pub half : Fields
half = field "price" (float "0.5") end

pub half_refused : validate plain (dict half) ≢ ok tt
unfolding validate
half_refused passed = fail_ok passed
