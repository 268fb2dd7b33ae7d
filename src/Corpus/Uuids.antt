-- ===== src/Corpus/Uuids.antt =====
-- `deterministic_uuid_v4` of packages/openterms-py/scripts/generate_corpus.py.
use Prim.Native.Nat.{bit_and, bit_or}
use openterms.Prelude.{ℕ, zero, suc, String, [], ◌∷◌, drop, take}
use openterms.Python.{ok, join_text}
use openterms.Policy.Clock.{◌>>=◌, untimed}
use openterms.Receipts.Canonical.{Bytes}
use openterms.Receipts.Crypto.{hex}
use openterms.Corpus.Scenario.{Random, Draw, draw_bytes}

-- b[i] = f(b[i])
unfoldable pub change_at : ℕ → (ℕ → ℕ) → Bytes → Bytes
change_at i f [] = []
change_at zero f (b ∷ bs) = f b ∷ bs
change_at (suc i) f (b ∷ bs) = b ∷ change_at i f bs

-- the two assignments of `deterministic_uuid_v4`
unfoldable pub stamp : Bytes → Bytes
unfolding change_at
stamp b =
    change_at 8 (λ x. bit_or (bit_and x 0x3f) 0x80)
      (change_at 6 (λ x. bit_or (bit_and x 0x0f) 0x40) b)

-- str(uuid.UUID(bytes=b))
unfoldable pub uuid_text : Bytes → String
unfolding join_text hex
uuid_text b = join_text (
    hex (take 4 b)
    ∷ "-"
    ∷ hex (take 2 (drop 4 b))
    ∷ "-"
    ∷ hex (take 2 (drop 6 b))
    ∷ "-"
    ∷ hex (take 2 (drop 8 b))
    ∷ "-"
    ∷ hex (drop 10 b)
    ∷ [])

-- `deterministic_uuid_v4`
unfoldable pub deterministic_uuid_v4 : Random → Draw String
unfolding draw_bytes stamp uuid_text
deterministic_uuid_v4 rng = do b ← draw_bytes rng 16; untimed (ok (uuid_text (stamp b)))
