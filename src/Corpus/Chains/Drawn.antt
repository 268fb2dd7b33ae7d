-- ===== src/Corpus/Chains/Drawn.antt =====
-- The chain that `build_receipt_payload` of packages/openterms-py/scripts/generate_corpus.py draws.
use openterms.Prelude.{
  ◌≡◌, refl, sym, ap, ◌⊎◌, inl, inr, ℕ, String, Bool, true, false, ◌&&◌, ltb, Option, none, some,
}
use openterms.Python.{Value, null, str, Fields, ok, ok-injective, get_or}
use openterms.Corpus.Scenario.{Random, draw_bytes, deterministic_hex}
use openterms.Corpus.Payload.{ChainState, extend_chain, draw_chain}

-- the parent that an entry "chain" names
unfoldable pub chain_parent : Option Fields → Value
unfolding get_or
chain_parent none = null
chain_parent (some chain) = get_or chain "parent_receipt_id" null

-- An entry that names no parent, or that of the active state before it; the state behind it is not
-- active, or has the receipt as its parent.
pub record Extends (before : ChainState) (receipt_id : String) (entry : Option Fields)
    (after : ChainState) : Type 0 where
  pub named :
      (chain_parent entry ≡ null)
      ⊎ ((before.active ≡ true) × (chain_parent entry ≡ str before.parent_receipt_id))
  pub next : (after.active ≡ false) ⊎ (after.parent_receipt_id ≡ receipt_id)

active_of : (a b : Bool) → (a && b) ≡ true → a ≡ true
active_of true b both = refl
active_of false b both = both

extend_chain-Extends :
    (rng : Random) (more : Bool) (before : ChainState) (receipt_id agent_id : String) (n : ℕ)
    {entry : Option Fields} {after : ChainState} {n' : ℕ}
    → (more ≡ true → before.active ≡ true)
    → extend_chain rng more before receipt_id agent_id n ≡ (ok (entry, after), n')
    → Extends before receipt_id entry after
unfolding extend_chain deterministic_hex draw_bytes chain_parent get_or
extend_chain-Extends rng true before receipt_id agent_id n active returned =
    let made = ok-injective (ap (λ p. p.0) returned) in
    record {
      named = inr (active refl, sym (ap (λ p. chain_parent p.0) made));
      next = inr (sym (ap (λ p. p.1.parent_receipt_id) made));
    }
extend_chain-Extends rng false before receipt_id agent_id n active returned =
    let made = ok-injective (ap (λ p. p.0) returned) in
    record {
      named = inl (sym (ap (λ p. chain_parent p.0) made));
      next = inr (sym (ap (λ p. p.1.parent_receipt_id) made));
    }

pub draw_chain-Extends :
    (rng : Random) (include : Bool) (before : ChainState) (receipt_id agent_id : String) (n : ℕ)
    {entry : Option Fields} {after : ChainState} {n' : ℕ}
    → draw_chain rng include before receipt_id agent_id n ≡ (ok (entry, after), n')
    → Extends before receipt_id entry after
unfolding draw_chain chain_parent
draw_chain-Extends rng false before receipt_id agent_id n returned =
    let made = ok-injective (ap (λ p. p.0) returned) in
    record {
      named = inl (sym (ap (λ p. chain_parent p.0) made));
      next = inl (sym (ap (λ p. p.1.active) made));
    }
draw_chain-Extends rng true before receipt_id agent_id n returned =
    extend_chain-Extends rng (before.active && ltb before.depth 3) before receipt_id agent_id n
      (active_of before.active _) returned
