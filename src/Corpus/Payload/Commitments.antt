-- ===== src/Corpus/Payload/Commitments.antt =====
-- The commitments and the chain of packages/openterms-py/scripts/generate_corpus.py, under `_validate` of
-- packages/openterms-py/openterms/receipts/canonical.py.
use mathlib.Core.Path.{subst}
use openterms.Prelude.{
  ◌≡◌, refl, sym, ap, inl, inr, ℕ, suc, String, Bool, true, false, ◌&&◌, not, ltb, leb, Option,
  none, some, ◌==◌, Bool-cases, and-true, arith,
}
use openterms.Prelude.Int.{ℤ, pos, nat_abs}
use openterms.Python.{
  Value, str, int, dict, Fields, end, field, other, Builtins, Result, ok, fail_ok, ensure,
  ensure-passed, bind-ok, ok-injective, put, codes,
}
use openterms.Policy.Clock.Returns.{timed-returned}
use openterms.Receipts.Canonical.{validate, validate_fields, is_non_bmp, max_safe_integer}
use openterms.Receipts.Crypto.{hex}
use openterms.Corpus.Scenario.{Random, draw_below, deterministic_hex, draw_bytes}
use openterms.Corpus.Buckets.{Choice}
use openterms.Corpus.Payload.{
  ChainState, zero_hash, args_commitment, pre_commitment, state_commitment, tool_commitment,
  draw_commitments, extend_chain, draw_chain,
}

not-true : (b : Bool) → not b ≡ true → b ≡ false
not-true false passed = refl
not-true true passed = sym passed

module _ (py : Builtins) where
  abbrev pub Accepted : Fields → Type 0
  Accepted d = validate_fields py d ≡ ok tt

  pub int-Accepted : (n : ℤ) → leb (nat_abs n) max_safe_integer ≡ true → validate py (int n) ≡ ok tt
  unfolding validate
  int-Accepted n small = rw small refl

  pub end-Accepted : Accepted end
  unfolding validate_fields
  end-Accepted = refl

  pub str-Accepted : (s : String) → validate py (str s) ≡ ok tt
  unfolding validate
  str-Accepted s = refl

  pub dict-Accepted : (d : Fields) → Accepted d → validate py (dict d) ≡ ok tt
  unfolding validate validate_fields
  dict-Accepted d accepted = accepted

  pub field-Accepted :
      (k : String) (v : Value) (d : Fields)
      → is_non_bmp k ≡ false
      → validate py v ≡ ok tt
      → Accepted d
      → Accepted (field k v d)
  unfolding validate_fields
  field-Accepted k v d bmp valid rest = rw (bmp, valid) rest

  pub put-Accepted :
      (k : String) (v : Value) (d : Fields)
      → is_non_bmp k ≡ false
      → validate py v ≡ ok tt
      → Accepted d
      → Accepted (put k v d)
  unfolding validate_fields put
  put-Accepted k v end bmp valid accepted = field-Accepted k v end bmp valid end-Accepted
  put-Accepted k v (other j w d) bmp valid accepted = absurd (fail_ok accepted)
  put-Accepted k v (field j w d) bmp valid accepted =
      let (_, named, r1) = bind-ok (ensure (not (is_non_bmp j)) _) _ accepted in
      let (_, first, rest) = bind-ok (validate py w) _ r1 in
      let bmp_j : is_non_bmp j ≡ false = not-true _ (ensure-passed _ _ named) in
      elim (Bool-cases (j == k)) [
        | inl same ↦ rw same (field-Accepted j v d bmp_j valid rest)
        | inr differ ↦
            rw differ
              (field-Accepted j w (put k v d) bmp_j first (put-Accepted k v d bmp valid rest))
      ]

  tool_commitment-Accepted : (tool_id : Option String) → Accepted (tool_commitment tool_id)
  unfolding tool_commitment is_non_bmp codes
  tool_commitment-Accepted none = end-Accepted
  tool_commitment-Accepted (some tool_id) =
      field-Accepted "tool_id" _ _ refl (str-Accepted tool_id) end-Accepted

  returned-Accepted :
      {d e : Fields} {n n' : ℕ}
      → ◌≡◌ {A = Result Fields × ℕ} (ok d, n) (ok e, n')
      → Accepted d
      → Accepted e
  returned-Accepted returned accepted =
      subst Accepted (ok-injective (ap (λ p. p.0) returned)) accepted

  args_commitment-Accepted :
      (rng : Random) (with_args : Bool) (c : Fields) (n : ℕ) {c' : Fields} {n' : ℕ}
      → Accepted c
      → args_commitment rng with_args c n ≡ (ok c', n')
      → Accepted c'
  unfolding args_commitment deterministic_hex draw_bytes is_non_bmp codes
  args_commitment-Accepted rng false c n accepted returned = returned-Accepted returned accepted
  args_commitment-Accepted rng true c n accepted returned =
      returned-Accepted returned
        (put-Accepted "args_hash" (str (hex (rng.randbytes n 32))) c refl (str-Accepted _) accepted)

  pre_commitment-Accepted :
      (rng : Random) (with_pre : Bool) (c : Fields) (n : ℕ) {c' : Fields} {n' : ℕ}
      → Accepted c
      → pre_commitment rng with_pre c n ≡ (ok c', n')
      → Accepted c'
  unfolding pre_commitment deterministic_hex draw_bytes is_non_bmp codes
  pre_commitment-Accepted rng false c n accepted returned = returned-Accepted returned accepted
  pre_commitment-Accepted rng true c n accepted returned = returned-Accepted returned (
      let hash : Value = str (hex (rng.randbytes n 32)) in
      put-Accepted "post_state_hash" (str zero_hash) (put "pre_state_hash" hash c) refl
        (str-Accepted _) (put-Accepted "pre_state_hash" hash c refl (str-Accepted _) accepted))

  state_commitment-Accepted :
      (rng : Random) (hash : Option String) (c : Fields) (n : ℕ) {c' : Fields} {n' : ℕ}
      → Accepted c
      → state_commitment rng hash c n ≡ (ok c', n')
      → Accepted c'
  unfolding state_commitment draw_below is_non_bmp codes
  state_commitment-Accepted rng (some hash) c n accepted returned =
      returned-Accepted returned
        (put-Accepted "post_state_hash" (str hash) c refl (str-Accepted _) accepted)
  state_commitment-Accepted rng none c n accepted returned =
      pre_commitment-Accepted rng (rng.random_below n "0.15") c (suc n) accepted returned

  -- The commitments that are drawn hold texts.
  pub draw_commitments-Accepted :
      (rng : Random) (include : Bool) (choice : Choice) (n : ℕ) {c : Fields} {n' : ℕ}
      → draw_commitments rng include choice n ≡ (ok c, n')
      → Accepted c
  unfolding draw_commitments draw_below
  draw_commitments-Accepted rng false choice n returned = returned-Accepted returned end-Accepted
  draw_commitments-Accepted rng true choice n returned =
      let (c, m, drawn, rest) =
        timed-returned
          (args_commitment rng (rng.random_below n "0.5") (tool_commitment choice.tool_id)) _
          (suc n) returned in
      state_commitment-Accepted rng choice.post_state_hash c m
        (args_commitment-Accepted rng (rng.random_below n "0.5") (tool_commitment choice.tool_id)
          (suc n) (tool_commitment-Accepted choice.tool_id) drawn)
        rest

  -- an entry "chain" that `_validate` accepts, if there is one
  unfoldable pub ChainAccepted : Option Fields → Type 0
  ChainAccepted none = Unit
  ChainAccepted (some chain) = Accepted chain

  extend_chain-Accepted :
      (rng : Random) (more : Bool) (before : ChainState) (receipt_id agent_id : String) (n : ℕ)
      {entry : Option Fields} {after : ChainState} {n' : ℕ}
      → (more ≡ true → leb (nat_abs (pos before.depth)) max_safe_integer ≡ true)
      → extend_chain rng more before receipt_id agent_id n ≡ (ok (entry, after), n')
      → ChainAccepted entry
  unfolding extend_chain deterministic_hex draw_bytes ChainAccepted is_non_bmp codes
  extend_chain-Accepted rng true before receipt_id agent_id n small returned =
      subst (λ p. ChainAccepted p.0) (ok-injective (ap (λ p. p.0) returned))
        (field-Accepted "parent_receipt_id" _ _ refl (str-Accepted _) (
          field-Accepted "chain_id" _ _ refl (str-Accepted _) (
            field-Accepted "chain_depth" _ _ refl (int-Accepted (pos before.depth) (small refl))
              (field-Accepted "originating_agent" _ _ refl (str-Accepted _) end-Accepted))))
  extend_chain-Accepted rng false before receipt_id agent_id n small returned =
      subst (λ p. ChainAccepted p.0) (ok-injective (ap (λ p. p.0) returned))
        (field-Accepted "chain_id" _ _ refl (str-Accepted _) (
          field-Accepted "chain_depth" _ _ refl (int-Accepted (pos 0) refl)
            (field-Accepted "originating_agent" _ _ refl (str-Accepted _) end-Accepted)))

  shallow :
      (active : Bool) (depth : ℕ)
      → (active && ltb depth 3) ≡ true
      → leb (nat_abs (pos depth)) max_safe_integer ≡ true
  shallow active depth more = let (_, low) = and-true active (ltb depth 3) more in ground arith

  -- The entry of a chain that is drawn holds texts and a depth of at most 3.
  pub draw_chain-Accepted :
      (rng : Random) (include : Bool) (before : ChainState) (receipt_id agent_id : String) (n : ℕ)
      {entry : Option Fields} {after : ChainState} {n' : ℕ}
      → draw_chain rng include before receipt_id agent_id n ≡ (ok (entry, after), n')
      → ChainAccepted entry
  unfolding draw_chain ChainAccepted
  draw_chain-Accepted rng false before receipt_id agent_id n returned =
      subst (λ p. ChainAccepted p.0) (ok-injective (ap (λ p. p.0) returned)) tt
  draw_chain-Accepted rng true before receipt_id agent_id n returned =
      extend_chain-Accepted rng (before.active && ltb before.depth 3) before receipt_id agent_id n
        (shallow before.active before.depth) returned
