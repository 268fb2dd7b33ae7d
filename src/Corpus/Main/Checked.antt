-- ===== src/Corpus/Main/Checked.antt =====
-- The option --check of packages/openterms-py/scripts/generate_corpus.py.
use mathlib.Core.Path.{subst}
use mathlib.Core.Bool.{false≢true}
use openterms.Prelude.{
  ◌≡◌, ◌≢◌, ◌↔◌, ◌⊎◌, refl, sym, ◌∙◌, inl, inr, ℕ, String, true, false, Option, none, some, List,
  [], ◌∷◌, ◌==◌, eq_iff, Bool-cases, Option-cases,
}
use openterms.Python.{Value, ok, join_text, lookup}
use openterms.Corpus.Files.{Outside, Directory, printed_text, existing_text, mismatched}
use openterms.Corpus.Main.Run.{Inputs, run_outputs, exit_code, main}

-- The text of a file, with none where there is no file.
pub data HasText : Option String → String → Type 0 where
  there : {text : String} → HasText (some text) text
  no_file : HasText none ""

-- The directory has the files of a run: each, but for the manifest, has the JSON text of its value
-- with the end of a line behind it.
pub data Current (outside : Outside) (dir : Directory) : List (String × Value) → Type 0 where
  no_files : Current outside dir []
  any_manifest :
      {value : Value} {outs : List (String × Value)}
      → Current outside dir outs
      → Current outside dir (("manifest.json", value) ∷ outs)
  same_text :
      {name : String} {value : Value} {outs : List (String × Value)}
      → name ≢ "manifest.json"
      → HasText (lookup dir name) (join_text (outside.dumps value ∷ "\n" ∷ []))
      → Current outside dir outs
      → Current outside dir ((name, value) ∷ outs)

existing_text-HasText :
    (dir : Directory) (name : String) → HasText (lookup dir name) (existing_text dir name)
unfolding existing_text
existing_text-HasText dir name = elim (Option-cases (lookup dir name)) [
  | inl absent ↦ rw (existing_text, absent) HasText.no_file
  | inr (text, found) ↦ rw (existing_text, found) HasText.there
]

HasText-same : {o : Option String} {s t : String} → HasText o s → HasText o t → s ≡ t
HasText-same HasText.there HasText.there = refl
HasText-same HasText.no_file HasText.no_file = refl

module _ (outside : Outside) (dir : Directory) where
  cons-nil : {name : String} {names : List String} → ¬ (name ∷ names ≡ [])
  cons-nil same = cc

  mismatched-Current :
      (outs : List (String × Value)) → mismatched outside dir outs ≡ [] → Current outside dir outs
  unfolding mismatched printed_text
  mismatched-Current [] none_other = Current.no_files
  mismatched-Current ((name, value) ∷ outs) none_other =
      elim (Bool-cases (name == "manifest.json")) [
        | inl skipped ↦ rw ((eq_iff name "manifest.json").0 skipped) (
            Current.any_manifest (mismatched-Current outs (rw (mismatched, skipped) at none_other)))
        | inr compared ↦ elim (Bool-cases (printed_text outside value == existing_text dir name)) [
          | inl same ↦
              Current.same_text (named compared)
                (subst (HasText (lookup dir name))
                  (sym ((eq_iff (printed_text outside value) _).0 same))
                  (existing_text-HasText dir name))
                (mismatched-Current outs (rw (mismatched, compared, same) at none_other))
          | inr stale ↦ absurd (cons-nil (rw (mismatched, compared, stale) at none_other))
        ]
      ]
    where
      named : (name == "manifest.json") ≡ false → name ≢ "manifest.json"
      named apart same = false≢true (sym apart ∙ (eq_iff name "manifest.json").1 same)

  Current-mismatched :
      {outs : List (String × Value)} → Current outside dir outs → mismatched outside dir outs ≡ []
  unfolding mismatched printed_text
  Current-mismatched Current.no_files = refl
  Current-mismatched (Current.any_manifest rest) = Current-mismatched rest
  Current-mismatched
        (Current.same_text {name = name} {value = value} {outs = outs} other held rest) =
      elim (Bool-cases (name == "manifest.json")) [
        | inl skipped ↦ absurd (other ((eq_iff name "manifest.json").0 skipped))
        | inr compared ↦
            rw
              (
                mismatched,
                compared,
                (eq_iff (printed_text outside value) (existing_text dir name)).1
                    (HasText-same held (existing_text-HasText dir name)),
              )
              (Current-mismatched rest)
      ]

  exit_code-Current :
      (outs : List (String × Value))
      → let code : ℕ = exit_code (mismatched outside dir outs) in
        ((code ≡ 0) ⊎ (code ≡ 1)) × ((code ≡ 0) ↔ Current outside dir outs)
  exit_code-Current outs = go (mismatched outside dir outs) refl
    where
      go :
          (names : List String)
          → mismatched outside dir outs ≡ names
          → ((exit_code names ≡ 0) ⊎ (exit_code names ≡ 1))
            × ((exit_code names ≡ 0) ↔ Current outside dir outs)
      go [] same = (inl refl, (λ _. mismatched-Current outs same, λ _. refl))
      go (name ∷ names) same = (
        inr refl,
        (λ zero_code. absurd (cc), λ held. absurd (cons-nil (sym same ∙ Current-mismatched held))),
      )

-- When a run computes its values, --check ends with 0 or 1 and leaves the files as they are, and
-- it ends with 0 exactly when each file but manifest.json has the JSON text of its value with the
-- end of a line behind it, a file that is not there counting as an empty one.
pub main-check :
    (inputs : Inputs) (dir : Directory) (outs : List (String × Value))
    → run_outputs inputs ≡ ok outs
    → (code : ℕ) × (main inputs true dir ≡ ok (code, dir))
      × ((code ≡ 0) ⊎ (code ≡ 1))
      × ((code ≡ 0) ↔ Current inputs.outside dir outs)
unfolding main
main-check inputs dir outs made =
    let (either, checked) = exit_code-Current inputs.outside dir outs in
    (exit_code (mismatched inputs.outside dir outs), rw made refl, either, checked)
