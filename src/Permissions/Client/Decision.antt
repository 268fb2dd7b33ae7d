-- ===== src/Permissions/Client/Decision.antt =====
-- What OpenTermsClient.check decides, against a description of the permission that it reads.
use mathlib.Core.Path.{subst}
use openterms.Prelude.{
  ◌≡◌, ◌≢◌, ◌↔◌, refl, sym, ◌∙◌, ap, arith, String, Bool, true, false, Option, none, some, ◌==◌,
  Bool-cases, inl, inr,
}
use openterms.Python.{
  Value, null, bool, dict, Fields, end, field, other, ok, get, get_or, ok-injective, bind-ok,
}
use openterms.Permissions.Models.{PermissionDecision, allow, deny, Source, CheckResult}
use openterms.Permissions.Headers.{TextMethods, normalise_domain}
use openterms.Permissions.Network.{Outside, Client, World}
use openterms.Permissions.Client.{
  find_permission, raw_permission, decision_of_raw, decision_of_allowed, check_data, check, cached,
  fetch,
}

-- `Says text action permissions b`: the first entry whose key is the action, up to case, is `b`, or an
-- object whose "allowed" is `b`.
pub data Says (text : TextMethods) (action : String) (b : Bool) : Fields → Type 0 where
  plainly :
      {key : String} {rest : Fields}
      → (text.lower key == action) ≡ true
      → Says text action b (field key (bool b) rest)
  conditionally :
      {key : String} {d rest : Fields}
      → (text.lower key == action) ≡ true
      → get d "allowed" ≡ some (bool b)
      → Says text action b (field key (dict d) rest)
  further :
      {key : String} {val : Value} {rest : Fields}
      → (text.lower key == action) ≡ false
      → Says text action b rest
      → Says text action b (field key val rest)

-- the decision that a test's answer stands for
unfoldable pub decision_for : Bool → PermissionDecision
decision_for true = allow
decision_for false = deny

allowed-bool :
    (o : Option Value) (b : Bool) → decision_of_allowed o ≡ decision_for b → o ≡ some (bool b)
unfolding decision_of_allowed decision_for
allowed-bool (some (bool true)) true means = refl
allowed-bool (some (bool false)) false means = refl
allowed-bool o b means = ground arith

said_here :
    (text : TextMethods) (action : String) (b : Bool) (key : String) (val : Value) (rest : Fields)
    → (text.lower key == action) ≡ true
    → decision_of_raw val ≡ decision_for b
    → Says text action b (field key val rest)
unfolding decision_of_raw decision_for
said_here text action true key (bool true) rest same means = Says.plainly same
said_here text action false key (bool false) rest same means = Says.plainly same
said_here text action b key (dict d) rest same means =
    Says.conditionally same (allowed-bool (get d "allowed") b means)
said_here text action b key val rest same means = ground arith

null_decides : (b : Bool) → decision_of_raw null ≢ decision_for b
unfolding decision_of_raw decision_for
null_decides true same = ground arith
null_decides false same = ground arith

plain : (b : Bool) → decision_of_raw (bool b) ≡ decision_for b
unfolding decision_of_raw decision_for
plain true = refl
plain false = refl

plain_allowed : (b : Bool) → decision_of_allowed (some (bool b)) ≡ decision_for b
unfolding decision_of_allowed decision_for
plain_allowed true = refl
plain_allowed false = refl

-- The value that the loop finds decides as the description says.
find_permission-Says :
    (text : TextMethods) (action : String) (b : Bool) (permissions : Fields) (raw : Value)
    → find_permission text action permissions ≡ ok raw
    → decision_of_raw raw ≡ decision_for b
    → Says text action b permissions
unfolding find_permission
find_permission-Says text action b end raw found means =
    absurd (null_decides b (ap decision_of_raw (ok-injective found) ∙ means))
find_permission-Says text action b (field key val rest) raw found means =
    elim (Bool-cases (text.lower key == action)) [
      | inl same ↦
          said_here text action b key val rest same
            (ap decision_of_raw (ok-injective (rw (find_permission, same) at found)) ∙ means)
      | inr differ ↦ Says.further differ (
          find_permission-Says text action b rest raw (rw (find_permission, differ) at found) means)
    ]
find_permission-Says text action b (other key val rest) raw found means = ground arith

Says-find_permission :
    {text : TextMethods} {action : String} {b : Bool} {permissions : Fields} (raw : Value)
    → find_permission text action permissions ≡ ok raw
    → Says text action b permissions
    → decision_of_raw raw ≡ decision_for b
unfolding find_permission decision_of_raw decision_of_allowed decision_for
Says-find_permission {b = b} raw found (Says.plainly same) =
    sym (ap decision_of_raw (ok-injective (rw (find_permission, same) at found))) ∙ plain b
Says-find_permission {b = b} raw found (Says.conditionally same allowed) =
    sym (ap decision_of_raw (ok-injective (rw (find_permission, same) at found)))
    ∙ rw allowed (plain_allowed b)
Says-find_permission raw found (Says.further differ says) =
    Says-find_permission raw (rw (find_permission, differ) at found) says

-- `Grants text action b document`: there is a document, whose permissions are an object that says `b`.
pub data Grants (text : TextMethods) (action : String) (b : Bool) : Option Fields → Type 0 where
  grants :
      {document permissions : Fields}
      → get_or document "permissions" (dict end) ≡ dict permissions
      → Says text action b permissions
      → Grants text action b (some document)

dict-injective : {d e : Fields} → dict d ≡ dict e → d ≡ e
dict-injective same = cc

granted_by :
    {text : TextMethods} {action : String} {b : Bool} {document permissions : Fields} {raw : Value}
    → get_or document "permissions" (dict end) ≡ dict permissions
    → find_permission text action permissions ≡ ok raw
    → Grants text action b (some document)
    → decision_of_raw raw ≡ decision_for b
granted_by {text = text} {action = action} {raw = raw} looked found (Grants.grants looked' says) =
    Says-find_permission raw
      (subst (λ d. find_permission text action d ≡ ok raw) (dict-injective (sym looked ∙ looked'))
        found)
      says

raw_permission-Grants :
    (text : TextMethods) (action : String) (document : Fields) (permissions raw : Value)
    → get_or document "permissions" (dict end) ≡ permissions
    → raw_permission text action permissions ≡ ok raw
    → (b : Bool) → (decision_of_raw raw ≡ decision_for b) ↔ Grants text action b (some document)
unfolding raw_permission
raw_permission-Grants text action document (dict permissions) raw looked found b = (
  λ means. Grants.grants looked (find_permission-Says text action b permissions raw found means),
  granted_by looked found,
)
raw_permission-Grants text action document permissions raw looked found b = ground arith

no_document : {text : TextMethods} {action : String} {b : Bool} → ¬ Grants text action b none
no_document given = elim given [ ]

check_data-Grants :
    (text : TextMethods) (domain action : String) (source : Source) (data_found : Option Fields)
    (result : CheckResult)
    → check_data text domain action source data_found ≡ ok result
    → (b : Bool) → (result.decision ≡ decision_for b) ↔ Grants text (text.lower action) b data_found
unfolding check_data decision_of_raw
check_data-Grants text domain action source none result checked b = (
  λ means. absurd (null_decides b (ap (λ r. r.decision) (ok-injective checked) ∙ means)),
  λ given. absurd (no_document given),
)
check_data-Grants text domain action source (some document) result checked b =
    let (raw, found, rest) =
      bind-ok (raw_permission text (text.lower action) (get_or document "permissions" (dict end))) _
        checked in
    rw (← ap (λ r. r.decision) (ok-injective rest)) (
      raw_permission-Grants text (text.lower action) document
        (get_or document "permissions" (dict end)) raw refl found b)

-- Whatever the network, the clock and the cache are: when `check` returns, its decision is allow
-- exactly when the document that `fetch` gives has an object as its permissions in which the first key
-- that is the action, up to case, has the value True or an object whose "allowed" is True, and deny
-- exactly when it has False there.
pub check-Grants :
    (outside : Outside) (client : Client) (domain action : String) (w : World)
    (result : CheckResult)
    → (check outside client domain action w).0 ≡ ok result
    → (b : Bool)
    → (result.decision ≡ decision_for b)
      ↔ Grants outside.text
          (outside.text.lower action)
          b
          (fetch outside client
            (normalise_domain outside.text domain)
            (cached outside (normalise_domain outside.text domain) w).1).0
unfolding check
check-Grants outside client domain action w result checked b =
    check_data-Grants outside.text _ action _ _ result checked b
