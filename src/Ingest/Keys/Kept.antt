-- ===== src/Ingest/Keys/Kept.antt =====
-- The JWKS that fetch_jwks keeps and verify uses.
use openterms.Prelude.{◌≡◌, refl, sym, ap, ◌∙◌, String, Option, ◌∷◌}
use openterms.Python.{Value, null, dict, Fields, Builtins, Result, ok, fail}
use openterms.Receipts.Crypto.{Crypto}
use openterms.Receipts.Verification.{verify_receipt}
use openterms.Ingest.Service.{Outside, IngestClient, World, or_option}
use openterms.Ingest.Outcome.{returned, ◌>>=◌, lift, of_result, bind-returned, raised-returned}
use openterms.Ingest.Transport.{send}
use openterms.Ingest.Keys.{
  jwks_request, target_of, download_jwks, keep_jwks, fetch_jwks, keys_for, verify,
  verify_receipt_with,
}

returned-injective : {A : Type 0} {x y : A} → returned x ≡ returned y → x ≡ y
returned-injective same = cc

of_result-returned :
    {A : Type 0} (r : Result A) (w : World) {x : A} {w1 : World}
    → lift r w ≡ (returned x, w1)
    → (r ≡ ok x) × (w ≡ w1)
of_result-returned (ok x) w ended =
    (ap ok (returned-injective (ap (λ p. p.0) ended)), ap (λ p. p.1) ended)
of_result-returned (fail e) w ended = absurd (raised-returned (ap (λ p. p.0) ended))

-- A fetch_jwks that returns has sent one request, to the address given or else to the configured
-- one, and the client keeps what it returns.
pub fetch_jwks-kept :
    (outside : Outside) (client : IngestClient) (url : Option String) (w w' : World) {jwks : Value}
    → fetch_jwks outside client url w ≡ (returned jwks, w')
    → (target : String) × (target_of (or_option url client.jwks_url) ≡ ok target)
      × (w'.jwks ≡ jwks)
      × (w'.sent ≡ jwks_request target ∷ w.sent)
unfolding fetch_jwks keep_jwks download_jwks send
fetch_jwks-kept outside client url w w' fetched =
    let (target, w1, chosen, rest) =
      bind-returned (lift (target_of (or_option url client.jwks_url)))
        (λ target. download_jwks outside target >>= keep_jwks) w fetched in
    let (found, same_world) =
      of_result-returned (target_of (or_option url client.jwks_url)) w chosen in
    let (jwks', w2, downloaded, last) =
      bind-returned (download_jwks outside target) keep_jwks w1 rest in
    (
      target,
      found,
      ap (λ p. p.1.jwks) (sym last) ∙ returned-injective (ap (λ p. p.0) last),
      ap (λ p. p.1.sent) (sym last)
          ∙ (ap (λ p. p.1.sent) (sym downloaded)
              ∙ ap (λ v. jwks_request target ∷ v.sent) (sym same_world)),
    )

-- When fetch_jwks returned a dictionary and the JWKS that the client keeps has not changed since,
-- verify without a JWKS answers as verify_receipt does with this dictionary, and sends nothing.
pub verify-fetch_jwks :
    (outside : Outside) (py : Builtins) (crypto : Crypto) (client : IngestClient)
    (url : Option String) (receipt : Fields) (w w' w'' : World) {jwks : Fields}
    → fetch_jwks outside client url w ≡ (returned (dict jwks), w')
    → w''.jwks ≡ w'.jwks
    → verify outside py crypto client receipt null w''
      ≡ (of_result (verify_receipt py crypto receipt jwks), w'')
unfolding verify keys_for verify_receipt_with
verify-fetch_jwks outside py crypto client url receipt w w' w'' fetched same =
    let (target, _, kept, _) = fetch_jwks-kept outside client url w w' fetched in
    rw (same ∙ kept) refl
