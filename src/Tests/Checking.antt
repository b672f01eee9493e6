-- ===== src/Tests/Checking.antt =====
-- Examples for the theorems on the single checks of the verifier, and on the registry's client.
use notation_go_lib.Base.{◌≤◌, String, ◌≡◌, ◌⊎◌, refl, true, some, List, [], ◌∷◌, ok, All, Any, Any}
use notation_go_lib.Slices.{contains}
use notation_go_lib.Pkix.{StringMap, parse_distinguished_name}
use notation_go_lib.TrustPolicy.Statement.{wildcard}
use notation_go_lib.Verifier.Types.{Certificate, RevocationStatus, good, revoked, unknown, x509}
use notation_go_lib.Verifier.Revocation.{revocation_final_result, revocation_error, pair_up}
use notation_go_lib.Verifier.Revocation.Laws.{
  AllClear, revocation_final_result_lem, revocation_error_iff,
}
use notation_go_lib.Verifier.Identity.{verify_x509_trusted_identities}
use notation_go_lib.Verifier.Identity.Laws.{Trusts, verify_x509_trusted_identities_sound}
use notation_go_lib.Verifier.Stores.{load_x509_trust_stores}
use notation_go_lib.Verifier.Stores.Laws.{IsFrom, Covers, store_type, load_x509_trust_stores_exact}
use notation_go_lib.Verifier.Timestamp.{verify_timestamp}
use notation_go_lib.Verifier.Timestamp.Laws.{TimestampOk, verify_timestamp_sound}
use notation_go_lib.Registry.{
  max_manifest_size_limit, max_blob_size_limit, fetch_signature_blob, signature_referrers,
}
use notation_go_lib.Registry.Fetching.{Names, fetch_signature_blob_sound}
use notation_go_lib.Verifier.Types.{Descriptor}
use notation_go_lib.Registry.Listing.{IsSignatureOf}
use notation_go_lib.Registry.Complete.{signature_referrers_exact}
use notation_go_lib.Tests.{
  parse_one, leaf, root, info, env, collaborators, target, manifest, envelope, artifact,
}

abbrev pairs : List (RevocationStatus × String)
pairs = (good, "a") ∷ (unknown, "b") ∷ (revoked, "c") ∷ (revoked, "d") ∷ []

revocation_final_result_lem_example : revocation_final_result pairs ≡ (revoked, "c")
revocation_final_result_lem_example = revocation_final_result_lem pairs

revocation_error_iff_example :
    (statuses : List RevocationStatus) × (ps : List (RevocationStatus × String)) × (some
        (good ∷ good ∷ [])
      ≡ some statuses)
    × (pair_up statuses (leaf ∷ root ∷ []) ≡ some ps)
    × AllClear ps
unfolding revocation_error
revocation_error_iff_example =
    (revocation_error_iff (some (good ∷ good ∷ [])) (leaf ∷ root ∷ [])).0 refl

abbrev identities : List String
identities = "x509.subject:C=US,ST=WA,O=acme" ∷ []

verify_x509_trusted_identities_sound_example :
    (contains identities wildcard ≡ true)
    ⊎ ((leaf_cert : Certificate) × (rest : List Certificate) × (leaf_dn : StringMap) × (leaf ∷ root
            ∷ []
          ≡ leaf_cert ∷ rest)
        × (parse_distinguished_name parse_one leaf_cert.subject ≡ ok leaf_dn)
        × Any (Trusts parse_one leaf_dn) identities)
unfolding verify_x509_trusted_identities
verify_x509_trusted_identities_sound_example =
    verify_x509_trusted_identities_sound parse_one identities (leaf ∷ root ∷ []) refl

load_x509_trust_stores_exact_example :
    (type : String) × (store_type collaborators x509 ≡ some type)
    × All (IsFrom collaborators type ("ca:acme" ∷ "tsa:t" ∷ [])) (root ∷ [])
    × ((s : String)
        → contains ("ca:acme" ∷ "tsa:t" ∷ []) s ≡ true
        → Covers collaborators type (root ∷ []) s)
unfolding load_x509_trust_stores
load_x509_trust_stores_exact_example =
    load_x509_trust_stores_exact collaborators x509 ("ca:acme" ∷ "tsa:t" ∷ []) (root ∷ []) refl

verify_timestamp_sound_example : TimestampOk env collaborators ("ca:acme" ∷ []) "" info
unfolding verify_timestamp
verify_timestamp_sound_example =
    verify_timestamp_sound env collaborators ("ca:acme" ∷ []) "" info refl

fetch_signature_blob_sound_example :
    (json : String) × (manifest.size ≤ max_manifest_size_limit)
    × (target.fetch_manifest manifest ≡ some json)
    × Names target manifest.media_type json envelope
    × (envelope.size ≤ max_blob_size_limit)
    × (target.fetch_blob envelope ≡ some "blob")
unfolding fetch_signature_blob
fetch_signature_blob_sound_example = fetch_signature_blob_sound target manifest "blob" envelope refl

signature_referrers_exact_example :
    (nodes : List Descriptor) × (target.predecessors artifact ≡ some nodes)
    × All (IsSignatureOf target nodes artifact) (manifest ∷ [])
    × ((k : Descriptor) → IsSignatureOf target nodes artifact k → Any (λ x. x ≡ k) (manifest ∷ []))
unfolding signature_referrers
signature_referrers_exact_example = signature_referrers_exact target artifact (manifest ∷ []) refl
