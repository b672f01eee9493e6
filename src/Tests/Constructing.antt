-- ===== src/Tests/Constructing.antt =====
-- Examples for the theorems on the construction of a verifier.
use notation_go_lib.Base.{◌≡◌, refl, true, ◌||◌, none, some, is_some, ok, err}
use notation_go_lib.TrustPolicy.Level.{VerificationLevel, get_verification_level}
use notation_go_lib.TrustPolicy.Oci
use notation_go_lib.TrustPolicy.Oci.{OciDocument, OciTrustPolicy, get_artifact_path_from_reference}
use notation_go_lib.TrustPolicy.Oci.Validation
use notation_go_lib.TrustPolicy.Blob
use notation_go_lib.TrustPolicy.Blob.{BlobDocument, BlobTrustPolicy}
use notation_go_lib.TrustPolicy.Blob.Laws
use notation_go_lib.Verifier.New.{Library, VerifierOptions, new_verifier_with_options}
use notation_go_lib.Verifier.New.Laws.{HasOneValidator, new_verifier_sound}
use notation_go_lib.Verifier.New.Levels.{applicable_has_level}
use notation_go_lib.Verifier.Types.{panicked}
use notation_go_lib.Verifier.Verify.{skip_verify}
use notation_go_lib.Verifier.Verify.Panics.{skip_verify_panics_iff}
use notation_go_lib.Tests.{
  env, blob_only, options, parse_one, net_policy, document, blob_document, collaborators, verifier,
  trust_store, all_good,
}
use notation_go_lib.Tests.Verifying.{applies}

abbrev library : Library
library = record {
  parse_dn = parse_one;
  new_timestamping = some all_good;
  new_code_signing = some (λ certs time. all_good certs);
}

abbrev verifier_options_given : VerifierOptions
verifier_options_given = record {
  revocation_client = none;
  revocation_code_signing_validator = some (λ certs time. all_good certs);
  revocation_timestamping_validator = some all_good;
  oci_trust_policy = some document;
  blob_trust_policy = some blob_document;
  plugin_manager = none;
}

made : new_verifier_with_options library (some trust_store) verifier_options_given ≡ ok verifier
unfolding new_verifier_with_options Oci.validate Blob.validate
made = refl

new_verifier_sound_example :
    ((is_some verifier.oci_trust_policy_doc || is_some verifier.blob_trust_policy_doc) ≡ true)
    × ((doc : OciDocument) → some document ≡ some doc → Oci.Validation.IsValid parse_one doc)
    × ((doc : BlobDocument) → some blob_document ≡ some doc → Blob.Laws.IsValid parse_one doc)
    × HasOneValidator collaborators
new_verifier_sound_example =
    new_verifier_sound library (some trust_store) verifier_options_given verifier made

applicable_has_level_example :
    (level : VerificationLevel) × (get_verification_level net_policy.signature_verification
      ≡ ok level)
applicable_has_level_example =
    applicable_has_level library (some trust_store) verifier_options_given verifier document
      "reg.io/net@sha256:1" net_policy made refl applies

-- The same verifier without the OCI document.
made_for_blobs :
    new_verifier_with_options library
      (some trust_store)
      (record verifier_options_given { oci_trust_policy = none })
    ≡ ok blob_only
unfolding new_verifier_with_options Blob.validate
made_for_blobs = refl

skip_verify_panics_iff_example : skip_verify env blob_only options ≡ err panicked
unfolding get_artifact_path_from_reference
skip_verify_panics_iff_example =
    (skip_verify_panics_iff library (some trust_store)
        (record verifier_options_given { oci_trust_policy = none }) blob_only env options
        made_for_blobs).1
      (refl, (blob_document, refl), ("reg.io/net", refl))
