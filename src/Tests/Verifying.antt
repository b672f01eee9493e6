-- ===== src/Tests/Verifying.antt =====
-- Examples for the theorems on verification, with the verifier and the repository of `Tests`.
use notation_go_lib.Base.{String, ◌≡◌, ◌⊎◌, refl, true, false, Option, none, some, [], ◌∷◌, ok}
use notation_go_lib.TrustPolicy.Level.{
  VerificationLevel, level_skip, get_verification_level, is_level_skip, set_action, strict_actions,
  revocation, skip, ValidationType, integrity, authenticity, expiry, authentic_timestamp,
}
use notation_go_lib.TrustPolicy.Level.Laws.{IsGuarded}
use notation_go_lib.TrustPolicy.Oci
use notation_go_lib.TrustPolicy.Oci.{OciDocument, OciTrustPolicy, get_artifact_path_from_reference}
use notation_go_lib.TrustPolicy.Blob
use notation_go_lib.TrustPolicy.Blob.{BlobDocument, BlobTrustPolicy}
use notation_go_lib.Verifier.Types.{ValidationResult, Descriptor, Outcome}
use notation_go_lib.Verifier.Process.{
  fresh, process_signature, ◌>>=◌, process_integrity, process_stages, process_trust,
  process_authenticity, process_identities, process_times, process_expiry, process_timestamp,
  process_status, authenticity_result, fail_authenticity, process_capabilities, process_capability,
  process_plugin, process_plugin_response, process_revocation, record_result, stop_if_critical,
}
use notation_go_lib.Verifier.Process.Recorded.{IsClean}
use notation_go_lib.Verifier.Process.Signature.{Accepted, process_signature_sound}
use notation_go_lib.Verifier.Verify.{
  verify, verify_blob, skip_verify, blob_policy, verify_blob_at, compare_blob, verify_under,
  verify_at, compare_target,
}
use notation_go_lib.Verifier.Verify.Sound.{Verified, verify_sound}
use notation_go_lib.Verifier.Verify.BlobSound.{VerifiedBlob, verify_blob_sound}
use notation_go_lib.Verifier.Verify.Skip.{skip_verify_sound}
use notation_go_lib.Verifier.Plugins.{
  required_plugin, capabilities_to_verify, fail_first, first_of_type, has, plugin_request,
  unprocessed, verification_capabilities,
}
use notation_go_lib.Pkix.{is_subset_dn, parse_distinguished_name, value_at}
use notation_go_lib.Regex.{matches}
use notation_go_lib.Semver.{is_valid}
use notation_go_lib.Slices.{contains}
use notation_go_lib.Text.{before_last, cut, has_char, has_prefix, has_text, trim_space}
use notation_go_lib.Verifier.Attributes.{
  contains_any, extract_critical_string, get_non_plugin_extended_critical_attributes,
  get_verification_plugin, get_verification_plugin_min_version,
}
use notation_go_lib.Verifier.Checks.{
  find, validate_payload_content_type, verify_authenticity, verify_expiry, verify_integrity,
  verify_user_metadata,
}
use notation_go_lib.Verifier.Identity.{verify_x509_trusted_identities}
use notation_go_lib.Verifier.Revocation.{
  revocation_error, revocation_final_result, verify_revocation,
}
use notation_go_lib.Verifier.Stores.{
  is_tsa_trust_store_in_policy, load_x509_trust_stores, load_x509_trust_stores_with_type,
  load_x509_tsa_trust_stores,
}
use notation_go_lib.Verifier.Timestamp.{verify_authentic_timestamp, verify_timestamp}
use notation_go_lib.Tests.{
  strict, net_policy, document, env, collaborators, verifier, options, other_options, blob_options,
  artifact, content,
}

abbrev pub net_level : VerificationLevel
net_level = record { name = "custom"; enforcement = set_action revocation skip strict_actions }

abbrev pub passed : ValidationType → ValidationResult
passed t = record { type = t; action = net_level.enforcement t; error = none }

-- What `Verify` returns for the artifact.
abbrev pub outcome : Outcome
outcome = record {
  raw_signature = "blob";
  envelope_content = some content;
  level = net_level;
  results =
      passed integrity ∷ passed authenticity ∷ passed expiry ∷ passed authentic_timestamp ∷ [];
  error = none;
}

processed :
    process_signature env collaborators "blob" "application/jose+json" net_policy.trusted_identities
      net_policy.trust_stores strict []
      (fresh "blob" net_level)
    ≡ (ok tt, outcome)
unfolding Oci.get_applicable_trust_policy verify_under get_verification_level verify_at
    is_level_skip process_signature ◌>>=◌ process_integrity required_plugin process_stages
    process_trust process_authenticity process_identities process_times process_expiry
    process_timestamp process_status is_subset_dn parse_distinguished_name value_at matches is_valid
    contains before_last cut has_char has_prefix has_text trim_space
    get_artifact_path_from_reference Oci.validate_registry_scope_format contains_any
    extract_critical_string get_non_plugin_extended_critical_attributes get_verification_plugin
    get_verification_plugin_min_version find validate_payload_content_type verify_authenticity
    verify_expiry verify_integrity verify_user_metadata verify_x509_trusted_identities
    capabilities_to_verify fail_first first_of_type has plugin_request unprocessed
    verification_capabilities authenticity_result fail_authenticity process_capabilities
    process_capability process_plugin process_plugin_response process_revocation record_result
    stop_if_critical revocation_error revocation_final_result verify_revocation
    is_tsa_trust_store_in_policy load_x509_trust_stores load_x509_trust_stores_with_type
    load_x509_tsa_trust_stores verify_authentic_timestamp verify_timestamp compare_target
processed = refl

pub applies : Oci.get_applicable_trust_policy document "reg.io/net@sha256:1" ≡ ok net_policy
unfolding Oci.get_applicable_trust_policy
applies = refl

leveled : get_verification_level strict ≡ ok net_level
unfolding get_verification_level
leveled = refl

verified : verify env verifier artifact "blob" options ≡ (some outcome, none)
unfolding verify Oci.get_applicable_trust_policy verify_under get_verification_level verify_at
    is_level_skip process_signature ◌>>=◌ process_integrity required_plugin process_stages
    process_trust process_authenticity process_identities process_times process_expiry
    process_timestamp process_status is_subset_dn parse_distinguished_name value_at matches is_valid
    contains before_last cut has_char has_prefix has_text trim_space
    get_artifact_path_from_reference Oci.validate_registry_scope_format contains_any
    extract_critical_string get_non_plugin_extended_critical_attributes get_verification_plugin
    get_verification_plugin_min_version find validate_payload_content_type verify_authenticity
    verify_expiry verify_integrity verify_user_metadata verify_x509_trusted_identities
    capabilities_to_verify fail_first first_of_type has plugin_request unprocessed
    verification_capabilities authenticity_result fail_authenticity process_capabilities
    process_capability process_plugin process_plugin_response process_revocation record_result
    stop_if_critical revocation_error revocation_final_result verify_revocation
    is_tsa_trust_store_in_policy load_x509_trust_stores load_x509_trust_stores_with_type
    load_x509_tsa_trust_stores verify_authentic_timestamp verify_timestamp compare_target
verified = refl

verify_sound_example :
    (doc : OciDocument) × (policy : OciTrustPolicy) × (level : VerificationLevel)
    × (verifier.oci_trust_policy_doc ≡ some doc)
    × (Oci.get_applicable_trust_policy doc options.artifact_reference ≡ ok policy)
    × (get_verification_level policy.signature_verification ≡ ok level)
    × (((is_level_skip level ≡ true) × (outcome ≡ fresh "blob" level))
        ⊎ ((is_level_skip level ≡ false)
            × IsGuarded level.enforcement
            × Verified env verifier artifact "blob" options policy level))
verify_sound_example = verify_sound env verifier artifact "blob" options outcome verified

process_signature_sound_example :
    (a : Accepted env collaborators "blob" "application/jose+json" net_policy.trusted_identities
      net_policy.trust_stores strict [] net_level)
    × IsClean outcome.results
    × (outcome.envelope_content ≡ some a.content)
    × (outcome.level ≡ net_level)
process_signature_sound_example =
    process_signature_sound env collaborators "blob" "application/jose+json"
      net_policy.trusted_identities net_policy.trust_stores strict [] "blob" net_level outcome
      processed

abbrev digest_of : String → Option Descriptor
digest_of algorithm = some artifact

blob_verified : verify_blob env verifier digest_of "blob" blob_options ≡ (some outcome, none)
unfolding verify_blob blob_policy Blob.get_applicable_trust_policy verify_blob_at compare_blob
    Oci.get_applicable_trust_policy verify_under get_verification_level verify_at is_level_skip
    process_signature ◌>>=◌ process_integrity required_plugin process_stages process_trust
    process_authenticity process_identities process_times process_expiry process_timestamp
    process_status is_subset_dn parse_distinguished_name value_at matches is_valid contains
    before_last cut has_char has_prefix has_text trim_space get_artifact_path_from_reference
    Oci.validate_registry_scope_format contains_any extract_critical_string
    get_non_plugin_extended_critical_attributes get_verification_plugin
    get_verification_plugin_min_version find validate_payload_content_type verify_authenticity
    verify_expiry verify_integrity verify_user_metadata verify_x509_trusted_identities
    capabilities_to_verify fail_first first_of_type has plugin_request unprocessed
    verification_capabilities authenticity_result fail_authenticity process_capabilities
    process_capability process_plugin process_plugin_response process_revocation record_result
    stop_if_critical revocation_error revocation_final_result verify_revocation
    is_tsa_trust_store_in_policy load_x509_trust_stores load_x509_trust_stores_with_type
    load_x509_tsa_trust_stores verify_authentic_timestamp verify_timestamp compare_target
blob_verified = refl

verify_blob_sound_example :
    (doc : BlobDocument) × (policy : BlobTrustPolicy) × (level : VerificationLevel)
    × (verifier.blob_trust_policy_doc ≡ some doc)
    × (blob_policy env verifier doc "named" ≡ ok policy)
    × (get_verification_level policy.signature_verification ≡ ok level)
    × (((is_level_skip level ≡ true) × (outcome ≡ fresh "blob" level))
        ⊎ ((is_level_skip level ≡ false)
            × IsGuarded level.enforcement
            × VerifiedBlob env verifier digest_of "blob" blob_options policy level))
verify_blob_sound_example =
    verify_blob_sound env verifier digest_of "blob" blob_options outcome blob_verified

skip_verify_sound_example :
    (actual : VerificationLevel) × (is_level_skip actual ≡ true)
    × (verify env verifier artifact "junk" other_options ≡ (some (fresh "junk" actual), none))
unfolding skip_verify Oci.get_applicable_trust_policy get_verification_level is_level_skip
skip_verify_sound_example =
    skip_verify_sound env verifier other_options level_skip artifact "junk" refl
