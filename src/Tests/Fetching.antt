-- ===== src/Tests/Fetching.antt =====
-- Examples for the theorems on the signatures of an artifact, with the repository of `Tests`.
use notation_go_lib.Base.{ℕ, suc, ◌≤◌, ◌≡◌, ◌⊎◌, refl, none, some, [], ◌∷◌, arith}
use notation_go_lib.TrustPolicy.Level.{get_verification_level, is_level_skip}
use notation_go_lib.TrustPolicy.Oci
use notation_go_lib.TrustPolicy.Oci.{OciDocument, OciTrustPolicy, get_artifact_path_from_reference}
use notation_go_lib.Verifier.Process.{
  process_signature, ◌>>=◌, process_integrity, process_stages, process_trust, process_authenticity,
  process_identities, process_times, process_expiry, process_timestamp, process_status,
  authenticity_result, fail_authenticity, process_capabilities, process_capability, process_plugin,
  process_plugin_response, process_revocation, record_result, stop_if_critical,
}
use notation_go_lib.Verifier.Verify.{verify, skip_verify, verify_under, verify_at, compare_target}
use notation_go_lib.Registry.{new_repository}
use notation_go_lib.Signatures.{
  Report, start, verify_artifact, process_pages, process_page, verify_up_to, verify_unskipped,
  resolve_artifact, verify_signatures,
}
use notation_go_lib.Signatures.Pages.{process_pages-concat}
use notation_go_lib.Signatures.Sound.{Resolved, Skipped, Succeeds, verify_artifact_sound}
use notation_go_lib.Signatures.Success.{Found, process_pages-bounded}
use notation_go_lib.Signatures.Composed.{verifier_ops, Trusted, verify_artifact-Trusted}
use notation_go_lib.Verifier.Plugins.{
  required_plugin, capabilities_to_verify, fail_first, first_of_type, has, plugin_request,
  unprocessed, verification_capabilities,
}
use notation_go_lib.Pkix.{is_subset_dn, parse_distinguished_name, value_at}
use notation_go_lib.Regex.{matches}
use notation_go_lib.Semver.{is_valid}
use notation_go_lib.Slices.{contains}
use notation_go_lib.Text.{before_last, cut, has_char, has_prefix, has_text, trim_space}
use notation_go_lib.Verifier.Attributes.{
  contains_any, extract_critical_string, get_non_plugin_extended_critical_attributes,
  get_verification_plugin, get_verification_plugin_min_version,
}
use notation_go_lib.Verifier.Checks.{
  find, validate_payload_content_type, verify_authenticity, verify_expiry, verify_integrity,
  verify_user_metadata,
}
use notation_go_lib.Verifier.Identity.{verify_x509_trusted_identities}
use notation_go_lib.Verifier.Revocation.{
  revocation_error, revocation_final_result, verify_revocation,
}
use notation_go_lib.Verifier.Stores.{
  is_tsa_trust_store_in_policy, load_x509_trust_stores, load_x509_trust_stores_with_type,
  load_x509_tsa_trust_stores,
}
use notation_go_lib.Verifier.Timestamp.{verify_authentic_timestamp, verify_timestamp}
use notation_go_lib.Tests.{
  env, verifier, artifact, manifest, target, notation_options, parse_reference,
}
use notation_go_lib.Tests.Verifying.{outcome}

abbrev report : Report
report = (artifact, some outcome ∷ [], none)

found :
    verify_artifact parse_reference
      (some (verifier_ops env verifier))
      (some (new_repository target))
      notation_options
    ≡ report
unfolding verify_artifact verify_up_to verify_unskipped resolve_artifact verify_signatures
    process_pages process_page new_repository skip_verify verify Oci.get_applicable_trust_policy
    verify_under get_verification_level verify_at is_level_skip process_signature ◌>>=◌
    process_integrity required_plugin process_stages process_trust process_authenticity
    process_identities process_times process_expiry process_timestamp process_status is_subset_dn
    parse_distinguished_name value_at matches is_valid contains before_last cut has_char has_prefix
    has_text trim_space get_artifact_path_from_reference Oci.validate_registry_scope_format
    contains_any extract_critical_string get_non_plugin_extended_critical_attributes
    get_verification_plugin get_verification_plugin_min_version find validate_payload_content_type
    verify_authenticity verify_expiry verify_integrity verify_user_metadata
    verify_x509_trusted_identities capabilities_to_verify fail_first first_of_type has
    plugin_request unprocessed verification_capabilities authenticity_result fail_authenticity
    process_capabilities process_capability process_plugin process_plugin_response
    process_revocation record_result stop_if_critical revocation_error revocation_final_result
    verify_revocation is_tsa_trust_store_in_policy load_x509_trust_stores
    load_x509_trust_stores_with_type load_x509_tsa_trust_stores verify_authentic_timestamp
    verify_timestamp compare_target
found = refl

verify_artifact_sound_example :
    Skipped parse_reference
      (verifier_ops env verifier)
      (new_repository target)
      notation_options
      artifact
      (some outcome ∷ [])
    ⊎ Succeeds parse_reference
        (verifier_ops env verifier)
        (new_repository target)
        notation_options
        artifact
        (some outcome ∷ [])
verify_artifact_sound_example =
    verify_artifact_sound parse_reference (verifier_ops env verifier) (new_repository target)
      notation_options artifact (some outcome ∷ []) found

verify_artifact-Trusted_example :
    Skipped parse_reference
      (verifier_ops env verifier)
      (new_repository target)
      notation_options
      artifact
      (some outcome ∷ [])
    ⊎ (Resolved parse_reference
          (verifier_ops env verifier)
          (new_repository target)
          notation_options
          artifact
        × ((n : ℕ) × (f : Found
              (verifier_ops env verifier)
              (new_repository target)
              notation_options
              (suc n)
              artifact
              (some outcome ∷ []))
            × Trusted parse_reference env verifier
                (new_repository target)
                notation_options
                artifact
                f.accepts.0
                f.accepts.1.media_type))
verify_artifact-Trusted_example =
    verify_artifact-Trusted parse_reference env verifier (new_repository target) notation_options
      artifact (some outcome ∷ []) found

process_pages-concat_example :
    process_pages
      (verifier_ops env verifier)
      (new_repository target)
      notation_options
      2
      artifact
      ((manifest ∷ []) ∷ (manifest ∷ []) ∷ [])
      none
      start
    ≡ process_pages
        (verifier_ops env verifier)
        (new_repository target)
        notation_options
        2
        artifact
        ((manifest ∷ manifest ∷ []) ∷ [])
        none
        start
process_pages-concat_example =
    process_pages-concat (verifier_ops env verifier) (new_repository target) notation_options 2
      artifact ((manifest ∷ []) ∷ (manifest ∷ []) ∷ []) none start refl

process_pages-bounded_example :
    (process_pages
      (verifier_ops env verifier)
      (new_repository target)
      notation_options
      2
      artifact
      ((manifest ∷ []) ∷ (manifest ∷ []) ∷ [])
      none
      start).1.processed
    ≤ 2
process_pages-bounded_example =
    process_pages-bounded (verifier_ops env verifier) (new_repository target) notation_options 2
      artifact ((manifest ∷ []) ∷ (manifest ∷ []) ∷ []) none start (omega arith)
