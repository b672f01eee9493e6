-- ===== src/Tests/Policies.antt =====
-- Examples for the theorems on trust policies and the texts they hold.
use notation_go_lib.Base.{◌↔◌, true, String, ◌≡◌, ◌≢◌, ◌⊎◌, refl, some, [], ◌∷◌, ok, All}
use notation_go_lib.Slices.{contains}
use notation_go_lib.Text.{trim_space}
use notation_go_lib.Pkix.{
  StringMap, parse_distinguished_name, is_subset_dn, value_at, mandatory_fields,
}
use notation_go_lib.Pkix.Laws.{HasNoAlias, parse_distinguished_name_sound}
use notation_go_lib.Pkix.Subset.{IsMatched, Shares, is_subset_dn-parsed}
use notation_go_lib.TrustPolicy.Level.{
  VerificationLevel, get_verification_level, level_skip, set_action, strict_actions, revocation,
  skip,
}
use notation_go_lib.TrustPolicy.Level.Laws.{IsGuarded, get_verification_level-IsGuarded}
use notation_go_lib.TrustPolicy.Statement.{validate_policy_core}
use notation_go_lib.TrustPolicy.Statement.Laws.{IsTrust, validate_policy_core_sound}
use notation_go_lib.TrustPolicy.Oci
use notation_go_lib.TrustPolicy.Oci.{
  OciDocument, get_applicable_trust_policy, get_artifact_path_from_reference,
  validate_registry_scopes, no_applicable,
}
use notation_go_lib.TrustPolicy.Oci.Validation
use notation_go_lib.TrustPolicy.Oci.Validation.{validate_iff}
use notation_go_lib.TrustPolicy.Oci.Selection.{get_applicable_exact, get_applicable_wildcard}
use notation_go_lib.TrustPolicy.Blob
use notation_go_lib.TrustPolicy.Blob.{get_global_trust_policy}
use notation_go_lib.TrustPolicy.Blob.Laws
use notation_go_lib.TrustPolicy.Blob.Laws.{blob_validate_iff, get_global_exact, get_named_exact}
use notation_go_lib.Tests.{
  subject, parse_one, strict, net_policy, wild_policy, document, named_blob, global_blob,
  blob_document,
}

document_valid : Oci.validate parse_one (some document) ≡ ok tt
unfolding Oci.validate
document_valid = refl

blob_document_valid : Blob.validate parse_one (some blob_document) ≡ ok tt
unfolding Blob.validate
blob_document_valid = refl

document-IsValid : Oci.Validation.IsValid parse_one document
document-IsValid = (validate_iff parse_one document).0 document_valid

validate_iff_example : Oci.Validation.IsValid parse_one document
validate_iff_example = (validate_iff parse_one document).0 document_valid

get_applicable_exact_example :
    get_applicable_trust_policy document "reg.io/net@sha256:1" ≡ ok net_policy
unfolding contains get_artifact_path_from_reference
get_applicable_exact_example =
    get_applicable_exact parse_one document "reg.io/net@sha256:1" "reg.io/net" [] (wild_policy ∷ [])
      net_policy document-IsValid refl refl refl

get_applicable_wildcard_example :
    get_applicable_trust_policy document "reg.io/other@sha256:1" ≡ ok wild_policy
unfolding contains get_artifact_path_from_reference
get_applicable_wildcard_example =
    get_applicable_wildcard parse_one document "reg.io/other@sha256:1" "reg.io/other"
      (net_policy ∷ []) [] wild_policy document-IsValid refl refl refl refl

blob_document-IsValid : Blob.Laws.IsValid parse_one blob_document
blob_document-IsValid = (blob_validate_iff parse_one blob_document).0 blob_document_valid

-- The global statement has the level "skip", and the document is valid all the same.
blob_validate_iff_example : Blob.Laws.IsValid parse_one blob_document
blob_validate_iff_example = (blob_validate_iff parse_one blob_document).0 blob_document_valid

get_global_exact_example : get_global_trust_policy blob_document ≡ ok global_blob
get_global_exact_example =
    get_global_exact parse_one blob_document (named_blob ∷ []) [] global_blob blob_document-IsValid
      refl refl

get_named_exact_example : Blob.get_applicable_trust_policy blob_document "named" ≡ ok named_blob
unfolding trim_space
get_named_exact_example =
    get_named_exact parse_one blob_document [] (global_blob ∷ []) named_blob blob_document-IsValid
      refl (λ e. cc)

abbrev strict_level : VerificationLevel
strict_level = record { name = "custom"; enforcement = set_action revocation skip strict_actions }

get_verification_level-IsGuarded_example :
    (strict_level ≡ level_skip) ⊎ IsGuarded strict_level.enforcement
unfolding get_verification_level
get_verification_level-IsGuarded_example = get_verification_level-IsGuarded strict strict_level refl

validate_policy_core_sound_example :
    (net_policy.name ≢ "")
    × ((strict.verify_timestamp ≡ "")
        ⊎ ((strict.verify_timestamp ≡ "always") ⊎ (strict.verify_timestamp ≡ "afterCertExpiry")))
    × ((level : VerificationLevel) × (get_verification_level strict ≡ ok level)
        × IsTrust parse_one level ("ca:acme" ∷ []) ("x509.subject:C=US,ST=WA,O=acme" ∷ []))
unfolding validate_policy_core
validate_policy_core_sound_example =
    validate_policy_core_sound parse_one "net" strict ("ca:acme" ∷ [])
      ("x509.subject:C=US,ST=WA,O=acme" ∷ []) refl

abbrev file_name : String
file_name = "a-1.crt"

abbrev parsed_subject : StringMap
parsed_subject = ("O", "acme") ∷ ("ST", "WA") ∷ ("C", "US") ∷ []

parse_distinguished_name_sound_example :
    All (λ field. value_at parsed_subject field ≢ "") mandatory_fields × HasNoAlias parsed_subject
unfolding parse_distinguished_name
parse_distinguished_name_sound_example =
    parse_distinguished_name_sound parse_one subject parsed_subject refl

-- A pair with an empty value is matched by a name that lacks its key.
empty_value-matches : is_subset_dn (("CN", "") ∷ parsed_subject) parsed_subject ≡ true
unfolding is_subset_dn
empty_value-matches = refl

is_subset_dn-parsed_example :
    ((is_subset_dn parsed_subject (("CN", "a") ∷ parsed_subject) ≡ true)
      ↔ IsMatched parsed_subject (("CN", "a") ∷ parsed_subject))
    × (is_subset_dn parsed_subject (("CN", "a") ∷ parsed_subject) ≡ true
        → All (Shares parsed_subject (("CN", "a") ∷ parsed_subject)) mandatory_fields)
unfolding parse_distinguished_name
is_subset_dn-parsed_example =
    is_subset_dn-parsed parse_one subject parsed_subject (("CN", "a") ∷ parsed_subject) refl
