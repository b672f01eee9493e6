-- ===== src/Verifier/Types.antt =====
-- The data of the verifier: certificates, signer information, validation results and outcomes
-- (notation.go), the plugin's answers, and the record `Env` of what the code calls and does not
-- implement. A time is a number of nanoseconds since Go's zero time, which is 0.
use notation_go_lib.Base.{ℕ, String, Bool, Option, List, Result}
use notation_go_lib.Pkix.{StringMap, Rdn}
use notation_go_lib.TrustPolicy.Level.{ValidationType, ValidationAction, VerificationLevel}
use notation_go_lib.TrustPolicy.Statement.{StatementError}

-- The fields of `x509.Certificate` that the verifier reads.
pub record Certificate : Type 0 where
  pub subject : String
  pub raw : String
  pub not_before : ℕ
  pub not_after : ℕ

-- `signature.SigningScheme`, a string type with two known values.
pub data SigningScheme : Type 0 where
  x509 signing_authority : SigningScheme
  other_scheme : String → SigningScheme

pub data AttributeKey : Type 0 where
  text_key : String → AttributeKey
  number_key : ℕ → AttributeKey

pub data AttributeValue : Type 0 where
  text_value : String → AttributeValue
  other_value : ℕ → AttributeValue

-- `signature.Attribute`.
pub record Attribute : Type 0 where
  pub key : AttributeKey
  pub critical : Bool
  pub value : AttributeValue

-- `crypto.Hash`.
pub data Hash : Type 0 where
  sha256 sha384 sha512 : Hash
  other_hash : ℕ → Hash

-- `signature.SignerInfo`; an `expiry` of 0 is the zero time.
pub record SignerInfo : Type 0 where
  pub scheme : SigningScheme
  pub signing_time : ℕ
  pub expiry : ℕ
  pub extended_attributes : List Attribute
  pub timestamp_signature : String
  pub signature : String
  pub hash : Hash
  pub certificate_chain : List Certificate

-- `signature.EnvelopeContent`, its payload in two fields.
pub record EnvelopeContent : Type 0 where
  pub signer_info : SignerInfo
  pub content_type : String
  pub content : String

-- `ocispec.Descriptor`, as the verifier reads it.
pub record Descriptor : Type 0 where
  pub media_type : String
  pub digest : String
  pub size : ℕ
  pub annotations : StringMap

-- The dynamic types of the error of `sigEnv.Verify`.
pub data EnvelopeFailure : Type 0 where
  envelope_not_found invalid_signature integrity_broken unexpected : String → EnvelopeFailure

pub data AuthenticityFailure : Type 0 where
  not_authentic unexpected : String → AuthenticityFailure

-- `revocationresult.Result`.
pub data RevocationStatus : Type 0 where
  unknown good non_revokable revoked : RevocationStatus

-- `pluginframework.Capability`.
pub data Capability : Type 0 where
  trusted_identity_verifier revocation_check_verifier : Capability
  signature_generator envelope_generator : Capability
  other_capability : String → Capability

pub record Metadata : Type 0 where
  pub name : String
  pub version : String
  pub capabilities : List Capability

pub record PluginResult : Type 0 where
  pub success : Bool
  pub reason : String

-- `VerifySignatureResponse`; the map of results as a function.
pub record PluginResponse : Type 0 where
  pub verification_results : Capability → Option PluginResult
  pub processed_attributes : List AttributeKey

-- `VerifySignatureRequest`.
pub record PluginRequest : Type 0 where
  pub content_type : String
  pub scheme : SigningScheme
  pub expiry : ℕ
  pub authentic_signing_time : Option ℕ
  pub extended_attributes : List (String × AttributeValue)
  pub unprocessed_attributes : List String
  pub certificate_chain : List String
  pub trusted_identities : List String
  pub capabilities : List Capability
  pub plugin_config : StringMap

-- `VerifyPlugin`; `none` is an error.
pub record VerifyPlugin : Type 0 where
  pub get_metadata : StringMap → Option Metadata
  pub verify_signature : PluginRequest → Option PluginResponse

-- The errors of the workflow. `inconclusive` is `ErrorVerificationInconclusive`, and `panicked`
-- stands for a run-time panic.
pub data VerifyError : Type 0 where
  panicked : VerifyError
  inconclusive : String → VerifyError
  unparsable_signature content_type_unsupported : String → VerifyError
  bad_envelope : EnvelopeFailure → VerifyError
  attribute_not_exist : VerifyError
  attribute_not_critical attribute_not_text attribute_blank attribute_not_semver :
      String → VerifyError
  plugin_metadata_failed plugin_failed : String → VerifyError
  attribute_not_processed : AttributeKey → VerifyError
  scheme_unrecognized : VerifyError
  store_malformed : String → VerifyError
  store_failed : String → String → VerifyError
  not_authentic : String → VerifyError
  identity_refused : StatementError → VerifyError
  no_identities identity_mismatch : VerifyError
  subject_unparsed : String → VerifyError
  plugin_identity_failed plugin_revocation_failed : String → VerifyError
  signature_expired : ℕ → VerifyError
  outside_validity : String → VerifyError
  timestamp_missing timestamp_unparsable timestamp_without_info timestamp_invalid : VerifyError
  no_tsa_certificates timestamp_unverified timestamp_before_signing tsa_chain_invalid : VerifyError
  timestamp_outside_validity : String → VerifyError
  no_revocation_validator revocation_unchecked : VerifyError
  certificate_revoked certificate_status_unknown : String → VerifyError
  policy_doc_nil no_applicable_policy payload_unparsable hash_unsupported : VerifyError
  descriptor_failed descriptor_mismatch blob_mismatch metadata_mismatch : VerifyError

-- `notation.ValidationResult`; an `error` of `none` is nil.
pub record ValidationResult : Type 0 where
  pub type : ValidationType
  pub action : ValidationAction
  pub error : Option VerifyError

-- `notation.VerificationOutcome`. The level is never nil while the workflow runs.
pub record Outcome : Type 0 where
  pub raw_signature : String
  pub envelope_content : Option EnvelopeContent
  pub level : VerificationLevel
  pub results : List ValidationResult
  pub error : Option VerifyError

-- `tspclient.Timestamp`.
pub record Timestamp : Type 0 where
  pub value : ℕ
  pub accuracy : ℕ

-- What the verifier calls and does not implement. An opaque library value is a number; `none`
-- and `err` are errors. The clock is read once for the expiry and once for the timestamp.
pub record Env : Type 0 where
  pub parse_dn : String → Option (List Rdn)
  pub parse_envelope : String → String → Option ℕ
  pub verify_envelope : ℕ → Result EnvelopeFailure EnvelopeContent
  pub verify_authenticity : SignerInfo → List Certificate → Option AuthenticityFailure
  pub extended_attribute : SignerInfo → String → Option Attribute
  pub authentic_signing_time : SignerInfo → ℕ
  pub version_below : String → String → Bool
  pub unmarshal_payload : String → Option Descriptor
  pub content_equal : Descriptor → Descriptor → Bool
  pub now_at_expiry : ℕ
  pub now_at_timestamp : ℕ
  pub parse_signed_token : String → Option ℕ
  pub token_info : ℕ → Option ℕ
  pub validate_info : ℕ → String → Option Timestamp
  pub verify_token : ℕ → ℕ → List Certificate → Option (List Certificate)
  pub bounded_after : Timestamp → ℕ → Bool
  pub bounded_before : Timestamp → ℕ → Bool
  pub valid_tsa_chain : List Certificate → Bool

-- `verifier`, without its documents: the collaborators that the workflow calls.
pub record Collaborators : Type 0 where
  pub get_certificates : String → String → Result VerifyError (List Certificate)
  pub plugin_manager : Option (String → Option VerifyPlugin)
  pub revocation_client : Option (List Certificate → ℕ → Option (List RevocationStatus))
  pub code_signing_validator : Option (List Certificate → ℕ → Option (List RevocationStatus))
  pub timestamping_validator : List Certificate → Option (List RevocationStatus)
