-- ===== src/Verifier/Checks.antt =====
-- verifier/verifier.go and helpers.go: integrity, authenticity, expiry and user metadata, and
-- `ValidatePayloadContentType` of internal/envelope.
use notation_go_lib.Base.{
  String, Bool, true, false, not, ◌&&◌, Option, none, some, List, [], ◌∷◌, ◌==◌, if◌then◌else◌,
  nat_eq, ltb, is_some, Result, ok, err,
}
use notation_go_lib.Pkix.{StringMap}
use notation_go_lib.TrustPolicy.Level.{
  VerificationLevel, ValidationAction, enforce, integrity, authenticity, expiry,
}
use notation_go_lib.Verifier.Types.{
  Certificate, SignerInfo, EnvelopeContent, EnvelopeFailure, AuthenticityFailure, Env,
  ValidationResult, VerifyError, inconclusive, unparsable_signature, content_type_unsupported,
  bad_envelope, not_authentic, signature_expired, metadata_mismatch,
}

abbrev pub media_type_payload_v1 : String
media_type_payload_v1 = "application/vnd.cncf.notary.payload.v1+json"

-- `ValidatePayloadContentType`.
unfoldable pub validate_payload_content_type : String → Option VerifyError
validate_payload_content_type type =
    if type == media_type_payload_v1 then none else some (content_type_unsupported type)

abbrev is_enforce : ValidationAction → Bool
is_enforce enforce = true
is_enforce _ = false

-- `isCriticalFailure`.
abbrev pub is_critical_failure : ValidationResult → Bool
is_critical_failure r = is_enforce r.action && is_some r.error

-- The error of an envelope that does not verify, by its dynamic type.
abbrev integrity_error : EnvelopeFailure → VerifyError
integrity_error (EnvelopeFailure.unexpected message) = inconclusive message
integrity_error failure = bad_envelope failure

abbrev authenticity_error : AuthenticityFailure → VerifyError
authenticity_error (AuthenticityFailure.unexpected message) = inconclusive message
authenticity_error (AuthenticityFailure.not_authentic message) = not_authentic message

module _ (env : Env) where
  -- The content of a signature whose integrity is verified, or the error.
  check_integrity : String → String → Result VerifyError EnvelopeContent
  unfolding validate_payload_content_type
  check_integrity blob media_type = elim (env.parse_envelope media_type blob) [
    | none ↦ err (unparsable_signature media_type)
    | some envelope ↦ elim (env.verify_envelope envelope) [
      | err failure ↦ err (integrity_error failure)
      | ok content ↦ elim (validate_payload_content_type content.content_type) [
        | some e ↦ err e
        | none ↦ ok content
      ]
    ]
  ]

  abbrev content_of : Result VerifyError EnvelopeContent → Option EnvelopeContent
  content_of (ok content) = some content
  content_of (err e) = none

  abbrev failure_of : Result VerifyError EnvelopeContent → Option VerifyError
  failure_of (ok content) = none
  failure_of (err e) = some e

  -- `verifyIntegrity`.
  unfoldable pub verify_integrity :
      String → String → VerificationLevel → Option EnvelopeContent × ValidationResult
  unfolding check_integrity
  verify_integrity blob media_type level =
      let checked = check_integrity blob media_type in
      (
        content_of checked,
        record {
          type = integrity;
          action = level.enforcement integrity;
          error = failure_of checked;
        },
      )

  -- The error of `verifyAuthenticity`.
  check_authenticity : List Certificate → SignerInfo → Option VerifyError
  check_authenticity [] info =
      some (inconclusive "no trusted certificates are found to verify authenticity")
  check_authenticity (cert ∷ certs) info = elim (env.verify_authenticity info (cert ∷ certs)) [
    | none ↦ none
    | some failure ↦ some (authenticity_error failure)
  ]

  -- `verifyAuthenticity`.
  unfoldable pub verify_authenticity :
      List Certificate → VerificationLevel → SignerInfo → ValidationResult
  unfolding check_authenticity
  verify_authenticity certs level info = record {
    type = authenticity;
    action = level.enforcement authenticity;
    error = check_authenticity certs info;
  }

  -- `verifyExpiry`: an expiry that is set has to lie after the present.
  unfoldable pub verify_expiry : VerificationLevel → SignerInfo → ValidationResult
  verify_expiry level info = record {
    type = expiry;
    action = level.enforcement expiry;
    error =
        if not (nat_eq info.expiry 0) && not (ltb env.now_at_expiry info.expiry)
        then some (signature_expired info.expiry)
        else none;
  }

-- `m[k]` with its second result.
unfoldable pub find : StringMap → String → Option String
find [] key = none
find ((k, v) ∷ m) key = if k == key then some v else find m key

abbrev is_value : Option String → String → Bool
is_value none v = false
is_value (some got) v = got == v

-- `verifyUserMetadata`: every required entry is an annotation of the signed artifact.
unfoldable pub verify_user_metadata : StringMap → StringMap → Option VerifyError
unfolding find
verify_user_metadata annotations [] = none
verify_user_metadata annotations ((k, v) ∷ rest) =
    let more = verify_user_metadata annotations rest in
    if not (is_value (find annotations k) v) then some metadata_mismatch else more
