-- ===== src/Verifier/Timestamp.antt =====
-- verifier/verifier.go: `verifyTimestamp` and `verifyAuthenticTimestamp`. The token, its
-- information and its chain are the library's, in `Env`.
pub mod Laws
use notation_go_lib.Base.{
  ℕ, String, Bool, true, false, not, ◌&&◌, ◌||◌, Option, none, some, List, [], ◌∷◌, ◌==◌,
  if◌then◌else◌, ltb, any, is_empty, Result, ok, err, ◌>>=◌, ◌>>◌, guard,
}
use notation_go_lib.TrustPolicy.Level.{VerificationLevel, authentic_timestamp}
use notation_go_lib.Verifier.Types.{
  Certificate, SigningScheme, x509, signing_authority, other_scheme, SignerInfo, Timestamp, Env,
  Collaborators, ValidationResult, VerifyError, outside_validity, timestamp_missing,
  timestamp_unparsable, timestamp_without_info, timestamp_invalid, no_tsa_certificates,
  timestamp_unverified, timestamp_before_signing, tsa_chain_invalid, timestamp_outside_validity,
}
use notation_go_lib.Verifier.Stores.{load_x509_tsa_trust_stores, is_tsa_trust_store_in_policy}
use notation_go_lib.Verifier.Revocation.{revocation_error}

-- The loop over the chain where no timestamp is verified: each certificate is valid at `now`.
valid_now : ℕ → List Certificate → Result VerifyError (Unit {0})
valid_now now [] = ok tt
valid_now now (cert ∷ rest) =
    let more = valid_now now rest in
    if ltb now cert.not_before || ltb cert.not_after now
    then err (outside_validity cert.subject)
    else more

-- The loop of the scheme of signing authorities.
valid_when_signed : ℕ → List Certificate → Result VerifyError (Unit {0})
unfolding valid_now
valid_when_signed time certs = valid_now time certs

-- Some certificate of the chain has expired.
abbrev has_expired : ℕ → List Certificate → Bool
has_expired now certs = any (λ cert. ltb cert.not_after now) certs

abbrev from_option : {A : Type 0} → Option A → VerifyError → Result VerifyError A
from_option none e = err e
from_option (some a) e = ok a

abbrev from_error : Option VerifyError → Result VerifyError (Unit {0})
from_error none = ok tt
from_error (some e) = err e

module _ (env : Env) (c : Collaborators) where
  -- Whether the timestamp is to be verified, by the stores and the option of the policy.
  perform_timestamp : List String → String → SignerInfo → Result VerifyError Bool
  unfolding is_tsa_trust_store_in_policy
  perform_timestamp stores option info = do
    enabled ← is_tsa_trust_store_in_policy stores
    ok (
        enabled
        && (not (option == "afterCertExpiry")
            || has_expired env.now_at_timestamp info.certificate_chain))

  -- Step 4: the timestamp lies within the validity of each certificate of the chain.
  bounded_by : Timestamp → List Certificate → Result VerifyError (Unit {0})
  bounded_by stamp [] = ok tt
  bounded_by stamp (cert ∷ rest) =
      let more = bounded_by stamp rest in
      if not (env.bounded_after stamp cert.not_before)
        || not (env.bounded_before stamp cert.not_after)
      then err (timestamp_outside_validity cert.subject)
      else more

  -- The numbered steps of `verifyTimestamp`.
  check_countersignature : List String → SignerInfo → Result VerifyError (Unit {0})
  unfolding load_x509_tsa_trust_stores bounded_by revocation_error
  check_countersignature stores info = do
    guard (not (info.timestamp_signature == "")) timestamp_missing
    token ← from_option (env.parse_signed_token info.timestamp_signature) timestamp_unparsable
    tst ← from_option (env.token_info token) timestamp_without_info
    stamp ← from_option (env.validate_info tst info.signature) timestamp_invalid
    roots ← load_x509_tsa_trust_stores c info.scheme stores
    guard (not (is_empty roots)) no_tsa_certificates
    chain ← from_option (env.verify_token token stamp.value roots) timestamp_unverified
    guard (env.bounded_after stamp info.signing_time) timestamp_before_signing
    guard (env.valid_tsa_chain chain) tsa_chain_invalid
    bounded_by stamp info.certificate_chain
    from_error (revocation_error (c.timestamping_validator chain) chain)

  -- `verifyTimestamp`.
  unfoldable pub verify_timestamp :
      List String → String → SignerInfo → Result VerifyError (Unit {0})
  unfolding perform_timestamp valid_now check_countersignature
  verify_timestamp stores option info = do
    perform ← perform_timestamp stores option info
    if perform
        then check_countersignature stores info
        else valid_now env.now_at_timestamp info.certificate_chain

  abbrev pub error_of : Result VerifyError (Unit {0}) → Option VerifyError
  error_of (ok u) = none
  error_of (err e) = some e

  -- The error of `verifyAuthenticTimestamp`.
  check_authentic_timestamp : List String → String → SignerInfo → SigningScheme → Option VerifyError
  unfolding verify_timestamp valid_when_signed
  check_authentic_timestamp stores option info x509 = error_of (verify_timestamp stores option info)
  check_authentic_timestamp stores option info _ =
      error_of (valid_when_signed info.signing_time info.certificate_chain)

  -- `verifyAuthenticTimestamp`.
  unfoldable pub verify_authentic_timestamp :
      List String → String → VerificationLevel → SignerInfo → ValidationResult
  unfolding check_authentic_timestamp
  verify_authentic_timestamp stores option level info = record {
    type = authentic_timestamp;
    action = level.enforcement authentic_timestamp;
    error = check_authentic_timestamp stores option info info.scheme;
  }
