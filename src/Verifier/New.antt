-- ===== src/Verifier/New.antt =====
-- verifier/verifier.go: the verifier and its construction. The certificates of a trust store, the
-- plugin manager and the validators are given by the caller or by the library's constructor.
pub mod Laws
pub mod Levels
use notation_go_lib.Base.{
  ℕ, String, Bool, Option, none, some, List, Result, ok, err, ◌>>=◌, ◌>>◌, guard, wrap_err, is_some,
  not, ◌||◌,
}
use notation_go_lib.Pkix.{Rdn}
use notation_go_lib.TrustPolicy.Oci
use notation_go_lib.TrustPolicy.Oci.{OciDocument, OciError}
use notation_go_lib.TrustPolicy.Blob
use notation_go_lib.TrustPolicy.Blob.{BlobDocument, BlobError}
use notation_go_lib.Verifier.Types.{
  Certificate, RevocationStatus, VerifyPlugin, Collaborators, VerifyError,
}

abbrev pub TrustStore : Type 0
TrustStore = String → String → Result VerifyError (List Certificate)

abbrev pub Validator : Type 0
Validator = List Certificate → ℕ → Option (List RevocationStatus)

abbrev pub TimestampingValidator : Type 0
TimestampingValidator = List Certificate → Option (List RevocationStatus)

-- `verifier`.
pub record Verifier : Type 0 where
  pub oci_trust_policy_doc : Option OciDocument
  pub blob_trust_policy_doc : Option BlobDocument
  pub collaborators : Collaborators

-- `VerifierOptions`.
pub record VerifierOptions : Type 0 where
  pub revocation_client : Option Validator
  pub revocation_code_signing_validator : Option Validator
  pub revocation_timestamping_validator : Option TimestampingValidator
  pub oci_trust_policy : Option OciDocument
  pub blob_trust_policy : Option BlobDocument
  pub plugin_manager : Option (String → Option VerifyPlugin)

pub data NewError : Type 0 where
  trust_store_nil documents_nil validator_failed : NewError
  oci_invalid : OciError → NewError
  blob_invalid : BlobError → NewError

-- What `revocation.NewWithOptions` makes for each purpose; `none` is an error.
pub record Library : Type 0 where
  pub parse_dn : String → Option (List Rdn)
  pub new_timestamping : Option TimestampingValidator
  pub new_code_signing : Option Validator

module _ (lib : Library) where
  -- The timestamping validator: the caller's, or a new one.
  timestamping_of : Option TimestampingValidator → Option TimestampingValidator
  timestamping_of none = lib.new_timestamping
  timestamping_of (some v) = some v

  -- `setRevocation`: the client is kept only where no code signing validator is given.
  set_revocation : VerifierOptions → TrustStore → Result NewError Collaborators
  unfolding timestamping_of
  set_revocation opts store = elim (timestamping_of opts.revocation_timestamping_validator) [
    | none ↦ err validator_failed
    | some timestamping ↦ elim (opts.revocation_code_signing_validator) [
      | some v ↦ ok (record {
        get_certificates = store;
        plugin_manager = opts.plugin_manager;
        revocation_client = none;
        code_signing_validator = some v;
        timestamping_validator = timestamping;
      })
      | none ↦ elim (opts.revocation_client) [
        | some client ↦ ok (record {
          get_certificates = store;
          plugin_manager = opts.plugin_manager;
          revocation_client = some client;
          code_signing_validator = none;
          timestamping_validator = timestamping;
        })
        | none ↦ elim (lib.new_code_signing) [
          | none ↦ err validator_failed
          | some v ↦ ok (record {
            get_certificates = store;
            plugin_manager = opts.plugin_manager;
            revocation_client = none;
            code_signing_validator = some v;
            timestamping_validator = timestamping;
          })
        ]
      ]
    ]
  ]

  check_oci : Option OciDocument → Result NewError (Unit {0})
  check_oci none = ok tt
  check_oci (some doc) = wrap_err oci_invalid (Oci.validate lib.parse_dn (some doc))

  check_blob : Option BlobDocument → Result NewError (Unit {0})
  check_blob none = ok tt
  check_blob (some doc) = wrap_err blob_invalid (Blob.validate lib.parse_dn (some doc))

  -- `NewVerifierWithOptions`; a nil trust store is `none`.
  unfoldable pub new_verifier_with_options :
      Option TrustStore → VerifierOptions → Result NewError Verifier
  unfolding check_oci check_blob set_revocation
  new_verifier_with_options none opts = err trust_store_nil
  new_verifier_with_options (some store) opts = do
    guard (is_some opts.oci_trust_policy || is_some opts.blob_trust_policy) documents_nil
    check_oci opts.oci_trust_policy
    check_blob opts.blob_trust_policy
    collaborators ← set_revocation opts store
    ok (record {
      oci_trust_policy_doc = opts.oci_trust_policy;
      blob_trust_policy_doc = opts.blob_trust_policy;
      collaborators = collaborators;
    })
