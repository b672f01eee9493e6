-- ===== src/Verifier/Verify.antt =====
-- verifier/verifier.go: `SkipVerify`, `Verify` and `VerifyBlob`. They return an outcome, or nil, and
-- an error, or nil; `panicked` is the error of a run-time panic.
pub mod Metadata
pub mod Sound
pub mod Skip
pub mod Panics
pub mod BlobSound
use notation_go_lib.Base.{
  ℕ, String, Bool, true, false, not, ◌&&◌, ◌||◌, Option, none, some, List, [], ◌∷◌, ◌==◌,
  if◌then◌else◌, nat_eq, is_empty, Result, ok, err,
}
use notation_go_lib.Pkix.{StringMap}
use notation_go_lib.TrustPolicy.Level.{
  VerificationLevel, SignatureVerification, level_skip, get_verification_level, is_level_skip,
}
use notation_go_lib.TrustPolicy.Oci
use notation_go_lib.TrustPolicy.Oci.{OciTrustPolicy, OciDocument}
use notation_go_lib.TrustPolicy.Blob
use notation_go_lib.TrustPolicy.Blob.{BlobTrustPolicy, BlobDocument, BlobError}
use notation_go_lib.Verifier.Types.{
  Hash, sha256, sha384, sha512, other_hash, Descriptor, EnvelopeContent, Env, Outcome, VerifyError,
  panicked, policy_doc_nil, no_applicable_policy, payload_unparsable, hash_unsupported,
  descriptor_failed, descriptor_mismatch, blob_mismatch,
}
use notation_go_lib.Verifier.Checks.{verify_user_metadata}
use notation_go_lib.Verifier.Process.{fresh, process_signature}
use notation_go_lib.Verifier.New.{Verifier}

-- `notation.VerifierVerifyOptions` and `notation.BlobVerifierVerifyOptions`.
pub record VerifyOptions : Type 0 where
  pub artifact_reference : String
  pub signature_media_type : String
  pub plugin_config : StringMap
  pub user_metadata : StringMap

pub record BlobVerifyOptions : Type 0 where
  pub signature_media_type : String
  pub plugin_config : StringMap
  pub user_metadata : StringMap
  pub trust_policy_name : String

abbrev pub Verdict : Type 0
Verdict = Option Outcome × Option VerifyError

-- What `SkipVerify` answers: to skip, with the level, or not to, with a level that may be nil. A skip
-- never comes with a nil level.
pub data SkipAnswer : Type 0 where
  says_skip : VerificationLevel → SkipAnswer
  says_verify : Option VerificationLevel → SkipAnswer

abbrev pub failed_with : Outcome → VerifyError → Verdict
failed_with o e = (some (record o { error = some e }), some e)

-- The digest algorithms, by hash: the keys of the map `algorithms`.
abbrev pub digest_algorithm : Hash → Option String
digest_algorithm sha256 = some "sha256"
digest_algorithm sha384 = some "sha384"
digest_algorithm sha512 = some "sha512"
digest_algorithm (other_hash n) = none

-- The last two checks: whether the target matches, and the user's metadata, whose error is the one
-- that stays.
abbrev pub final_error : Bool → VerifyError → StringMap → StringMap → Option VerifyError
final_error matched mismatch annotations wanted =
    let first = if matched then none else some mismatch in
    if is_empty wanted
    then first
    else elim (verify_user_metadata annotations wanted) [ none ↦ first | some e ↦ some e ]

-- `return outcome, outcome.Error`
abbrev pub conclude : Outcome → Option VerifyError → Verdict
conclude o e = (some (record o { error = e }), e)

module _ (env : Env) (v : Verifier) where
  -- `Verify` after `processSignature` has passed.
  unfoldable pub compare_target : Descriptor → VerifyOptions → Outcome → Verdict
  compare_target desc opts o = elim (o.envelope_content) [
    | none ↦ (none, some panicked)
    | some content ↦ elim (env.unmarshal_payload content.content) [
      | none ↦ failed_with o payload_unparsable
      | some target ↦ conclude o (
          final_error (env.content_equal target desc) descriptor_mismatch target.annotations
            opts.user_metadata)
    ]
  ]

  -- `Verify` under a policy and its level.
  unfoldable pub verify_at :
      OciTrustPolicy → VerificationLevel → Descriptor → String → VerifyOptions → Verdict
  verify_at policy level desc signature opts =
      if is_level_skip level
      then (some (fresh signature level), none)
      else let (r, o) =
          process_signature env v.collaborators signature opts.signature_media_type
            policy.trusted_identities policy.trust_stores policy.signature_verification
            opts.plugin_config (fresh signature level) in
        elim r [ err e ↦ failed_with o e | ok u ↦ compare_target desc opts o ]

  -- The level's error is dropped, and the nil level that comes with it is read by the first check.
  unfoldable pub verify_under : OciTrustPolicy → Descriptor → String → VerifyOptions → Verdict
  verify_under policy desc signature opts =
      elim (get_verification_level policy.signature_verification) [
        | err e ↦ (none, some panicked)
        | ok level ↦ verify_at policy level desc signature opts
      ]

  -- `Verify`.
  unfoldable pub verify : Descriptor → String → VerifyOptions → Verdict
  verify desc signature opts = elim (v.oci_trust_policy_doc) [
    | none ↦ (none, some policy_doc_nil)
    | some doc ↦ elim (Oci.get_applicable_trust_policy doc opts.artifact_reference) [
      | err e ↦ (none, some no_applicable_policy)
      | ok policy ↦ verify_under policy desc signature opts
    ]
  ]

  -- `SkipVerify`. Unlike `Verify` it does not test the document, and reading the statements of a nil
  -- document panics where the reference parses. The level's error is dropped: the level is then nil.
  unfoldable pub skip_verify : VerifyOptions → Result VerifyError SkipAnswer
  skip_verify opts = elim (v.oci_trust_policy_doc) [
    | none ↦ elim (Oci.get_artifact_path_from_reference opts.artifact_reference) [
      | err e ↦ err no_applicable_policy
      | ok path ↦ err panicked
    ]
    | some doc ↦ elim (Oci.get_applicable_trust_policy doc opts.artifact_reference) [
      | err e ↦ err no_applicable_policy
      | ok policy ↦ elim (get_verification_level policy.signature_verification) [
        | err e ↦ ok (says_verify none)
        | ok level ↦
            if is_level_skip level then ok (says_skip level_skip) else ok (says_verify (some level))
      ]
    ]
  ]

  abbrev pub blob_matches : Descriptor → Descriptor → Bool
  blob_matches desc target =
      desc.digest == target.digest
      && nat_eq desc.size target.size
      && (desc.media_type == "" || desc.media_type == target.media_type)

  -- `VerifyBlob` after `processSignature` has passed; `generate` is `descGenFunc`.
  unfoldable pub compare_blob : (String → Option Descriptor) → BlobVerifyOptions → Outcome → Verdict
  compare_blob generate opts o = elim (o.envelope_content) [
    | none ↦ (none, some panicked)
    | some content ↦ elim (env.unmarshal_payload content.content) [
      | none ↦ failed_with o payload_unparsable
      | some target ↦ elim (digest_algorithm content.signer_info.hash) [
        | none ↦ failed_with o hash_unsupported
        | some algorithm ↦ elim (generate algorithm) [
          | none ↦ failed_with o descriptor_failed
          | some desc ↦ conclude o (
              final_error (blob_matches desc target) blob_mismatch target.annotations
                opts.user_metadata)
        ]
      ]
    ]
  ]

  unfoldable pub verify_blob_at :
      BlobTrustPolicy
      → VerificationLevel
      → (String → Option Descriptor)
      → String
      → BlobVerifyOptions
      → Verdict
  verify_blob_at policy level generate signature opts =
      if is_level_skip level
      then (some (fresh signature level), none)
      else let (r, o) =
          process_signature env v.collaborators signature opts.signature_media_type
            policy.trusted_identities policy.trust_stores policy.signature_verification
            opts.plugin_config (fresh signature level) in
        elim r [ err e ↦ failed_with o e | ok u ↦ compare_blob generate opts o ]

  -- The policy of a blob: the global one where no name is given.
  unfoldable pub blob_policy : BlobDocument → String → Result BlobError BlobTrustPolicy
  blob_policy doc name =
      if name == ""
      then Blob.get_global_trust_policy doc
      else Blob.get_applicable_trust_policy doc name

  -- `VerifyBlob`.
  unfoldable pub verify_blob : (String → Option Descriptor) → String → BlobVerifyOptions → Verdict
  verify_blob generate signature opts = elim (v.blob_trust_policy_doc) [
    | none ↦ (none, some policy_doc_nil)
    | some doc ↦ elim (blob_policy doc opts.trust_policy_name) [
      | err e ↦ (none, some no_applicable_policy)
      | ok policy ↦ elim (get_verification_level policy.signature_verification) [
        | err e ↦ (none, some panicked)
        | ok level ↦ verify_blob_at policy level generate signature opts
      ]
    ]
  ]
