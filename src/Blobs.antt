-- ===== src/Blobs.antt =====
-- notation.go: `SignBlob`, `VerifyBlob` and the generator of a blob's descriptor. A reader is what
-- hashing its bytes gives: the digest by an algorithm and the number of bytes; `none` is an error.
pub mod Laws
use notation_go_lib.Base.{
  ℕ, String, Bool, true, false, not, Option, none, some, List, [], ◌∷◌, ◌==◌, if◌then◌else◌, Result,
  ok, err, ◌>>=◌, ◌>>◌, guard, is_some,
}
use notation_go_lib.Pkix.{StringMap}
use notation_go_lib.Verifier.Types.{Descriptor, Outcome, SignerInfo, VerifyError}
use notation_go_lib.Verifier.Verify.{BlobVerifyOptions, Verdict}
use notation_go_lib.Signing.{
  SignError, content_media_type_invalid, content_media_type_empty, read_failed, signer_failed,
  SignerSignOptions, validate_sign_arguments, validate_sig_media_type,
  add_user_metadata_to_descriptor, or_err,
}

abbrev pub Reader : Type 0
Reader = String → Option (String × ℕ)

abbrev pub Generator : Type 0
Generator = String → Result SignError Descriptor

-- `getDescriptorFunc`.
unfoldable pub get_descriptor_func : Reader → String → StringMap → Generator
get_descriptor_func reader content_media_type metadata algorithm = do
  (digest, size) ← or_err (reader algorithm) read_failed
  add_user_metadata_to_descriptor
      (record { media_type = content_media_type; digest = digest; size = size; annotations = [] })
      metadata

pub data BlobError : Type 0 where
  verifier_nil reader_nil signature_empty : BlobError
  bad_argument : SignError → BlobError
  verifier_failed : VerifyError → BlobError
  payload_unparsable panicked : BlobError

abbrev pub as_argument : Result SignError (Unit {0}) → Result BlobError (Unit {0})
as_argument (ok u) = ok u
as_argument (err e) = err (bad_argument e)

-- What follows a verdict of the verifier; reading the content of an outcome without an envelope
-- dereferences nil.
unfoldable pub after_verdict :
    (String → Option Descriptor) → Verdict → Result BlobError (Descriptor × Outcome)
after_verdict unmarshal (o, some e) = err (verifier_failed e)
after_verdict unmarshal (none, none) = err panicked
after_verdict unmarshal (some o, none) = elim (o.envelope_content) [
  | none ↦ err panicked
  | some content ↦ elim (unmarshal content.content) [
    | none ↦ err payload_unparsable
    | some desc ↦ ok (desc, o)
  ]
]

module _ (parse_media_type : String → Bool) where
  -- `validateContentMediaType`; the parameter is whether `mime.ParseMediaType` has no error.
  unfoldable pub validate_content_media_type : String → Result SignError (Unit {0})
  validate_content_media_type media_type =
      if media_type == ""
      then ok tt
      else guard (parse_media_type media_type) (content_media_type_invalid media_type)

  -- `SignBlob`; a nil signer or reader is `none`.
  unfoldable pub sign_blob :
      Option (Generator → SignerSignOptions → Option (String × SignerInfo))
      → Option Reader
      → SignerSignOptions
      → String
      → StringMap
      → Result SignError (String × SignerInfo)
  unfolding validate_content_media_type get_descriptor_func
  sign_blob signer reader opts content_media_type metadata = do
    validate_sign_arguments (is_some signer) opts
    signer ← or_err signer SignError.signer_nil
    reader ← or_err reader SignError.reader_nil
    guard (not (content_media_type == "")) content_media_type_empty
    validate_content_media_type content_media_type
    or_err (signer (get_descriptor_func reader content_media_type metadata) opts) signer_failed

  -- `VerifyBlob`; `unmarshal` reads the payload as a descriptor. A nil verifier or reader is `none`.
  unfoldable pub verify_blob :
      Option (Generator → String → BlobVerifyOptions → Verdict)
      → Option Reader
      → (String → Option Descriptor)
      → String
      → String
      → BlobVerifyOptions
      → Result BlobError (Descriptor × Outcome)
  unfolding validate_content_media_type get_descriptor_func after_verdict
  verify_blob none reader unmarshal signature content_media_type opts = err verifier_nil
  verify_blob (some verifier) none unmarshal signature content_media_type opts = err reader_nil
  verify_blob (some verifier) (some reader) unmarshal signature content_media_type opts = do
    guard (not (signature == "")) signature_empty
    as_argument (validate_content_media_type content_media_type)
    as_argument (validate_sig_media_type opts.signature_media_type)
    after_verdict unmarshal
        (verifier (get_descriptor_func reader content_media_type opts.user_metadata) signature opts)
