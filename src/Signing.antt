-- ===== src/Signing.antt =====
-- notation.go: `Sign` and the functions that it shares with `SignBlob`. The signer, the repository
-- and the parsers of references, digests and media types are given.
pub mod Metadata
pub mod Laws
use notation_go_lib.Base.{
  ℕ, zero, suc, String, Bool, true, false, not, ◌&&◌, ◌||◌, Option, none, some, List, [], ◌∷◌, ◌++◌,
  ◌==◌, if◌then◌else◌, nat_eq, is_some, Result, ok, err, ◌>>=◌, ◌>>◌, guard, wrap_err,
}
use Prim.Native.Nat.{◌%◌}
use notation_go_lib.Text.{has_prefix}
use notation_go_lib.Pkix.{StringMap}
use notation_go_lib.Verifier.Types.{Certificate, Descriptor, SignerInfo}
use notation_go_lib.Verifier.Checks.{find}
use notation_go_lib.Signatures.{ℤ, pos, negsuc}

abbrev pub jws_media_type : String
jws_media_type = "application/jose+json"

abbrev pub cose_media_type : String
cose_media_type = "application/cose"

abbrev pub thumbprint_key : String
thumbprint_key = "io.cncf.notary.x509chain.thumbprint#S256"

abbrev pub created_key : String
created_key = "org.opencontainers.image.created"

-- `reservedAnnotationPrefixes`.
abbrev pub reserved_annotation_prefixes : List String
reserved_annotation_prefixes = "io.cncf.notary" ∷ []

-- `time.Second`, in nanoseconds.
abbrev pub second : ℕ
second = 1000000000

-- `SignerSignOptions`, as far as it is validated here.
pub record SignerSignOptions : Type 0 where
  pub signature_media_type : String
  pub expiry_duration : ℤ

pub data SignError : Type 0 where
  signer_nil repo_nil expiry_negative expiry_not_in_seconds signature_media_type_empty : SignError
  signature_media_type_invalid content_media_type_invalid : String → SignError
  resolve_failed : SignError
  digest_mismatch : String → String → SignError
  metadata_reserved metadata_present : String → SignError
  signer_failed signer_info_nil thumbprints_failed signing_time_missing push_failed : SignError
  reader_nil content_media_type_empty read_failed : SignError

-- `validateSigMediaType`.
unfoldable pub validate_sig_media_type : String → Result SignError (Unit {0})
validate_sig_media_type media_type =
    guard (media_type == jws_media_type || media_type == cose_media_type)
      (signature_media_type_invalid media_type)

abbrev pub check_expiry : ℤ → Result SignError (Unit {0})
check_expiry (negsuc n) = err expiry_negative
check_expiry (pos n) = guard (nat_eq (n % second) 0) expiry_not_in_seconds

-- `validateSignArguments`; the first argument is whether the signer is there.
unfoldable pub validate_sign_arguments : Bool → SignerSignOptions → Result SignError (Unit {0})
unfolding validate_sig_media_type
validate_sign_arguments has_signer opts = do
  guard has_signer signer_nil
  check_expiry opts.expiry_duration
  guard (not (opts.signature_media_type == "")) signature_media_type_empty
  validate_sig_media_type opts.signature_media_type

-- The inner loop over the reserved prefixes.
unfoldable pub has_reserved_prefix : String → List String → Bool
unfolding has_prefix
has_reserved_prefix k [] = false
has_reserved_prefix k (prefix ∷ rest) = has_prefix prefix k || has_reserved_prefix k rest

-- The loop of `addUserMetadataToDescriptor`, over the metadata in the order of one iteration.
unfoldable pub add_entries : StringMap → StringMap → Result SignError StringMap
unfolding find has_reserved_prefix
add_entries annotations [] = ok annotations
add_entries annotations ((k, v) ∷ rest) =
    if has_reserved_prefix k reserved_annotation_prefixes
    then err (metadata_reserved k)
    else if is_some (find annotations k)
    then err (metadata_present k)
    else add_entries ((k, v) ∷ annotations) rest

-- `addUserMetadataToDescriptor`.
unfoldable pub add_user_metadata_to_descriptor :
    Descriptor → StringMap → Result SignError Descriptor
unfolding add_entries
add_user_metadata_to_descriptor desc metadata = do
  annotations ← add_entries desc.annotations metadata
  ok (record desc { annotations = annotations })

-- What `Sign` calls. `resolve` gives a descriptor, and whether its annotations are a map: nil, they
-- are the empty list. The others are `ParseReference`, `digest.Parse`, the hashes of a chain as JSON, the RFC 3339
-- format of a time, the repository and the signer with its annotations. `none` is an error.
pub record SignEnv : Type 0 where
  pub parse_reference : String → Option String
  pub is_digest : String → Bool
  pub thumbprints : List Certificate → Option String
  pub format_time : ℕ → String
  pub resolve : String → Option (Descriptor × Bool)
  pub push_signature : String → String → Descriptor → StringMap → Bool
  pub sign : Descriptor → SignerSignOptions → Option (String × Option SignerInfo)
  pub plugin_annotations : Option StringMap

pub record SignOptions : Type 0 where
  pub signer_options : SignerSignOptions
  pub artifact_reference : String
  pub user_metadata : StringMap

abbrev pub or_err : {A : Type 0} → Option A → SignError → Result SignError A
or_err none e = err e
or_err (some a) e = ok a

module _ (env : SignEnv) where
  -- The tag or digest of the reference, or the reference as it is.
  abbrev pub reference_of : String → String
  reference_of artifact_reference = elim (env.parse_reference artifact_reference) [
    | none ↦ artifact_reference
    | some reference ↦ reference
  ]

  -- A reference that differs from the resolved digest is no digest.
  abbrev pub check_digest : String → Descriptor → Result SignError (Unit {0})
  check_digest reference target =
      guard (reference == target.digest || not (env.is_digest reference))
        (digest_mismatch reference target.digest)

  abbrev from_plugin : Option StringMap → StringMap
  from_plugin none = []
  from_plugin (some annotations) = annotations

  -- `generateAnnotations`; an entry that is set stands before the older ones.
  unfoldable pub generate_annotations :
      Option SignerInfo → Option StringMap → Result SignError StringMap
  generate_annotations none annotations = err signer_info_nil
  generate_annotations (some info) annotations = do
    val ← or_err (env.thumbprints info.certificate_chain) thumbprints_failed
    guard (not (nat_eq info.signing_time 0)) signing_time_missing
    ok (
        (created_key, env.format_time info.signing_time)
        ∷ (thumbprint_key, val)
        ∷ from_plugin annotations)

  -- The resolved descriptor once the metadata are added to a copy of it: the copy shares the map of
  -- the annotations, if there is one, and the metadata are added in place.
  abbrev pub after_adding : Descriptor × Bool → Descriptor → Descriptor
  after_adding (target, true) to_sign = to_sign
  after_adding (target, false) to_sign = target

  -- `Sign`; the first two arguments are whether the signer and the repository are there.
  unfoldable pub sign : Bool → Bool → SignOptions → Result SignError Descriptor
  unfolding validate_sign_arguments add_user_metadata_to_descriptor generate_annotations
  sign has_signer has_repo opts = do
    validate_sign_arguments has_signer opts.signer_options
    guard has_repo repo_nil
    let reference = reference_of opts.artifact_reference
    resolved ← or_err (env.resolve reference) resolve_failed
    check_digest reference resolved.0
    to_sign ← add_user_metadata_to_descriptor resolved.0 opts.user_metadata
    let target = after_adding resolved to_sign
    signed ← or_err (env.sign to_sign opts.signer_options) signer_failed
    annotations ← generate_annotations signed.1 env.plugin_annotations
    guard (env.push_signature opts.signer_options.signature_media_type signed.0 target annotations)
        push_failed
    ok target
