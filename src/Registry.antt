-- ===== src/Registry.antt =====
-- registry/repository.go and registry/interface.go: signatures of an artifact in a registry or in an
-- OCI layout. The content store of the ORAS library is a record of what the client asks it for.
pub mod Fetching
pub mod Listing
pub mod Complete
pub mod Push
pub mod Pushed
use notation_go_lib.Base.{
  ℕ, String, Bool, true, false, not, ◌&&◌, ◌||◌, Option, none, some, List, [], ◌∷◌, ◌++◌, ◌==◌,
  if◌then◌else◌, ltb, nat_eq, length, Result, ok, err, ◌>>=◌, ◌>>◌, guard, wrap_err,
}
use notation_go_lib.Pkix.{StringMap}
use notation_go_lib.Verifier.Types.{Descriptor}

abbrev pub artifact_type_notation : String
artifact_type_notation = "application/vnd.cncf.notary.signature"

abbrev pub media_type_artifact_manifest : String
media_type_artifact_manifest = "application/vnd.oci.artifact.manifest.v1+json"

abbrev pub media_type_image_manifest : String
media_type_image_manifest = "application/vnd.oci.image.manifest.v1+json"

-- `maxBlobSizeLimit` and `maxManifestSizeLimit`.
abbrev pub max_blob_size_limit : ℕ
max_blob_size_limit = 33554432

abbrev pub max_manifest_size_limit : ℕ
max_manifest_size_limit = 4194304

-- `artifactspec.Artifact`, without its media type.
pub record Artifact : Type 0 where
  pub artifact_type : String
  pub blobs : List Descriptor
  pub subject : Option Descriptor
  pub annotations : StringMap

-- `ocispec.Manifest`, as the client reads it.
pub record Image : Type 0 where
  pub config_media_type : String
  pub layers : List Descriptor
  pub subject : Option Descriptor
  pub annotations : StringMap

pub data RegistryError : Type 0 where
  media_type_refused : String → RegistryError
  manifest_too_large blob_too_large node_too_large : ℕ → RegistryError
  fetch_failed : Descriptor → RegistryError
  manifest_unparsable predecessors_failed : RegistryError
  blob_count : ℕ → RegistryError
  referrers_failed : RegistryError → RegistryError
  lister_failed : String → RegistryError
  exists_failed config_push_failed pack_failed push_failed : RegistryError

-- Pages of signature manifests, and the error that follows the last page.
abbrev pub Listing : Type 0
Listing = List (List Descriptor) × Option RegistryError

-- `registry.Repository`, as its callers use it. `ListSignatures` hands the pages to a callback one
-- by one; `Notation` runs the callback over the listing.
pub record Repository : Type 0 where
  pub resolve : String → Option Descriptor
  pub list_signatures : Descriptor → Listing
  pub fetch_signature_blob : Descriptor → Result RegistryError (String × Descriptor)

-- What the client asks `oras.GraphTarget` and its library for. `lister` is there where the target
-- is a `ReferrerLister`.
pub record Target : Type 0 where
  pub resolve : String → Option Descriptor
  pub lister : Option (Descriptor → String → Listing)
  pub predecessors : Descriptor → Option (List Descriptor)
  pub fetch_manifest : Descriptor → Option String
  pub fetch_blob : Descriptor → Option String
  pub parse_artifact : String → Option Artifact
  pub parse_image : String → Option Image
  pub content_equal : Descriptor → Descriptor → Bool

abbrev pub or_error : {A : Type 0} → Option A → RegistryError → Result RegistryError A
or_error none e = err e
or_error (some a) e = ok a

module _ (t : Target) where
  -- The blobs that a signature manifest names, by the kind of manifest.
  manifest_blobs : String → String → Result RegistryError (List Descriptor)
  manifest_blobs media_type json =
      if media_type == media_type_image_manifest
      then elim (t.parse_image json) [
        | none ↦ err manifest_unparsable
        | some image ↦ ok image.layers
      ]
      else elim (t.parse_artifact json) [
        | none ↦ err manifest_unparsable
        | some artifact ↦ ok artifact.blobs
      ]

  abbrev only_blob : List Descriptor → Result RegistryError Descriptor
  only_blob (blob ∷ []) = ok blob
  only_blob blobs = err (blob_count (length blobs))

  -- `getSignatureBlobDesc`.
  unfoldable pub get_signature_blob_desc : Descriptor → Result RegistryError Descriptor
  unfolding manifest_blobs
  get_signature_blob_desc manifest = do
    guard
        (not (
          not (manifest.media_type == media_type_artifact_manifest)
          && not (manifest.media_type == media_type_image_manifest)))
        (media_type_refused manifest.media_type)
    guard (not (ltb max_manifest_size_limit manifest.size)) (manifest_too_large manifest.size)
    json ← or_error (t.fetch_manifest manifest) (fetch_failed manifest)
    blobs ← manifest_blobs manifest.media_type json
    only_blob blobs

  -- `FetchSignatureBlob`.
  unfoldable pub fetch_signature_blob : Descriptor → Result RegistryError (String × Descriptor)
  unfolding get_signature_blob_desc
  fetch_signature_blob manifest = do
    blob_desc ← get_signature_blob_desc manifest
    guard (not (ltb max_blob_size_limit blob_desc.size)) (blob_too_large blob_desc.size)
    blob ← or_error (t.fetch_blob blob_desc) (fetch_failed blob_desc)
    ok (blob, blob_desc)

  -- `*subject` equals the descriptor; false where the subject is nil.
  abbrev pub has_subject : Option Descriptor → Descriptor → Bool
  has_subject none desc = false
  has_subject (some subject) desc = t.content_equal subject desc

  -- What is kept of a node whose manifest was read: only a signature of the subject, with the
  -- manifest's annotations. The field `ArtifactType` of what is kept is always the notation type.
  abbrev keep : Descriptor → Descriptor → Option Descriptor → String → StringMap → List Descriptor
  keep node desc subject artifact_type annotations =
      if not (has_subject subject desc)
      then []
      else if artifact_type == artifact_type_notation
      then record node { annotations = annotations } ∷ []
      else []

  -- One round of `signatureReferrers`: the nodes that it adds.
  referrer_of : Descriptor → Descriptor → Result RegistryError (List Descriptor)
  referrer_of desc node =
      if node.media_type == media_type_artifact_manifest
      then (do
        guard (not (ltb max_manifest_size_limit node.size)) (node_too_large node.size)
        json ← or_error (t.fetch_manifest node) (fetch_failed node)
        artifact ← or_error (t.parse_artifact json) manifest_unparsable
        ok (keep node desc artifact.subject artifact.artifact_type artifact.annotations))
      else if node.media_type == media_type_image_manifest
      then (do
        guard (not (ltb max_manifest_size_limit node.size)) (node_too_large node.size)
        json ← or_error (t.fetch_manifest node) (fetch_failed node)
        image ← or_error (t.parse_image json) manifest_unparsable
        ok (keep node desc image.subject image.config_media_type image.annotations))
      else ok []

  -- The loop over the predecessors.
  pub referrers_of : Descriptor → List Descriptor → Result RegistryError (List Descriptor)
  referrers_of desc [] = ok []
  referrers_of desc (node ∷ rest) = elim (referrer_of desc node) [
    | err e ↦ err e
    | ok kept ↦ do more ← referrers_of desc rest; ok (kept ++ more)
  ]

  -- `signatureReferrers`.
  unfoldable pub signature_referrers : Descriptor → Result RegistryError (List Descriptor)
  unfolding referrers_of referrer_of
  signature_referrers desc = do
    nodes ← or_error (t.predecessors desc) predecessors_failed
    referrers_of desc nodes

  -- `ListSignatures`.
  unfoldable pub list_signatures : Descriptor → Listing
  unfolding signature_referrers
  list_signatures desc = elim (t.lister) [
    | some list ↦ list desc artifact_type_notation
    | none ↦ elim (signature_referrers desc) [
      | err e ↦ ([], some (referrers_failed e))
      | ok manifests ↦ (manifests ∷ [], none)
    ]
  ]

  -- `NewRepository`: the client of a target.
  unfoldable pub new_repository : Repository
  unfolding list_signatures fetch_signature_blob
  new_repository = record {
    resolve = t.resolve;
    list_signatures = list_signatures;
    fetch_signature_blob = fetch_signature_blob;
  }
