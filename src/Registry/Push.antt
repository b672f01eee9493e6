-- ===== src/Registry/Push.antt =====
-- registry/repository.go: `PushSignature`. What oras does to the target is the record `PushEnv`, on the
-- state `Store` of the target: each operation returns its result and the state that it leaves.
use notation_go_lib.Base.{
  String, Bool, true, false, Option, none, some, List, [], ◌∷◌, Result, ok, err,
}
use notation_go_lib.Pkix.{StringMap}
use notation_go_lib.Verifier.Types.{Descriptor}
use notation_go_lib.Registry.{
  RegistryError, artifact_type_notation, exists_failed, config_push_failed, pack_failed,
  push_failed,
}

-- `oras.PackManifestOptions`, with the version and the artifact type that are always given.
pub record PackManifestOptions : Type 0 where
  pub subject : Descriptor
  pub manifest_annotations : StringMap
  pub layers : List Descriptor
  pub config_descriptor : Descriptor

-- What `Push` returns: nil, `ErrAlreadyExists` or another error.
pub data PushResult : Type 0 where
  pushed already_exists push_error : PushResult

pub record PushEnv (Store : Type 0) : Type 0 where
  -- `ocispec.DescriptorEmptyJSON`.
  pub empty_json : Descriptor
  pub push_bytes : Store → String → String → Option Descriptor × Store
  pub exists : Store → Descriptor → Option Bool
  -- `Push`, of a descriptor's empty configuration.
  pub push_empty : Store → Descriptor → PushResult × Store
  pub pack_manifest : Store → PackManifestOptions → Option Descriptor × Store

module _ {Store : Type 0} (e : PushEnv Store) where
  -- `notationEmptyConfigDesc`.
  abbrev pub notation_empty_config_desc : Descriptor
  notation_empty_config_desc = record {
    media_type = artifact_type_notation;
    digest = e.empty_json.digest;
    size = e.empty_json.size;
    annotations = [];
  }

  abbrev pub push_config : Store → PushResult → Result RegistryError Descriptor × Store
  push_config s push_error = (err config_push_failed, s)
  push_config s pushed = (ok notation_empty_config_desc, s)
  push_config s already_exists = (ok notation_empty_config_desc, s)

  -- `pushNotationManifestConfig`.
  unfoldable pub push_notation_manifest_config : Store → Result RegistryError Descriptor × Store
  push_notation_manifest_config s = elim (e.exists s notation_empty_config_desc) [
    | none ↦ (err exists_failed, s)
    | some true ↦ (ok notation_empty_config_desc, s)
    | some false ↦
        let (result, s') = e.push_empty s notation_empty_config_desc in push_config s' result
  ]

  abbrev pub pack_options : Descriptor → Descriptor → StringMap → Descriptor → PackManifestOptions
  pack_options subject blob_desc annotations config_desc = record {
    subject = subject;
    manifest_annotations = annotations;
    layers = blob_desc ∷ [];
    config_descriptor = config_desc;
  }

  abbrev pub or_failed : RegistryError → Option Descriptor → Result RegistryError Descriptor
  or_failed failure none = err failure
  or_failed failure (some desc) = ok desc

  -- `uploadSignatureManifest`.
  unfoldable pub upload_signature_manifest :
      Store → Descriptor → Descriptor → StringMap → Result RegistryError Descriptor × Store
  unfolding push_notation_manifest_config
  upload_signature_manifest s subject blob_desc annotations =
      let (config, s') = push_notation_manifest_config s in
      elim config [
        | err failure ↦ (err failure, s')
        | ok config_desc ↦
            let (manifest, s'') =
              e.pack_manifest s' (pack_options subject blob_desc annotations config_desc) in
            (or_failed pack_failed manifest, s'')
      ]

  abbrev pub with_blob :
      Descriptor
      → Result RegistryError Descriptor × Store
      → Result RegistryError (Descriptor × Descriptor) × Store
  with_blob blob_desc (err failure, s) = (err failure, s)
  with_blob blob_desc (ok manifest, s) = (ok (blob_desc, manifest), s)

  -- `PushSignature`: the descriptors of the envelope and of the manifest.
  unfoldable pub push_signature :
      Store
      → String
      → String
      → Descriptor
      → StringMap
      → Result RegistryError (Descriptor × Descriptor) × Store
  unfolding upload_signature_manifest
  push_signature s media_type blob subject annotations =
      let (pushed_blob, s') = e.push_bytes s media_type blob in
      elim pushed_blob [
        | none ↦ (err push_failed, s')
        | some blob_desc ↦
            with_blob blob_desc (upload_signature_manifest s' subject blob_desc annotations)
      ]
