-- ===== src/Tests/Signing.antt =====
-- Examples for the theorems on signing, on blobs and on the signing keys.
use notation_go_lib.Base.{
  String, ◌≡◌, ◌≢◌, ◌⊎◌, refl, Bool, true, false, Option, none, some, [], ◌∷◌, ok, err,
}
use notation_go_lib.TrustPolicy.Level.{level_skip, get_verification_level, is_level_skip}
use notation_go_lib.TrustPolicy.Blob
use notation_go_lib.Verifier.Types.{Descriptor, Outcome, EnvelopeContent}
use notation_go_lib.Verifier.Checks.{verify_user_metadata}
use notation_go_lib.Verifier.Process.{fresh}
use notation_go_lib.Verifier.Verify.{BlobVerifyOptions, Verdict, blob_policy}
use notation_go_lib.Signatures.{pos}
use notation_go_lib.Signing.{
  SignOptions, SignEnv, sign, add_user_metadata_to_descriptor, jws_media_type, cose_media_type,
  validate_sig_media_type,
}
use notation_go_lib.Signing.Metadata.{add_user_metadata-verify}
use notation_go_lib.Signing.Laws.{Signed, sign_sound}
use notation_go_lib.Blobs.{
  Reader, Generator, verify_blob, get_descriptor_func, validate_content_media_type, panicked,
}
use notation_go_lib.Blobs.Laws.{blob_verifier, verify_blob_outcome, verify_blob_skip_panics}
use notation_go_lib.Keys.{KeySuite, SigningKeys, add, validate_keys}
use notation_go_lib.Keys.Laws.{AreKeys, validate_keys_iff}
use notation_go_lib.Keys.Reachable.{Change, Reachable, Reachable-validate_keys}
use notation_go_lib.Tests.{
  env, verifier, blob_document, global_blob, blob_options, global_options, info, content, artifact,
  signed_artifact,
}

add_user_metadata-verify_example : verify_user_metadata (("k", "v") ∷ []) (("k", "v") ∷ []) ≡ none
unfolding add_user_metadata_to_descriptor
add_user_metadata-verify_example =
    add_user_metadata-verify artifact signed_artifact (("k", "v") ∷ []) refl

abbrev sign_env : SignEnv
sign_env = record {
  parse_reference = λ text. some "sha256:1";
  is_digest = λ text. true;
  thumbprints = λ certs. some "[]";
  format_time = λ time. "now";
  resolve = λ reference. some (artifact, false);
  push_signature = λ media_type blob subject annotations. true;
  sign = λ desc opts. some ("blob", some info);
  plugin_annotations = none;
}

abbrev sign_options : SignOptions
sign_options = record {
  signer_options = record {
    signature_media_type = "application/cose";
    expiry_duration = pos 3000000000;
  };
  artifact_reference = "reg.io/net@sha256:1";
  user_metadata = ("k", "v") ∷ [];
}

sign_sound_example : Signed sign_env sign_options artifact
unfolding sign
sign_sound_example = sign_sound sign_env true true sign_options artifact refl

abbrev reader : Reader
reader algorithm = some ("sha256:1", 7)

abbrev is_media_type : String → Bool
is_media_type text = true

abbrev accepted : Outcome
accepted = record (fresh "blob" level_skip) { envelope_content = some content }

abbrev accepting : Generator → String → BlobVerifyOptions → Verdict
accepting generate signature opts = (some accepted, none)

abbrev unmarshal : String → Option Descriptor
unmarshal text = some artifact

verify_blob_outcome_example :
    (accepted.raw_signature ≢ "")
    × ((blob_options.signature_media_type ≡ jws_media_type)
        ⊎ (blob_options.signature_media_type ≡ cose_media_type))
    × (accepting
          (get_descriptor_func reader "text/plain" blob_options.user_metadata)
          "blob"
          blob_options
        ≡ (some accepted, none))
    × ((c : EnvelopeContent) × (accepted.envelope_content ≡ some c)
        × (unmarshal c.content ≡ some artifact))
unfolding verify_blob validate_sig_media_type
verify_blob_outcome_example =
    verify_blob_outcome is_media_type accepting reader unmarshal "blob" "text/plain" blob_options
      artifact accepted refl

verify_blob_skip_panics_example :
    verify_blob is_media_type
      (some (blob_verifier is_media_type env verifier))
      (some reader)
      unmarshal
      "blob"
      "text/plain"
      global_options
    ≡ err panicked
unfolding blob_policy Blob.get_global_trust_policy get_verification_level is_level_skip
    validate_content_media_type validate_sig_media_type
verify_blob_skip_panics_example =
    verify_blob_skip_panics is_media_type env verifier blob_document global_blob level_skip reader
      unmarshal "blob" "text/plain" global_options refl refl refl refl (λ e. cc) refl refl

abbrev key : String → KeySuite
key name = record {
  name = name;
  x509_key_pair = some (record { key_path = "k"; certificate_path = "c" });
  external_key = none;
}

abbrev two_keys : SigningKeys
two_keys = record { default = some "b"; keys = key "a" ∷ key "b" ∷ [] }

abbrev one_key : SigningKeys
one_key = record { default = none; keys = key "a" ∷ [] }

two-AreKeys : AreKeys two_keys
unfolding validate_keys
two-AreKeys = (validate_keys_iff two_keys).0 refl

validate_keys_iff_example : AreKeys two_keys
unfolding validate_keys
validate_keys_iff_example = (validate_keys_iff two_keys).0 refl

abbrev load : String → String → Bool
load cert_path key_path = true

abbrev installed : String → Bool
installed name = false

reached : Reachable load installed one_key
unfolding add
reached = Reachable.next Reachable.new (Change.adds "a" "k" "c" false refl)

Reachable-validate_keys_example : validate_keys one_key ≡ ok tt
Reachable-validate_keys_example = Reachable-validate_keys load installed one_key reached
