-- ===== src/Tests.antt =====
-- Concrete data for the examples, which stand in the children: documents, a verifier whose
-- collaborators are concrete functions, a repository with one signature.
pub mod Policies
pub mod Verifying
pub mod Constructing
pub mod Fetching
pub mod Checking
pub mod Signing
pub mod Plugins
pub mod Stored
use notation_go_lib.Base.{
  ℕ, String, Bool, true, false, Option, none, some, List, [], ◌∷◌, ◌==◌, Result, ok, err,
  if◌then◌else◌,
}
use notation_go_lib.Pkix.{StringMap, Rdn}
use notation_go_lib.TrustPolicy.Level.{SignatureVerification}
use notation_go_lib.TrustPolicy.Oci.{OciTrustPolicy, OciDocument}
use notation_go_lib.TrustPolicy.Blob.{BlobTrustPolicy, BlobDocument}
use notation_go_lib.Verifier.Types
use notation_go_lib.Verifier.Types.{
  Certificate, SignerInfo, Descriptor, EnvelopeContent, Env, Collaborators, Timestamp,
  RevocationStatus, VerifyError,
}
use notation_go_lib.Verifier.New.{Verifier, TrustStore, Library, VerifierOptions}
use notation_go_lib.Verifier.Verify.{VerifyOptions, BlobVerifyOptions}
use notation_go_lib.Registry.{
  Repository, Target, Artifact, Image, media_type_image_manifest, artifact_type_notation,
}
use notation_go_lib.Signatures.{ℤ, pos, NotationOptions, Reference}

abbrev pub subject : String
subject = "C=US,ST=WA,O=acme"

abbrev pub rdns : List Rdn
rdns = (("C", "US") ∷ []) ∷ (("ST", "WA") ∷ []) ∷ (("O", "acme") ∷ []) ∷ []

-- A parser that knows one name.
abbrev pub parse_one : String → Option (List Rdn)
parse_one name = if name == subject then some rdns else none

abbrev pub strict : SignatureVerification
strict = record { level = "strict"; override = ("revocation", "skip") ∷ []; verify_timestamp = "" }

abbrev pub skipping : SignatureVerification
skipping = record { level = "skip"; override = []; verify_timestamp = "" }

abbrev pub net_policy : OciTrustPolicy
net_policy = record {
  name = "net";
  signature_verification = strict;
  trust_stores = "ca:acme" ∷ [];
  trusted_identities = "x509.subject:C=US,ST=WA,O=acme" ∷ [];
  registry_scopes = "reg.io/net" ∷ [];
}

abbrev pub wild_policy : OciTrustPolicy
wild_policy = record {
  name = "rest";
  signature_verification = skipping;
  trust_stores = [];
  trusted_identities = [];
  registry_scopes = "*" ∷ [];
}

abbrev pub document : OciDocument
document = record { version = "1.0"; trust_policies = net_policy ∷ wild_policy ∷ [] }

abbrev pub narrow_document : OciDocument
narrow_document = record { version = "1.0"; trust_policies = net_policy ∷ [] }

abbrev pub named_blob : BlobTrustPolicy
named_blob = record {
  name = "named";
  signature_verification = strict;
  trust_stores = "ca:acme" ∷ [];
  trusted_identities = "*" ∷ [];
  global_policy = false;
}

abbrev pub global_blob : BlobTrustPolicy
global_blob = record {
  name = "global";
  signature_verification = skipping;
  trust_stores = [];
  trusted_identities = [];
  global_policy = true;
}

abbrev pub blob_document : BlobDocument
blob_document = record { version = "1.0"; trust_policies = named_blob ∷ global_blob ∷ [] }

abbrev pub leaf : Certificate
leaf = record { subject = subject; raw = "leaf"; not_before = 10; not_after = 90 }

abbrev pub root : Certificate
root = record { subject = "C=US,ST=WA,O=root"; raw = "root"; not_before = 1; not_after = 99 }

abbrev pub info : SignerInfo
info = record {
  scheme = Types.x509;
  signing_time = 20;
  expiry = 80;
  extended_attributes = [];
  timestamp_signature = "";
  signature = "sig";
  hash = Types.sha256;
  certificate_chain = leaf ∷ root ∷ [];
}

abbrev pub artifact : Descriptor
artifact = record { media_type = "image"; digest = "sha256:1"; size = 7; annotations = [] }

-- The artifact as it was signed, with metadata.
abbrev pub signed_artifact : Descriptor
signed_artifact = record artifact { annotations = ("k", "v") ∷ [] }

abbrev pub content : EnvelopeContent
content = record {
  signer_info = info;
  content_type = "application/vnd.cncf.notary.payload.v1+json";
  content = "payload";
}

abbrev pub env : Env
env = record {
  parse_dn = parse_one;
  parse_envelope = λ media_type blob. if blob == "blob" then some 1 else none;
  verify_envelope = λ e. ok content;
  verify_authenticity = λ i roots. none;
  extended_attribute = λ i key. none;
  authentic_signing_time = λ i. i.signing_time;
  version_below = λ v w. false;
  unmarshal_payload = λ text. some signed_artifact;
  content_equal = λ a b. a.digest == b.digest;
  now_at_expiry = 50;
  now_at_timestamp = 50;
  parse_signed_token = λ text. some 1;
  token_info = λ token. some 1;
  validate_info = λ tst signature. some (record { value = 30; accuracy = 1 });
  verify_token = λ token time roots. some (root ∷ []);
  bounded_after = λ stamp time. true;
  bounded_before = λ stamp time. true;
  valid_tsa_chain = λ chain. true;
}

abbrev pub goods : List Certificate → List RevocationStatus
goods [] = []
goods (cert ∷ certs) = Types.good ∷ goods certs

abbrev pub all_good : List Certificate → Option (List RevocationStatus)
all_good certs = some (goods certs)

abbrev pub trust_store : TrustStore
trust_store type name =
    if name == "acme" then ok (root ∷ []) else err (VerifyError.store_failed type name)

abbrev pub collaborators : Collaborators
collaborators = record {
  get_certificates = trust_store;
  plugin_manager = none;
  revocation_client = none;
  code_signing_validator = some (λ certs time. all_good certs);
  timestamping_validator = all_good;
}

abbrev pub verifier : Verifier
verifier = record {
  oci_trust_policy_doc = some document;
  blob_trust_policy_doc = some blob_document;
  collaborators = collaborators;
}

abbrev pub blob_only : Verifier
blob_only = record verifier { oci_trust_policy_doc = none }

abbrev pub options : VerifyOptions
options = record {
  artifact_reference = "reg.io/net@sha256:1";
  signature_media_type = "application/jose+json";
  plugin_config = [];
  user_metadata = ("k", "v") ∷ [];
}

abbrev pub other_options : VerifyOptions
other_options = record options { artifact_reference = "reg.io/other@sha256:1" }

abbrev pub blob_options : BlobVerifyOptions
blob_options = record {
  signature_media_type = "application/jose+json";
  plugin_config = [];
  user_metadata = ("k", "v") ∷ [];
  trust_policy_name = "named";
}

abbrev pub global_options : BlobVerifyOptions
global_options = record blob_options { trust_policy_name = "" }

abbrev pub manifest : Descriptor
manifest = record {
  media_type = media_type_image_manifest;
  digest = "sha256:m";
  size = 5;
  annotations = [];
}

abbrev pub envelope : Descriptor
envelope = record {
  media_type = "application/jose+json";
  digest = "sha256:e";
  size = 4;
  annotations = [];
}

-- A target that holds one signature of the artifact, in an image manifest.
abbrev pub target : Target
target = record {
  resolve = λ reference. some artifact;
  lister = none;
  predecessors = λ desc. some (manifest ∷ []);
  fetch_manifest = λ desc. some "manifest";
  fetch_blob = λ desc. some "blob";
  parse_artifact = λ json. none;
  parse_image = λ json. some (record {
    config_media_type = artifact_type_notation;
    layers = envelope ∷ [];
    subject = some artifact;
    annotations = [];
  });
  content_equal = λ a b. a.digest == b.digest;
}

abbrev pub notation_options : NotationOptions
notation_options = record {
  artifact_reference = "reg.io/net@sha256:1";
  plugin_config = [];
  max_signature_attempts = pos 2;
  user_metadata = ("k", "v") ∷ [];
}

abbrev pub parse_reference : String → Option Reference
parse_reference text = some (record { reference = "sha256:1"; is_digest = true })
