-- ===== src/Verifier/Plugins.antt =====
-- verifier/verifier.go: the verification plugin, found from the signature's attributes, and what it
-- answers.
use notation_go_lib.Base.{
  ℕ, String, Bool, true, false, not, ◌||◌, Option, none, some, List, [], ◌∷◌, ◌++◌, if◌then◌else◌,
  is_empty, Result, ok, err,
}
use mathlib.Core.List.{map}
use notation_go_lib.Pkix.{StringMap}
use notation_go_lib.Semver.{is_valid}
use notation_go_lib.TrustPolicy.Level.{ValidationType, type_eq}
use notation_go_lib.Verifier.Types.{
  SigningScheme, signing_authority, Attribute, AttributeKey, text_key, number_key, AttributeValue,
  SignerInfo, EnvelopeContent, Capability, trusted_identity_verifier, revocation_check_verifier,
  VerifyPlugin, Metadata, PluginRequest, Env, Collaborators, ValidationResult, VerifyError,
  inconclusive, attribute_not_exist, plugin_metadata_failed,
}
use notation_go_lib.Verifier.Attributes.{
  contains_any, get_non_plugin_extended_critical_attributes, get_verification_plugin,
  get_verification_plugin_min_version,
}

abbrev pub is_identity : Capability → Bool
is_identity trusted_identity_verifier = true
is_identity _ = false

abbrev pub is_revocation : Capability → Bool
is_revocation revocation_check_verifier = true
is_revocation _ = false

-- The loop that filters the verification capabilities.
unfoldable pub verification_capabilities : List Capability → List Capability
verification_capabilities [] = []
verification_capabilities (c ∷ rest) =
    let more = verification_capabilities rest in
    if is_revocation c || is_identity c then c ∷ more else more

-- `slices.Contains(pluginCapabilities, …)`.
unfoldable pub has : (Capability → Bool) → List Capability → Bool
has is [] = false
has is (c ∷ rest) = is c || has is rest

-- The plugin that the signature asks for, with its verification capabilities, if it asks for one.
pub record Installed : Type 0 where
  pub plugin : VerifyPlugin
  pub name : String
  pub capabilities : List Capability

module _ (env : Env) (c : Collaborators) where
  -- The minimum version: "" where the attribute is not there.
  min_version : SignerInfo → Result VerifyError String
  min_version info = elim (get_verification_plugin_min_version env info) [
    | ok version ↦ ok version
    | err attribute_not_exist ↦ ok ""
    | err _ ↦ err (inconclusive "error while getting plugin minimum version")
  ]

  -- `isRequiredVerificationPluginVer`: `Compare` does not return -1.
  abbrev is_required_version : String → String → Bool
  is_required_version version required = not (env.version_below version required)

  -- The tests on the metadata of the plugin that was found.
  check_metadata : VerifyPlugin → String → String → Metadata → Result VerifyError Installed
  unfolding verification_capabilities is_valid
  check_metadata plugin name required metadata =
      if not (is_valid metadata.version)
      then err (inconclusive "plugin version is not semver")
      else if not (is_required_version metadata.version required)
      then err (inconclusive "plugin version is too low")
      else if is_empty (verification_capabilities metadata.capabilities)
      then err (inconclusive "plugin has no verification capabilities")
      else ok (record {
        plugin = plugin;
        name = name;
        capabilities = verification_capabilities metadata.capabilities;
      })

  -- The plugin of that name.
  find_plugin : String → StringMap → SignerInfo → Result VerifyError Installed
  unfolding min_version check_metadata
  find_plugin name config info = elim (min_version info) [
    | err e ↦ err e
    | ok required ↦ elim (c.plugin_manager) [
      | none ↦ err (inconclusive "plugin unsupported due to nil verifier.pluginManager")
      | some get ↦ elim (get name) [
        | none ↦ err (inconclusive "error while locating the verification plugin")
        | some plugin ↦ elim (plugin.get_metadata config) [
          | none ↦ err (plugin_metadata_failed name)
          | some metadata ↦ check_metadata plugin name required metadata
        ]
      ]
    ]
  ]

  -- "check if we need to verify using a plugin" of `processSignature`.
  unfoldable pub required_plugin : StringMap → SignerInfo → Result VerifyError (Option Installed)
  unfolding find_plugin get_verification_plugin
  required_plugin config info = elim (get_verification_plugin env info) [
    | err attribute_not_exist ↦ ok none
    | err e ↦ err e
    | ok name ↦ elim (find_plugin name config info) [
      | err e ↦ err e
      | ok installed ↦ ok (some installed)
    ]
  ]

-- The capabilities that the plugin is asked for: not revocation where the level skips it.
unfoldable pub capabilities_to_verify : Bool → List Capability → List Capability
capabilities_to_verify skips [] = []
capabilities_to_verify skips (c ∷ rest) =
    let more = capabilities_to_verify skips rest in
    if skips then (if is_revocation c then more else c ∷ more) else c ∷ more

abbrev text_of : Attribute → List (String × AttributeValue)
text_of a = elim (a.key) [ text_key k ↦ (k, a.value) ∷ [] | number_key n ↦ [] ]

extended_map : List Attribute → List (String × AttributeValue)
extended_map [] = []
extended_map (a ∷ rest) = text_of a ++ extended_map rest

abbrev authentic_time : SigningScheme → ℕ → Option ℕ
authentic_time signing_authority time = some time
authentic_time _ time = none

-- `executePlugin`: the request.
unfoldable pub plugin_request :
    List Capability → EnvelopeContent → List String → StringMap → PluginRequest
unfolding extended_map get_non_plugin_extended_critical_attributes
plugin_request capabilities content identities config =
    let info = content.signer_info in
    let attributes = extended_map (get_non_plugin_extended_critical_attributes info) in
    record {
      content_type = content.content_type;
      scheme = info.scheme;
      expiry = info.expiry;
      authentic_signing_time = authentic_time info.scheme info.signing_time;
      extended_attributes = attributes;
      unprocessed_attributes = map (λ a. a.0) attributes;
      certificate_chain = map (λ cert. cert.raw) info.certificate_chain;
      trusted_identities = identities;
      capabilities = capabilities;
      plugin_config = config;
    }

-- The first attribute that the plugin has not processed.
unfoldable pub unprocessed : List Attribute → List AttributeKey → Option AttributeKey
unfolding contains_any
unprocessed [] processed = none
unprocessed (a ∷ rest) processed =
    let more = unprocessed rest processed in
    if contains_any processed a.key then more else some a.key

-- The first result of that type gets an error; the Go code holds a pointer to it.
unfoldable pub fail_first :
    ValidationType → VerifyError → List ValidationResult → List ValidationResult
fail_first type e [] = []
fail_first type e (r ∷ rest) =
    let more = fail_first type e rest in
    if type_eq r.type type then record r { error = some e } ∷ rest else r ∷ more

-- That result.
unfoldable pub first_of_type : ValidationType → List ValidationResult → Option ValidationResult
first_of_type type [] = none
first_of_type type (r ∷ rest) =
    let more = first_of_type type rest in if type_eq r.type type then some r else more
