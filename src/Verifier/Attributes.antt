-- ===== src/Verifier/Attributes.antt =====
-- verifier/helpers.go: the extended attributes that name a verification plugin.
use notation_go_lib.Base.{
  String, Bool, false, ◌||◌, none, some, List, [], ◌∷◌, ◌==◌, if◌then◌else◌, Result, ok, err, ◌>>=◌,
  ◌>>◌, guard, not, nat_eq,
}
use notation_go_lib.Text.{trim_space}
use notation_go_lib.Slices.{contains}
use notation_go_lib.Semver.{is_valid}
use notation_go_lib.Verifier.Types.{
  Attribute, AttributeKey, text_key, number_key, AttributeValue, text_value, other_value,
  SignerInfo, Env, VerifyError, attribute_not_exist, attribute_not_critical, attribute_not_text,
  attribute_blank, attribute_not_semver,
}

abbrev pub header_verification_plugin : String
header_verification_plugin = "io.cncf.notary.verificationPlugin"

abbrev pub header_verification_plugin_min_version : String
header_verification_plugin_min_version = "io.cncf.notary.verificationPluginMinVersion"

abbrev pub verification_plugin_headers : List String
verification_plugin_headers =
    header_verification_plugin ∷ header_verification_plugin_min_version ∷ []

abbrev pub key_eq : AttributeKey → AttributeKey → Bool
key_eq (text_key a) (text_key b) = a == b
key_eq (number_key a) (number_key b) = nat_eq a b
key_eq _ _ = false

-- `ContainsAny` of internal/slices, at attribute keys.
unfoldable pub contains_any : List AttributeKey → AttributeKey → Bool
contains_any [] v = false
contains_any (vs ∷ s) v = key_eq vs v || contains_any s v

abbrev is_extended : AttributeKey → Bool
is_extended (text_key k) = not (contains verification_plugin_headers k)
is_extended (number_key n) = false

-- The loop of `getNonPluginExtendedCriticalAttributes`: the criticality itself is not tested.
extended_attributes_of : List Attribute → List Attribute
unfolding contains
extended_attributes_of [] = []
extended_attributes_of (a ∷ rest) =
    let more = extended_attributes_of rest in if is_extended a.key then a ∷ more else more

-- `getNonPluginExtendedCriticalAttributes`.
unfoldable pub get_non_plugin_extended_critical_attributes : SignerInfo → List Attribute
unfolding extended_attributes_of
get_non_plugin_extended_critical_attributes info = extended_attributes_of info.extended_attributes

module _ (env : Env) where
  abbrev as_text : String → AttributeValue → Result VerifyError String
  as_text key (text_value v) = ok v
  as_text key (other_value n) = err (attribute_not_text key)

  -- `extractCriticalStringExtendedAttribute`.
  unfoldable pub extract_critical_string : SignerInfo → String → Result VerifyError String
  extract_critical_string info key = elim (env.extended_attribute info key) [
    | none ↦ err attribute_not_exist
    | some a ↦ if not a.critical then err (attribute_not_critical key) else as_text key a.value
  ]

  -- `getVerificationPlugin`.
  unfoldable pub get_verification_plugin : SignerInfo → Result VerifyError String
  unfolding extract_critical_string trim_space
  get_verification_plugin info = do
    name ← extract_critical_string info header_verification_plugin
    guard (not (trim_space name == "")) (attribute_blank header_verification_plugin)
    ok name

  -- `getVerificationPluginMinVersion`.
  unfoldable pub get_verification_plugin_min_version : SignerInfo → Result VerifyError String
  unfolding extract_critical_string trim_space is_valid
  get_verification_plugin_min_version info = do
    version ← extract_critical_string info header_verification_plugin_min_version
    guard (not (trim_space version == "")) (attribute_blank header_verification_plugin_min_version)
    guard (is_valid version) (attribute_not_semver header_verification_plugin_min_version)
    ok version
