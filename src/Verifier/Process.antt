-- ===== src/Verifier/Process.antt =====
-- verifier/verifier.go: `processSignature` and `processPluginResponse`, as actions on the outcome.
-- An action may return an error, and what it wrote to the outcome before stays.
pub mod Actions
pub mod Recorded
pub mod Plugged
pub mod Sound
pub mod Signature
use notation_go_lib.Base.{
  String, Bool, true, false, not, ◌&&◌, Option, none, some, List, [], ◌∷◌, ◌++◌, if◌then◌else◌,
  is_empty, Result, ok, err,
}
use notation_go_lib.Pkix.{StringMap}
use notation_go_lib.TrustPolicy.Level.{
  ValidationType, ValidationAction, skip, authenticity, revocation, SignatureVerification,
  VerificationLevel, action_eq,
}
use notation_go_lib.Verifier.Types.{
  Certificate, SignerInfo, EnvelopeContent, Capability, trusted_identity_verifier,
  revocation_check_verifier, PluginResult, PluginResponse, VerifyPlugin, Env, Collaborators,
  Outcome, ValidationResult, VerifyError, panicked, inconclusive, attribute_not_processed,
  plugin_failed, plugin_identity_failed, plugin_revocation_failed,
}
use notation_go_lib.Verifier.Attributes.{get_non_plugin_extended_critical_attributes}
use notation_go_lib.Verifier.Stores.{load_x509_trust_stores}
use notation_go_lib.Verifier.Identity.{verify_x509_trusted_identities}
use notation_go_lib.Verifier.Revocation.{verify_revocation}
use notation_go_lib.Verifier.Timestamp.{verify_authentic_timestamp}
use notation_go_lib.Verifier.Checks.{
  is_critical_failure, verify_integrity, verify_authenticity, verify_expiry,
}
use notation_go_lib.Verifier.Plugins.{
  is_identity, is_revocation, has, Installed, required_plugin, capabilities_to_verify,
  plugin_request, unprocessed, fail_first, first_of_type,
}

-- Actions on the outcome: what an action returns, and the outcome that it leaves.
abbrev pub M : Type 0 → Type 0
M A = Outcome → Result VerifyError A × Outcome

abbrev pub fail : {A : Type 0} → VerifyError → M A
fail failure outcome = (err failure, outcome)

abbrev pub lift : {A : Type 0} → Result VerifyError A → M A
lift result outcome = (result, outcome)

abbrev pub pure : {A : Type 0} → A → M A
pure value outcome = (ok value, outcome)

-- The next action, on the outcome that is left, unless there is an error.
abbrev pub continue : {A B : Type 0} → Result VerifyError A → (A → M B) → M B
continue (err failure) next outcome = (err failure, outcome)
continue (ok value) next outcome = next value outcome

infixl 5 ◌>>=◌ ◌>>◌
unfoldable pub ◌>>=◌ : {A B : Type 0} → M A → (A → M B) → M B
◌>>=◌ action next outcome = let (result, left) = action outcome in continue result next left

abbrev pub ◌>>◌ : {B : Type 0} → M (Unit {0}) → M B → M B
action >> next = action >>= λ done. next

-- `if isCriticalFailure(r) { return r.Error }`
unfoldable pub stop_if_critical : ValidationResult → M (Unit {0})
stop_if_critical r = elim (r.error) [
  | none ↦ pure tt
  | some e ↦ if is_critical_failure r then fail e else pure tt
]

-- The result is appended, and stops the workflow if it is a critical failure.
unfoldable pub record_result : ValidationResult → M (Unit {0})
unfolding stop_if_critical
record_result r o = stop_if_critical r (record o { results = o.results ++ r ∷ [] })

-- A run-time panic ends the workflow, whatever the action of the result.
abbrev pub raise_panic : Option VerifyError → M (Unit {0})
raise_panic (some panicked) = fail panicked
raise_panic _ = pure tt

-- The authenticity result that was recorded gets an error, and stops the workflow if it is critical.
unfoldable pub fail_authenticity : VerifyError → M (Unit {0})
unfolding fail_first first_of_type stop_if_critical
fail_authenticity e o =
    let results = fail_first authenticity e o.results in
    elim (first_of_type authenticity results) [
      | none ↦ (err panicked, o)
      | some r ↦ stop_if_critical r (record o { results = results })
    ]

-- Integrity comes first: an error ends the workflow whatever the action.
unfoldable pub process_integrity : Env → String → String → M EnvelopeContent
unfolding verify_integrity
process_integrity env blob media_type o =
    let (content, result) = verify_integrity env blob media_type o.level in
    let o' = record o { envelope_content = content; results = o.results ++ result ∷ [] } in
    elim content [
      | some content ↦ (ok content, o')
      | none ↦ elim (result.error) [ none ↦ (err panicked, o') | some e ↦ (err e, o') ]
    ]

module _ (env : Env) (c : Collaborators) where
  -- The authenticity result: the certificates of the stores, and the chain against them.
  unfoldable pub authenticity_result :
      List String → SignerInfo → VerificationLevel → ValidationResult
  unfolding verify_authenticity load_x509_trust_stores
  authenticity_result stores info level = elim (load_x509_trust_stores c info.scheme stores) [
    | err e ↦ record {
      type = authenticity;
      action = level.enforcement authenticity;
      error = some e;
    }
    | ok certs ↦ verify_authenticity env certs level info
  ]

  unfoldable pub process_authenticity : List String → SignerInfo → M (Unit {0})
  unfolding authenticity_result record_result
  process_authenticity stores info o = record_result (authenticity_result stores info o.level) o

  -- The trusted identities, unless the plugin verifies them. `isCriticalFailure` is asked again
  -- where there is no new error.
  unfoldable pub process_identities : List Capability → List String → SignerInfo → M (Unit {0})
  unfolding fail_authenticity verify_x509_trusted_identities has
  process_identities capabilities identities info o =
      if has is_identity capabilities
      then (ok tt, o)
      else elim (verify_x509_trusted_identities env.parse_dn identities info.certificate_chain) [
        | none ↦ (ok tt, o)
        | some panicked ↦ (err panicked, o)
        | some e ↦ fail_authenticity e o
      ]

  unfoldable pub process_expiry : SignerInfo → M (Unit {0})
  unfolding verify_expiry record_result
  process_expiry info o = record_result (verify_expiry env o.level info) o

  unfoldable pub process_timestamp : List String → String → SignerInfo → M (Unit {0})
  unfolding verify_authentic_timestamp record_result
  process_timestamp stores option info o =
      let r = verify_authentic_timestamp env c stores option o.level info in
      (do raise_panic r.error; record_result r) o

  -- Revocation, unless the level skips it or the plugin checks it.
  unfoldable pub process_revocation : List Capability → SignerInfo → M (Unit {0})
  unfolding verify_revocation record_result has
  process_revocation capabilities info o =
      if action_eq (o.level.enforcement revocation) skip
      then (ok tt, o)
      else if has is_revocation capabilities
      then (ok tt, o)
      else let r = verify_revocation env c o.level info in
        (do raise_panic r.error; record_result r) o

-- The revocation result of the plugin.
abbrev pub plugin_revocation_result : String → PluginResult → Outcome → ValidationResult
plugin_revocation_result name result o = record {
  type = revocation;
  action = o.level.enforcement revocation;
  error = if result.success then none else some (plugin_revocation_failed name);
}

-- One capability of `processPluginResponse`.
unfoldable pub process_capability : String → PluginResponse → Capability → M (Unit {0})
unfolding fail_authenticity record_result
process_capability name response capability o = elim (response.verification_results capability) [
  | none ↦ (err (inconclusive "verification plugin failed to verify"), o)
  | some result ↦
      if is_identity capability
      then (if result.success
          then (ok tt, o)
          else fail_authenticity (plugin_identity_failed name) o)
      else if is_revocation capability
      then record_result (plugin_revocation_result name result o) o
      else (ok tt, o)
]

-- The loop over the capabilities.
unfoldable pub process_capabilities : String → PluginResponse → List Capability → M (Unit {0})
unfolding process_capability
process_capabilities name response [] = pure tt
process_capabilities name response (c ∷ rest) = do
  process_capability name response c
  process_capabilities name response rest

-- `processPluginResponse`; the plugin's name was read from the same attributes before.
unfoldable pub process_plugin_response :
    String → List Capability → PluginResponse → SignerInfo → M (Unit {0})
unfolding unprocessed get_non_plugin_extended_critical_attributes process_capabilities
process_plugin_response name capabilities response info =
    elim (unprocessed (get_non_plugin_extended_critical_attributes info)
      response.processed_attributes) [
        | some key ↦ fail (attribute_not_processed key)
        | none ↦ process_capabilities name response capabilities
      ]

-- The extended verification, if a plugin was found.
unfoldable pub process_plugin :
    Option Installed → EnvelopeContent → List String → StringMap → M (Unit {0})
unfolding capabilities_to_verify plugin_request process_plugin_response
process_plugin none content identities config o = (ok tt, o)
process_plugin (some installed) content identities config o =
    let asked =
      capabilities_to_verify (action_eq (o.level.enforcement revocation) skip)
        installed.capabilities in
    if is_empty asked
    then (ok tt, o)
    else elim (installed.plugin.verify_signature (plugin_request asked content identities config)) [
      | none ↦ (err (plugin_failed installed.name), o)
      | some response ↦ process_plugin_response installed.name asked response content.signer_info o
    ]

abbrev pub capabilities_of : Option Installed → List Capability
capabilities_of none = []
capabilities_of (some installed) = installed.capabilities

-- The outcome with which `Verify` and `VerifyBlob` begin.
abbrev pub fresh : String → VerificationLevel → Outcome
fresh signature level = record {
  raw_signature = signature;
  envelope_content = none;
  level = level;
  results = [];
  error = none;
}

module _ (env : Env) (c : Collaborators) where
  -- The stages of `processSignature`: the trust in the chain, the times, and the status.
  unfoldable pub process_trust :
      List Capability → List String → List String → SignerInfo → M (Unit {0})
  process_trust capabilities identities stores info = do
    process_authenticity env c stores info
    process_identities env c capabilities identities info

  unfoldable pub process_times : List String → String → SignerInfo → M (Unit {0})
  process_times stores option info = do
    process_expiry env c info
    process_timestamp env c stores option info

  unfoldable pub process_status :
      Option Installed → EnvelopeContent → List String → StringMap → M (Unit {0})
  process_status installed content identities config = do
    process_revocation env c (capabilities_of installed) content.signer_info
    process_plugin installed content identities config

  -- The stages in order.
  unfoldable pub process_stages :
      Option Installed
      → EnvelopeContent
      → List String
      → List String
      → SignatureVerification
      → StringMap
      → M (Unit {0})
  process_stages installed content identities stores sv config = do
    process_trust (capabilities_of installed) identities stores content.signer_info
    process_times stores sv.verify_timestamp content.signer_info
    process_status installed content identities config

  -- `processSignature`.
  unfoldable pub process_signature :
      String → String → List String → List String → SignatureVerification → StringMap → M (Unit {0})
  process_signature blob media_type identities stores sv config = do
    content ← process_integrity env blob media_type
    installed ← lift (required_plugin env c config content.signer_info)
    process_stages installed content identities stores sv config
