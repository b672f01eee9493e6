-- ===== src/Verifier/Process/Plugged.antt =====
-- verifier/verifier.go: `processPluginResponse`, and the plugin's part of `processSignature`.
use mathlib.Core.Path.{subst}
use notation_go_lib.Base.{
  String, ◌≡◌, ◌⊎◌, inl, inr, sym, ap, true, Option, none, some, List, [], ◌∷◌, ok, arith,
  Bool-cases, Option-cases, All, is_empty,
}
use notation_go_lib.TrustPolicy.Level.{
  enforce, skip, authenticity, revocation, VerificationLevel, action_eq,
}
use notation_go_lib.Verifier.Types.{
  SignerInfo, EnvelopeContent, Outcome, VerifyError, Capability, PluginResponse, PluginResult,
}
use notation_go_lib.Verifier.Plugins.{
  is_identity, is_revocation, unprocessed, capabilities_to_verify, plugin_request, Installed,
}
use notation_go_lib.Verifier.Attributes.{get_non_plugin_extended_critical_attributes}
use notation_go_lib.Verifier.Process.{
  process_capability, process_capabilities, process_plugin_response, process_plugin,
  plugin_revocation_result,
}
use notation_go_lib.Verifier.Process.Actions.{bind-eq-ok, with_results, record_result-eq-ok}
use notation_go_lib.Verifier.Process.Recorded.{
  HasAuthenticity, Keeps, Keeps-refl, Keeps-trans, Keeps-append, fail_authenticity-eq-ok,
}

-- What a plugin's answer to a capability has to say: there is one, and it is a success where the
-- level enforces the type that the capability stands for.
abbrev pub Answered : PluginResponse → VerificationLevel → Capability → Type 0
Answered response level capability =
    (result : PluginResult) × (response.verification_results capability ≡ some result)
    × (is_identity capability ≡ true
        → level.enforcement authenticity ≡ enforce
        → result.success ≡ true)
    × (is_revocation capability ≡ true
        → level.enforcement revocation ≡ enforce
        → result.success ≡ true)

process_capability-eq-ok :
    (name : String) (response : PluginResponse) (capability : Capability) (o o' : Outcome)
    → process_capability name response capability o ≡ (ok tt, o')
    → HasAuthenticity (o.level.enforcement authenticity) o.results
    → Keeps o o' × Answered response o.level capability
unfolding process_capability
process_capability-eq-ok name response capability o o' h auth =
    elim (Option-cases (response.verification_results capability)) [
      | inl missing ↦ cc (rw (missing, process_capability) at h)
      | inr (result, answer) ↦ elim (Bool-cases (is_identity capability)) [
        | inl identity ↦ elim (Bool-cases result.success) [
          | inl passed ↦ (Keeps-refl (ground arith), (result, answer, λ _ _. passed, λ _ _. passed))
          | inr failed ↦
              let (lax, keeps) =
                fail_authenticity-eq-ok (VerifyError.plugin_identity_failed name) o o'
                  (ground arith) auth in
              (keeps, (result, answer, λ _ strict. absurd (lax strict), λ rev _. ground arith))
        ]
        | inr other ↦ elim (Bool-cases (is_revocation capability)) [
          | inl revokes ↦
              let (same, passed) =
                record_result-eq-ok (plugin_revocation_result name result o) o o' (ground arith) in
              (
                Keeps-append (plugin_revocation_result name result o) same passed,
                (result, answer, λ id _. cc, λ _ strict. ground arith),
              )
          | inr neither ↦ (Keeps-refl (ground arith), (result, answer, λ id _. cc, λ rev _. cc))
        ]
      ]
    ]

-- The level stays, so what follows may speak of it.
Keeps-level : {o o' : Outcome} → Keeps o o' → o'.level ≡ o.level
Keeps-level k = ap (λ (x : Outcome). x.level) k.same

process_capabilities-eq-ok :
    (name : String) (response : PluginResponse) (capabilities : List Capability) (o o' : Outcome)
    → process_capabilities name response capabilities o ≡ (ok tt, o')
    → HasAuthenticity (o.level.enforcement authenticity) o.results
    → Keeps o o' × All (Answered response o.level) capabilities
unfolding process_capabilities
process_capabilities-eq-ok name response [] o o' h auth = (Keeps-refl (ground arith), tt)
process_capabilities-eq-ok name response (capability ∷ rest) o o' h auth =
    let (u, o1, first, later) = bind-eq-ok _ _ o h in
    let (keeps, answer) = process_capability-eq-ok name response capability o o1 first auth in
    let (more, answers) =
      process_capabilities-eq-ok name response rest (with_results o keeps.results) o'
        (subst (λ x. process_capabilities name response rest x ≡ (ok tt, o')) keeps.same later)
        (keeps.recorded auth) in
    (Keeps-trans keeps (subst (λ x. Keeps x o') (sym keeps.same) more), (answer, answers))

-- What the workflow has learnt from the plugin, if it has one: where it was asked anything, it
-- processed every extended attribute, and answered every capability that it was asked for.
abbrev pub PluginAccepts :
    VerificationLevel
    → Option Installed
    → EnvelopeContent
    → List String
    → List (String × String)
    → Type 0
PluginAccepts level none content identities config = Unit
PluginAccepts level (some installed) content identities config =
    let asked =
      capabilities_to_verify (action_eq (level.enforcement revocation) skip)
        installed.capabilities in
    (is_empty asked ≡ true)
    ⊎ ((response : PluginResponse) × (installed.plugin.verify_signature
            (plugin_request asked content identities config)
          ≡ some response)
        × (unprocessed (get_non_plugin_extended_critical_attributes content.signer_info)
              response.processed_attributes
            ≡ none)
        × All (Answered response level) asked)

process_plugin_response-eq-ok :
    (name : String) (asked : List Capability) (response : PluginResponse) (info : SignerInfo)
    (o o' : Outcome)
    → process_plugin_response name asked response info o ≡ (ok tt, o')
    → HasAuthenticity (o.level.enforcement authenticity) o.results
    → Keeps o o'
      × (unprocessed
            (get_non_plugin_extended_critical_attributes info)
            response.processed_attributes
          ≡ none)
      × All (Answered response o.level) asked
unfolding process_plugin_response
process_plugin_response-eq-ok name asked response info o o' h auth =
    elim (Option-cases (
      unprocessed (get_non_plugin_extended_critical_attributes info)
        response.processed_attributes)) [
          | inr (key, missed) ↦ cc (rw (missed, process_plugin_response) at h)
          | inl processed ↦
              let (keeps, answers) =
                process_capabilities-eq-ok name response asked o o'
                  (rw (processed, process_plugin_response) at h) auth in
              (keeps, processed, answers)
        ]

pub process_plugin-eq-ok :
    (installed : Option Installed) (content : EnvelopeContent) (identities : List String)
    (config : List (String × String)) (o o' : Outcome)
    → process_plugin installed content identities config o ≡ (ok tt, o')
    → HasAuthenticity (o.level.enforcement authenticity) o.results
    → Keeps o o' × PluginAccepts o.level installed content identities config
unfolding process_plugin
process_plugin-eq-ok none content identities config o o' h auth = (Keeps-refl (ground arith), tt)
process_plugin-eq-ok (some installed) content identities config o o' h auth =
    let asked =
      capabilities_to_verify (action_eq (o.level.enforcement revocation) skip)
        installed.capabilities in
    elim (Bool-cases (is_empty asked)) [
      | inl idle ↦ (Keeps-refl (ground arith), inl idle)
      | inr busy ↦
          elim (Option-cases
            (installed.plugin.verify_signature (plugin_request asked content identities config))) [
              | inl failed ↦ cc (rw (busy, failed, process_plugin) at h)
              | inr (response, answer) ↦
                  let (keeps, processed, answers) =
                    process_plugin_response-eq-ok installed.name asked response content.signer_info
                      o o' (rw (busy, answer, process_plugin) at h) auth in
                  (keeps, inr (response, answer, processed, answers))
            ]
    ]
