-- ===== src/Verifier/Process/Sound.antt =====
-- verifier/verifier.go: the stages of `processSignature` where they return no error.
use mathlib.Core.Path.{subst}
use notation_go_lib.Base.{
  String, ◌≡◌, inl, inr, refl, sym, false, Option, none, List, [], ◌∷◌, ◌++◌, ok, arith,
}
use notation_go_lib.TrustPolicy.Level.{
  ValidationAction, enforce, skip, integrity, authenticity, authentic_timestamp, expiry, revocation,
  VerificationLevel,
}
use notation_go_lib.Verifier.Types.{
  Env, Collaborators, SignerInfo, EnvelopeContent, Outcome, ValidationResult, Capability,
}
use notation_go_lib.Verifier.Checks.{is_critical_failure, verify_integrity, verify_expiry}
use notation_go_lib.Verifier.Plugins.{first_of_type, is_identity, is_revocation, has, Installed}
use notation_go_lib.Verifier.Identity.{verify_x509_trusted_identities}
use notation_go_lib.Verifier.Revocation.{verify_revocation}
use notation_go_lib.Verifier.Timestamp.{verify_authentic_timestamp}
use notation_go_lib.Verifier.Process.{
  authenticity_result, process_identities, process_timestamp, process_revocation, process_plugin,
  process_trust, process_times, process_status, capabilities_of,
}
use notation_go_lib.Verifier.Process.Actions
use notation_go_lib.Verifier.Process.Actions.{bind-eq-ok, append, with_results}
use notation_go_lib.Verifier.Process.Recorded.{
  HasAuthenticity, Keeps, Keeps-refl, Keeps-trans, Keeps-append, process_identities-eq-ok,
}
use notation_go_lib.Verifier.Process.Plugged.{PluginAccepts, process_plugin-eq-ok}

pub no_error :
    (r : ValidationResult) → is_critical_failure r ≡ false → r.action ≡ enforce → r.error ≡ none
no_error r passed strict = ground arith

-- The results carry the type and the action of their check.
module _ (env : Env) (c : Collaborators) (level : VerificationLevel) (info : SignerInfo) where
  pub authenticity_result_kind :
      (stores : List String)
      → ((authenticity_result env c stores info level).type ≡ authenticity)
        × ((authenticity_result env c stores info level).action ≡ level.enforcement authenticity)
  unfolding authenticity_result
  authenticity_result_kind stores = ground arith

  pub verify_expiry-action : (verify_expiry env level info).action ≡ level.enforcement expiry
  unfolding verify_expiry
  verify_expiry-action = refl

  pub verify_authentic_timestamp-action :
      (stores : List String) (option : String)
      → (verify_authentic_timestamp env c stores option level info).action
        ≡ level.enforcement authentic_timestamp
  unfolding verify_authentic_timestamp
  verify_authentic_timestamp-action stores option = refl

  pub verify_revocation-action :
      (verify_revocation env c level info).action ≡ level.enforcement revocation
  unfolding verify_revocation
  verify_revocation-action = refl

pub verify_integrity-type :
    (env : Env) (blob media_type : String) (level : VerificationLevel)
    → (verify_integrity env blob media_type level).1.type ≡ integrity
unfolding verify_integrity
verify_integrity-type env blob media_type level = refl

-- The results after integrity and authenticity.
pub second_is_authenticity :
    (r s : ValidationResult) (a : ValidationAction)
    → r.type ≡ integrity
    → s.type ≡ authenticity
    → s.action ≡ a
    → HasAuthenticity a (r ∷ s ∷ [])
unfolding first_of_type
second_is_authenticity r s a h k e = (s, ground arith, e)

not_skip_of_enforce : (a : ValidationAction) → a ≡ enforce → a ≡ skip → ⊥
not_skip_of_enforce a h k = cc

module _ (env : Env) (c : Collaborators) where
  pub process_trust_sound :
      (capabilities : List Capability) (identities stores : List String) (info : SignerInfo)
      (o o' : Outcome)
      → process_trust env c capabilities identities stores info o ≡ (ok tt, o')
      → HasAuthenticity
          (o.level.enforcement authenticity)
          (o.results ++ authenticity_result env c stores info o.level ∷ [])
      → Keeps (append o (authenticity_result env c stores info o.level)) o'
        × (is_critical_failure (authenticity_result env c stores info o.level) ≡ false)
        × (has is_identity capabilities ≡ false
            → o.level.enforcement authenticity ≡ enforce
            → verify_x509_trusted_identities env.parse_dn identities info.certificate_chain ≡ none)
  unfolding process_trust
  process_trust_sound capabilities identities stores info o o' h auth =
      let (u, o1, first, later) = bind-eq-ok _ _ o h in
      let (same, passed) = Actions.process_authenticity-eq-ok env c stores info o o1 first in
      let (keeps, identified) =
        process_identities-eq-ok env c capabilities identities info
          (append o (authenticity_result env c stores info o.level)) o'
          (subst (λ x. process_identities env c capabilities identities info x ≡ (ok tt, o')) same
            later)
          auth in
      (keeps, passed, identified)

  pub process_times_sound :
      (stores : List String) (option : String) (info : SignerInfo) (o o' : Outcome)
      → process_times env c stores option info o ≡ (ok tt, o')
      → Keeps o o'
        × (is_critical_failure (verify_expiry env o.level info) ≡ false)
        × (is_critical_failure (verify_authentic_timestamp env c stores option o.level info)
            ≡ false)
  unfolding process_times
  process_times_sound stores option info o o' h =
      let (u, o1, first, later) = bind-eq-ok _ _ o h in
      let (same, passed) = Actions.process_expiry-eq-ok env c info o o1 first in
      let (same', passed') =
        Actions.process_timestamp-eq-ok env c stores option info
          (append o (verify_expiry env o.level info)) o'
          (subst (λ x. process_timestamp env c stores option info x ≡ (ok tt, o')) same later) in
      (
        Keeps-trans (Keeps-append (verify_expiry env o.level info) refl passed)
            (Keeps-append _ same' passed'),
        passed,
        passed',
      )

  process_revocation_sound :
      (capabilities : List Capability) (info : SignerInfo) (o o' : Outcome)
      → process_revocation env c capabilities info o ≡ (ok tt, o')
      → Keeps o o'
        × (has is_revocation capabilities ≡ false
            → o.level.enforcement revocation ≡ enforce
            → is_critical_failure (verify_revocation env c o.level info) ≡ false)
  process_revocation_sound capabilities info o o' h =
      elim (Actions.process_revocation-eq-ok env c capabilities info o o' h) [
        | inl (inl skips, same) ↦
            (Keeps-refl same, λ own strict. absurd (not_skip_of_enforce _ strict skips))
        | inl (inr plugin, same) ↦ (Keeps-refl same, λ own strict. cc)
        | inr (keeps, own, same, passed) ↦ (Keeps-append _ same passed, λ _ _. passed)
      ]

  pub process_status_sound :
      (installed : Option Installed) (content : EnvelopeContent) (identities : List String)
      (config : List (String × String)) (o o' : Outcome)
      → process_status env c installed content identities config o ≡ (ok tt, o')
      → HasAuthenticity (o.level.enforcement authenticity) o.results
      → Keeps o o'
        × (has is_revocation (capabilities_of installed) ≡ false
            → o.level.enforcement revocation ≡ enforce
            → is_critical_failure (verify_revocation env c o.level content.signer_info) ≡ false)
        × PluginAccepts o.level installed content identities config
  unfolding process_status
  process_status_sound installed content identities config o o' h auth =
      let (u, o1, first, later) = bind-eq-ok _ _ o h in
      let (keeps, unrevoked) =
        process_revocation_sound (capabilities_of installed) content.signer_info o o1 first in
      let (more, accepts) =
        process_plugin-eq-ok installed content identities config (with_results o keeps.results) o'
          (subst (λ x. process_plugin installed content identities config x ≡ (ok tt, o'))
            keeps.same later)
          (keeps.recorded auth) in
      (Keeps-trans keeps (subst (λ x. Keeps x o') (sym keeps.same) more), unrevoked, accepts)
