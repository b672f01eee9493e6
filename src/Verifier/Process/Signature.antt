-- ===== src/Verifier/Process/Signature.antt =====
-- verifier/verifier.go: `processSignature` where it returns no error.
use mathlib.Core.Path.{subst}
use notation_go_lib.Base.{
  String, ◌≡◌, refl, sym, ap, ◌∙◌, false, Option, none, some, List, [], ◌∷◌, ◌++◌, ok, arith,
}
use notation_go_lib.TrustPolicy.Level.{
  enforce, integrity, authenticity, authentic_timestamp, expiry, revocation, VerificationLevel,
  SignatureVerification,
}
use notation_go_lib.Verifier.Types.{Env, Collaborators, EnvelopeContent, Outcome, ValidationResult}
use notation_go_lib.Verifier.Checks.{is_critical_failure, verify_integrity, verify_expiry}
use notation_go_lib.Verifier.Plugins.{is_identity, is_revocation, has, Installed, required_plugin}
use notation_go_lib.Verifier.Identity.{verify_x509_trusted_identities}
use notation_go_lib.Verifier.Revocation.{verify_revocation}
use notation_go_lib.Verifier.Timestamp.{verify_authentic_timestamp}
use notation_go_lib.Verifier.Process.{
  lift, authenticity_result, process_times, process_status, process_stages, process_signature,
  fresh, capabilities_of, ◌>>=◌, ◌>>◌,
}
use notation_go_lib.Verifier.Process.Actions
use notation_go_lib.Verifier.Process.Actions.{bind-eq-ok, append, with_results}
use notation_go_lib.Verifier.Process.Recorded.{IsClean, HasAuthenticity}
use notation_go_lib.Verifier.Process.Plugged.{PluginAccepts}
use notation_go_lib.Verifier.Process.Sound.{
  no_error, authenticity_result_kind, verify_expiry-action, verify_authentic_timestamp-action,
  verify_revocation-action, verify_integrity-type, second_is_authenticity, process_trust_sound,
  process_times_sound, process_status_sound,
}

module _ (env : Env) (c : Collaborators) (blob media_type : String)
    (identities stores : List String) (sv : SignatureVerification)
    (config : List (String × String)) where
  -- The checks that stand behind an accepted signature, at a level.
  pub record Accepted (level : VerificationLevel) : Type 0 where
    pub content : EnvelopeContent
    pub installed : Option Installed
    pub intact : (verify_integrity env blob media_type level).0 ≡ some content
    pub plugin : required_plugin env c config content.signer_info ≡ ok installed
    pub authentic :
        level.enforcement authenticity ≡ enforce
        → (authenticity_result env c stores content.signer_info level).error ≡ none
    pub identified :
        has is_identity (capabilities_of installed) ≡ false
        → level.enforcement authenticity ≡ enforce
        → verify_x509_trusted_identities env.parse_dn identities
            content.signer_info.certificate_chain
          ≡ none
    pub unexpired :
        level.enforcement expiry ≡ enforce
        → (verify_expiry env level content.signer_info).error ≡ none
    pub timestamped :
        level.enforcement authentic_timestamp ≡ enforce
        → (verify_authentic_timestamp env c stores sv.verify_timestamp level
            content.signer_info).error
          ≡ none
    pub unrevoked :
        has is_revocation (capabilities_of installed) ≡ false
        → level.enforcement revocation ≡ enforce
        → (verify_revocation env c level content.signer_info).error ≡ none
    pub extended : PluginAccepts level installed content identities config

clean_integrity : (r : ValidationResult) → r.error ≡ none → is_critical_failure r ≡ false
clean_integrity r fine = ground arith

module _ (env : Env) (c : Collaborators) (blob media_type : String)
    (identities stores : List String) (sv : SignatureVerification)
    (config : List (String × String)) where
  -- The stages from an outcome whose only result is one of integrity without an error.
  stages_sound :
      (content : EnvelopeContent) (installed : Option Installed) (o o' : Outcome)
      (r : ValidationResult)
      → o.results ≡ r ∷ []
      → r.type ≡ integrity
      → r.error ≡ none
      → (verify_integrity env blob media_type o.level).0 ≡ some content
      → required_plugin env c config content.signer_info ≡ ok installed
      → process_stages env c installed content identities stores sv config o ≡ (ok tt, o')
      → (a : Accepted env c blob media_type identities stores sv config o.level) × IsClean
          o'.results
        × (o'.envelope_content ≡ o.envelope_content)
        × (o'.level ≡ o.level)
        × (a.content ≡ content)
  unfolding process_stages
  stages_sound content installed o o' r only kind fine intact plugin h =
      let info = content.signer_info in
      let s = authenticity_result env c stores info o.level in
      let (s_type, s_action) = authenticity_result_kind env c o.level info stores in
      let auth =
        subst (λ rs. HasAuthenticity (o.level.enforcement authenticity) (rs ++ s ∷ [])) (sym only)
          (second_is_authenticity r s (o.level.enforcement authenticity) kind s_type s_action) in
      let (u, o1, first, more) = bind-eq-ok _ _ o h in
      let (k1, authentic, identified) =
        process_trust_sound env c (capabilities_of installed) identities stores info o o1 first
          auth in
      let (v, o2, second, third) = bind-eq-ok _ _ (with_results o k1.results) (
        subst
          (λ x.
            (process_times env c stores sv.verify_timestamp info
                >> process_status env c installed content identities config)
              x
            ≡ (ok tt, o'))
          k1.same more) in
      let (k2, unexpired, timestamped) =
        process_times_sound env c stores sv.verify_timestamp info (with_results o k1.results) o2
          second in
      let (k3, unrevoked, extended) =
        process_status_sound env c installed content identities config (with_results o k2.results)
          o'
          (subst (λ x. process_status env c installed content identities config x ≡ (ok tt, o'))
            k2.same third)
          (k2.recorded (k1.recorded auth)) in
      let clean = k3.clean (
        k2.clean (
          k1.clean (
            subst (λ rs. IsClean (rs ++ s ∷ [])) (sym only)
              (clean_integrity r fine, (authentic, tt))))) in
      (
        record {
          content = content;
          installed = installed;
          intact = intact;
          plugin = plugin;
          authentic = λ strict. no_error s authentic (s_action ∙ strict);
          identified = identified;
          unexpired = λ strict.
              no_error (verify_expiry env o.level info) unexpired
                (verify_expiry-action env c o.level info ∙ strict);
          timestamped = λ strict.
              no_error (verify_authentic_timestamp env c stores sv.verify_timestamp o.level info)
                timestamped
                (verify_authentic_timestamp-action env c o.level info stores sv.verify_timestamp
                  ∙ strict);
          unrevoked = λ own strict.
              no_error (verify_revocation env c o.level info) (unrevoked own strict)
                (verify_revocation-action env c o.level info ∙ strict);
          extended = extended;
        },
        subst (λ (x : Outcome). IsClean x.results) (sym k3.same) clean,
        ap (λ (x : Outcome). x.envelope_content) k3.same,
        ap (λ (x : Outcome). x.level) k3.same,
        refl,
      )

  -- When `processSignature` returns no error, from a fresh outcome, then whatever the policy the
  -- envelope parses and verifies with a supported payload type, the plugin that the signature asks
  -- for, if any, is there, and every check whose type the level enforces has passed: the chain
  -- against the trust stores, the identities unless the plugin verifies them, the expiry, the
  -- authentic timestamp, the revocation unless the plugin checks it, and the plugin's answers. No
  -- recorded result is a critical failure, and the outcome holds the verified content.
  pub process_signature_sound :
      (signature : String) (level : VerificationLevel) (o' : Outcome)
      → process_signature env c blob media_type identities stores sv config (fresh signature level)
        ≡ (ok tt, o')
      → (a : Accepted env c blob media_type identities stores sv config level) × IsClean o'.results
        × (o'.envelope_content ≡ some a.content)
        × (o'.level ≡ level)
  unfolding process_signature
  process_signature_sound signature level o' h =
      let (content, o1, s1, h1) = bind-eq-ok _ _ (fresh signature level) h in
      let (intact, fine, e1) =
        Actions.process_integrity-eq-ok env blob media_type (fresh signature level) o1 content s1 in
      let r = (verify_integrity env blob media_type level).1 in
      let start = record (fresh signature level) {
        envelope_content = some content;
        results = r ∷ [];
      } in
      let (installed, o2, s2, h2) =
        bind-eq-ok (lift (required_plugin env c config content.signer_info))
          (λ found. process_stages env c found content identities stores sv config) start
          (subst
            (λ x.
              (lift (required_plugin env c config content.signer_info) >>= λ found.
              process_stages env c found content identities stores sv config)
                x
              ≡ (ok tt, o'))
            e1 h1) in
      let (accepted, clean, holds, same, content_same) =
        stages_sound content installed start o' r refl
          (verify_integrity-type env blob media_type level) fine intact (ap (λ p. p.0) s2)
          (subst
            (λ x.
              process_stages env c installed content identities stores sv config x ≡ (ok tt, o'))
            (ap (λ p. p.1) (sym s2)) h2) in
      (accepted, clean, holds ∙ ap some (sym content_same), same)
