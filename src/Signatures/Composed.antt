-- ===== src/Signatures/Composed.antt =====
-- notation.go: `Verify` with the verifier of verifier/verifier.go.
use notation_go_lib.Base.{
  ℕ, suc, String, ◌≡◌, ◌⊎◌, inl, inr, sym, true, Option, none, some, List, Result, ok, some_inj,
}
use mathlib.Core.Path.{subst}
use notation_go_lib.TrustPolicy.Level.{VerificationLevel, get_verification_level, is_level_skip}
use notation_go_lib.TrustPolicy.Level.Laws.{IsGuarded}
use notation_go_lib.TrustPolicy.Oci
use notation_go_lib.TrustPolicy.Oci.{OciTrustPolicy, OciDocument}
use notation_go_lib.Verifier.Types.{Env, Descriptor, Outcome, VerifyError}
use notation_go_lib.Verifier.New.{Verifier}
use notation_go_lib.Verifier.Verify.{verify, skip_verify, SkipAnswer, says_skip, says_verify}
use notation_go_lib.Verifier.Verify.Sound.{Verified, verify_sound, verify_never_nil}
use notation_go_lib.Registry.{Repository}
use notation_go_lib.Signatures.{
  VerifierOps, NotationOptions, Reference, verifier_options, verify_artifact,
}
use notation_go_lib.Signatures.Sound.{Resolved, Skipped, verify_artifact_sound}
use notation_go_lib.Signatures.Success.{Found}

-- The verifier of verifier.go implements both interfaces.
abbrev pub verifier_ops : Env → Verifier → VerifierOps
verifier_ops env v = record { verify = verify env v; skip_verify = some (skip_verify env v) }

module _ (parse_reference : String → Option Reference) (env : Env) (v : Verifier)
    (repo : Repository) (opts : NotationOptions) where
  -- The signature envelope and its media type, accepted for the artifact under the trust policy.
  pub record Trusted (artifact : Descriptor) (blob media_type : String) : Type 0 where
    pub doc : OciDocument
    pub policy : OciTrustPolicy
    pub level : VerificationLevel
    pub configured : v.oci_trust_policy_doc ≡ some doc
    pub applies : Oci.get_applicable_trust_policy doc opts.artifact_reference ≡ ok policy
    pub leveled : get_verification_level policy.signature_verification ≡ ok level
    pub guarded : IsGuarded level.enforcement
    pub verified : Verified env v artifact blob (verifier_options opts media_type) policy level

  not_skipped :
      (doc : OciDocument) (policy : OciTrustPolicy) (level : VerificationLevel)
      (actual : Option VerificationLevel)
      → v.oci_trust_policy_doc ≡ some doc
      → Oci.get_applicable_trust_policy doc opts.artifact_reference ≡ ok policy
      → get_verification_level policy.signature_verification ≡ ok level
      → skip_verify env v (verifier_options opts "") ≡ ok (says_verify actual)
      → is_level_skip level ≡ true
      → ⊥
  unfolding skip_verify
  not_skipped doc policy level actual there applies good says skips =
      apart (rw (there, applies, good, skips, skip_verify) at says)
    where
      apart :
          {l : VerificationLevel} {l' : Option VerificationLevel}
          → ◌≡◌ {A = Result VerifyError SkipAnswer} (ok (says_skip l)) (ok (says_verify l'))
          → ⊥
      apart h = cc

  Trusted-of :
      (desc : Descriptor) (blob media_type : String) (o : Option Outcome)
      (actual : Option VerificationLevel)
      → skip_verify env v (verifier_options opts "") ≡ ok (says_verify actual)
      → verify env v desc blob (verifier_options opts media_type) ≡ (o, none)
      → Trusted desc blob media_type
  Trusted-of desc blob media_type (some o) actual says ran =
      let (doc, policy, level, there, applies, good, passed) =
        verify_sound env v desc blob (verifier_options opts media_type) o ran in
      elim passed [
        | inl (skips, plain) ↦
            absurd (not_skipped doc policy level actual there applies good says skips)
        | inr (keeps, guarded, verified) ↦ record {
          doc = doc;
          policy = policy;
          level = level;
          configured = there;
          applies = applies;
          leveled = good;
          guarded = guarded;
          verified = verified;
        }
      ]
  Trusted-of desc blob media_type none actual says ran =
      absurd (verify_never_nil env v desc blob (verifier_options opts media_type) ran)

  -- With this verifier, `Verify` returns no error only where `SkipVerify` says to skip, or where the
  -- repository has a signature of the resolved artifact, listed and fetched, that is accepted under
  -- the statement that applies to the reference, at a level that is not "skip".
  pub verify_artifact-Trusted :
      (desc : Descriptor) (outcomes : List (Option Outcome))
      → verify_artifact parse_reference (some (verifier_ops env v)) (some repo) opts
        ≡ (desc, outcomes, none)
      → Skipped parse_reference (verifier_ops env v) repo opts desc outcomes
        ⊎ (Resolved parse_reference (verifier_ops env v) repo opts desc
            × ((n : ℕ) × (found : Found (verifier_ops env v) repo opts (suc n) desc outcomes)
                × Trusted desc found.accepts.0 found.accepts.1.media_type))
  verify_artifact-Trusted desc outcomes h =
      elim (verify_artifact_sound parse_reference (verifier_ops env v) repo opts desc outcomes h) [
        | inl skipped ↦ inl skipped
        | inr (n, limit, inl cannot, (resolved, found)) ↦ absurd (some_skip cannot)
        | inr (n, limit, inr (asks, level, same, keeps), (resolved, found)) ↦ inr (
          resolved,
          (
            n,
            found,
            Trusted-of desc found.accepts.0 found.accepts.1.media_type found.outcome level
                (subst (λ f. f (verifier_options opts "") ≡ ok (says_verify level))
                  (sym (some_inj same)) keeps)
                found.accepts.3,
          ),
        )
      ]
    where
      some_skip : some (skip_verify env v) ≡ none → ⊥
      some_skip e = cc
