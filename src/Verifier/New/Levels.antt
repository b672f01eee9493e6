-- ===== src/Verifier/New/Levels.antt =====
-- verifier/verifier.go: the level of the statement that applies, in a verifier that was constructed.
use notation_go_lib.Base.{String, ◌≡◌, Option, some, ok}
use notation_go_lib.TrustPolicy.Level.{VerificationLevel, get_verification_level}
use notation_go_lib.TrustPolicy.Statement.Laws.{validate_policy_core_sound}
use notation_go_lib.TrustPolicy.Oci.Validation.{HasCore}
use notation_go_lib.Verifier.New.{
  Library, Verifier, VerifierOptions, TrustStore, new_verifier_with_options,
}
use notation_go_lib.Verifier.New.Laws.{new_verifier_sound}
use notation_go_lib.TrustPolicy.Oci.{OciDocument, OciTrustPolicy, get_applicable_trust_policy}
use notation_go_lib.TrustPolicy.Oci.Members.{get_applicable-All}

module _ (lib : Library) where
  -- In a verifier that is constructed, a statement that applies to an artifact has a level: the
  -- error of `GetVerificationLevel` that `Verify` and `SkipVerify` drop does not arise.
  pub applicable_has_level :
      (store : Option TrustStore) (opts : VerifierOptions) (v : Verifier) (doc : OciDocument)
      (reference : String) (policy : OciTrustPolicy)
      → new_verifier_with_options lib store opts ≡ ok v
      → v.oci_trust_policy_doc ≡ some doc
      → get_applicable_trust_policy doc reference ≡ ok policy
      → (level : VerificationLevel) × (get_verification_level policy.signature_verification
          ≡ ok level)
  applicable_has_level store opts v doc reference policy made there applies =
      let (one, oci, blob, validator) = new_verifier_sound lib store opts v made in
      let core =
        get_applicable-All (HasCore lib.parse_dn) doc reference policy (oci doc there).cores
          applies in
      let (named, option, (level, good, trust)) =
        validate_policy_core_sound lib.parse_dn policy.name policy.signature_verification
          policy.trust_stores policy.trusted_identities core in
      (level, good)
