-- ===== src/Verifier/Verify/Skip.antt =====
-- verifier/verifier.go: `SkipVerify` beside `Verify`.
use notation_go_lib.Base.{
  String, ◌≡◌, inl, inr, refl, true, none, Option, some, Result, ok, Bool-cases, Result-cases,
  Option-cases,
}
use notation_go_lib.TrustPolicy.Level.{VerificationLevel, get_verification_level, is_level_skip}
use notation_go_lib.TrustPolicy.Oci
use notation_go_lib.TrustPolicy.Oci.{OciTrustPolicy, OciDocument, get_artifact_path_from_reference}
use notation_go_lib.Verifier.Types.{Env, Descriptor, VerifyError}
use notation_go_lib.Verifier.Process.{fresh}
use notation_go_lib.Verifier.New.{Verifier}
use notation_go_lib.Verifier.Verify.{
  VerifyOptions, SkipAnswer, says_skip, says_verify, skip_verify, verify, verify_under, verify_at,
}

no_skip :
    {l : Option VerificationLevel} {l' : VerificationLevel}
    → ◌≡◌ {A = Result VerifyError SkipAnswer} (ok (says_verify l)) (ok (says_skip l'))
    → ⊥
no_skip h = cc

module _ (env : Env) (v : Verifier) (opts : VerifyOptions) where
  verify_under-skip :
      (policy : OciTrustPolicy) (level : VerificationLevel) (desc : Descriptor) (signature : String)
      → get_verification_level policy.signature_verification ≡ ok level
      → is_level_skip level ≡ true
      → verify_under env v policy desc signature opts ≡ (some (fresh signature level), none)
  unfolding verify_under verify_at
  verify_under-skip policy level desc signature good skips =
      rw (good, skips, verify_under, verify_at) refl

  -- Where `SkipVerify` says that an artifact is to be skipped, `Verify` accepts every signature of
  -- it, unread, with an outcome that has no results and a level that is deeply equal to "skip".
  pub skip_verify_sound :
      (level : VerificationLevel) (desc : Descriptor) (signature : String)
      → skip_verify env v opts ≡ ok (says_skip level)
      → (actual : VerificationLevel) × (is_level_skip actual ≡ true)
        × (verify env v desc signature opts ≡ (some (fresh signature actual), none))
  unfolding skip_verify verify
  skip_verify_sound level desc signature h = elim (Option-cases v.oci_trust_policy_doc) [
    | inl missing ↦ elim (Result-cases (get_artifact_path_from_reference opts.artifact_reference)) [
      | inl (e, bad) ↦ cc (rw (missing, bad, skip_verify) at h)
      | inr (path, good) ↦ cc (rw (missing, good, skip_verify) at h)
    ]
    | inr (doc, there) ↦
        elim (Result-cases (Oci.get_applicable_trust_policy doc opts.artifact_reference)) [
          | inl (e, none_applies) ↦ cc (rw (there, none_applies, skip_verify) at h)
          | inr (policy, applies) ↦
              elim (Result-cases (get_verification_level policy.signature_verification)) [
                | inl (e, bad) ↦ absurd (no_skip (rw (there, applies, bad, skip_verify) at h))
                | inr (actual, good) ↦ elim (Bool-cases (is_level_skip actual)) [
                  | inr keeps ↦
                      absurd (no_skip (rw (there, applies, good, keeps, skip_verify) at h))
                  | inl skips ↦ (
                    actual,
                    skips,
                    rw (there, applies, verify)
                        (verify_under-skip policy actual desc signature good skips),
                  )
                ]
              ]
        ]
  ]
