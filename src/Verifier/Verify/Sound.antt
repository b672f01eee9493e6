-- ===== src/Verifier/Verify/Sound.antt =====
-- verifier/verifier.go: `Verify` where it returns no error.
use mathlib.Core.Path.{subst}
use notation_go_lib.Base.{
  String, ◌≡◌, ◌⊎◌, inl, inr, refl, ap, true, false, Option, none, some, Result, ok, err, arith,
  Bool-cases, Option-cases, Result-cases,
}
use notation_go_lib.TrustPolicy.Level.{
  VerificationLevel, SignatureVerification, get_verification_level, is_level_skip,
}
use notation_go_lib.TrustPolicy.Level.Laws.{IsGuarded, get_verification_level-IsGuarded}
use notation_go_lib.TrustPolicy.Oci
use notation_go_lib.TrustPolicy.Oci.{OciTrustPolicy, OciDocument}
use notation_go_lib.Verifier.Types.{Env, Outcome, Descriptor, EnvelopeContent, VerifyError}
use notation_go_lib.Verifier.Process.{fresh, process_signature}
use notation_go_lib.Verifier.Process.Signature.{Accepted, process_signature_sound}
use notation_go_lib.Verifier.New.{Verifier}
use notation_go_lib.Verifier.Verify.{
  VerifyOptions, Verdict, failed_with, final_error, compare_target, verify_at, verify_under, verify,
}
use notation_go_lib.Verifier.Verify.Metadata.{HasMetadata, final_error_iff}

pub no_outcome :
    {o : Outcome} {e : VerifyError} → ◌≡◌ {A = Verdict} (none, some e) (some o, none) → ⊥
no_outcome h = let wrong = ap (λ (p : Verdict). p.1) h in cc

nil_error : {o : Option Outcome} {e : VerifyError} → ◌≡◌ {A = Verdict} (o, some e) (none, none) → ⊥
nil_error h = let wrong = ap (λ (p : Verdict). p.1) h in cc

nil_outcome :
    {o : Outcome} {e : Option VerifyError} → ◌≡◌ {A = Verdict} (some o, e) (none, none) → ⊥
nil_outcome h = let wrong = ap (λ (p : Verdict). p.0) h in cc

pub IsGuarded-unless_skip :
    (sv : SignatureVerification) (level : VerificationLevel)
    → get_verification_level sv ≡ ok level
    → is_level_skip level ≡ false
    → IsGuarded level.enforcement
unfolding is_level_skip
IsGuarded-unless_skip sv level h keeps = elim (get_verification_level-IsGuarded sv level h) [
  | inl skips ↦ let wrong = subst (λ l. is_level_skip l ≡ false) skips keeps in cc
  | inr guarded ↦ guarded
]

module _ (env : Env) (v : Verifier) (desc : Descriptor) (signature : String)
    (opts : VerifyOptions) where
  -- The signature is accepted at the level, and its payload is about the artifact.
  pub record Verified (policy : OciTrustPolicy) (level : VerificationLevel) : Type 0 where
    pub accepted :
        Accepted env v.collaborators signature opts.signature_media_type policy.trusted_identities
          policy.trust_stores policy.signature_verification opts.plugin_config level
    pub target : Descriptor
    pub signed : env.unmarshal_payload accepted.content.content ≡ some target
    pub matched : env.content_equal target desc ≡ true
    pub metadata : HasMetadata target.annotations opts.user_metadata

  compare_target_sound :
      (content : EnvelopeContent) (o o' : Outcome)
      → o.envelope_content ≡ some content
      → compare_target env v desc opts o ≡ (some o', none)
      → (target : Descriptor) × (env.unmarshal_payload content.content ≡ some target)
        × (env.content_equal target desc ≡ true)
        × HasMetadata target.annotations opts.user_metadata
  unfolding compare_target
  compare_target_sound content o o' holds h =
      elim (Option-cases (env.unmarshal_payload content.content)) [
        | inl bad ↦ ground arith
        | inr (target, good) ↦
            let none_left : final_error (env.content_equal target desc)
                  VerifyError.descriptor_mismatch target.annotations opts.user_metadata
                ≡ none =
              ap (λ (p : Verdict). p.1) (rw (holds, good, compare_target) at h) in
            let (matched, metadata) = (final_error_iff _ _ _ _).0 none_left in
            (target, good, matched, metadata)
      ]

  verify_at_sound :
      (policy : OciTrustPolicy) (level : VerificationLevel) (o : Outcome)
      → verify_at env v policy level desc signature opts ≡ (some o, none)
      → ((is_level_skip level ≡ true) × (o ≡ fresh signature level))
        ⊎ ((is_level_skip level ≡ false) × Verified policy level)
  unfolding verify_at
  verify_at_sound policy level o h = elim (Bool-cases (is_level_skip level)) [
    | inl skips ↦ inl (skips, ground arith)
    | inr keeps ↦ inr (keeps, after _ refl (rw (keeps, verify_at) at h))
  ]
    where
      after :
          (p : Result VerifyError (Unit {0}) × Outcome)
          → process_signature env v.collaborators signature opts.signature_media_type
              policy.trusted_identities policy.trust_stores policy.signature_verification
              opts.plugin_config
              (fresh signature level)
            ≡ p
          → ◌≡◌ {A = Verdict}
              (elim (p.0) [ err e ↦ failed_with p.1 e | ok u ↦ compare_target env v desc opts p.1 ])
              (some o, none)
          → Verified policy level
      after (err e, o1) ran k = let wrong = ap (λ (p : Verdict). p.1) k in cc
      after (ok u, o1) ran k =
          let (accepted, clean, holds, same) =
            process_signature_sound env v.collaborators signature opts.signature_media_type
              policy.trusted_identities policy.trust_stores policy.signature_verification
              opts.plugin_config signature level o1 ran in
          let (target, signed, matched, metadata) =
            compare_target_sound accepted.content o1 o holds k in
          record {
            accepted = accepted;
            target = target;
            signed = signed;
            matched = matched;
            metadata = metadata;
          }

  -- When `Verify` returns no error, a statement of the OCI document applies to the reference and has
  -- a level. Either that level is "skip", and the outcome is fresh, or it is not: then it enforces
  -- integrity and skips nothing but revocation, every check that it enforces has passed, the signed
  -- payload is about the artifact that was given, and it has the metadata that were required.
  pub verify_sound :
      (o : Outcome)
      → verify env v desc signature opts ≡ (some o, none)
      → (doc : OciDocument) × (policy : OciTrustPolicy) × (level : VerificationLevel)
        × (v.oci_trust_policy_doc ≡ some doc)
        × (Oci.get_applicable_trust_policy doc opts.artifact_reference ≡ ok policy)
        × (get_verification_level policy.signature_verification ≡ ok level)
        × (((is_level_skip level ≡ true) × (o ≡ fresh signature level))
            ⊎ ((is_level_skip level ≡ false) × IsGuarded level.enforcement × Verified policy level))
  unfolding verify verify_under
  verify_sound o h = elim (Option-cases v.oci_trust_policy_doc) [
    | inl missing ↦ absurd (no_outcome (rw (missing, verify) at h))
    | inr (doc, there) ↦
        elim (Result-cases (Oci.get_applicable_trust_policy doc opts.artifact_reference)) [
          | inl (e, none_applies) ↦ absurd (no_outcome (rw (there, none_applies, verify) at h))
          | inr (policy, applies) ↦
              elim (Result-cases (get_verification_level policy.signature_verification)) [
                | inl (e, bad) ↦
                    absurd (no_outcome (rw (there, applies, bad, verify, verify_under) at h))
                | inr (level, good) ↦ (
                  doc,
                  policy,
                  level,
                  there,
                  applies,
                  good,
                  elim (verify_at_sound policy level o
                      (rw (there, applies, good, verify, verify_under) at h)) [
                        | inl skips ↦ inl skips
                        | inr (keeps, verified) ↦
                            inr (keeps, IsGuarded-unless_skip _ level good keeps, verified)
                      ],
                )
              ]
        ]
  ]

  compare_target_never_nil : (o : Outcome) → compare_target env v desc opts o ≡ (none, none) → ⊥
  unfolding compare_target
  compare_target_never_nil o h = elim (Option-cases o.envelope_content) [
    | inl missing ↦ nil_error (rw (missing, compare_target) at h)
    | inr (content, there) ↦ elim (Option-cases (env.unmarshal_payload content.content)) [
      | inl bad ↦ nil_outcome (rw (there, bad, compare_target) at h)
      | inr (target, good) ↦ nil_outcome (rw (there, good, compare_target) at h)
    ]
  ]

  verify_at_never_nil :
      (policy : OciTrustPolicy) (level : VerificationLevel)
      → verify_at env v policy level desc signature opts ≡ (none, none)
      → ⊥
  unfolding verify_at
  verify_at_never_nil policy level h = elim (Bool-cases (is_level_skip level)) [
    | inl skips ↦ nil_outcome (rw (skips, verify_at) at h)
    | inr keeps ↦
        after
          (process_signature env v.collaborators signature opts.signature_media_type
            policy.trusted_identities policy.trust_stores policy.signature_verification
            opts.plugin_config (fresh signature level))
          (rw (keeps, verify_at) at h)
  ]
    where
      after :
          (p : Result VerifyError (Unit {0}) × Outcome)
          → ◌≡◌ {A = Verdict}
              (elim (p.0) [ err e ↦ failed_with p.1 e | ok u ↦ compare_target env v desc opts p.1 ])
              (none, none)
          → ⊥
      after (err e, o1) k = nil_error k
      after (ok u, o1) k = compare_target_never_nil o1 k

  -- `Verify` returns an outcome where it returns no error.
  pub verify_never_nil : verify env v desc signature opts ≡ (none, none) → ⊥
  unfolding verify verify_under
  verify_never_nil h = elim (Option-cases v.oci_trust_policy_doc) [
    | inl missing ↦ nil_error (rw (missing, verify) at h)
    | inr (doc, there) ↦
        elim (Result-cases (Oci.get_applicable_trust_policy doc opts.artifact_reference)) [
          | inl (e, none_applies) ↦ nil_error (rw (there, none_applies, verify) at h)
          | inr (policy, applies) ↦
              elim (Result-cases (get_verification_level policy.signature_verification)) [
                | inl (e, bad) ↦ nil_error (rw (there, applies, bad, verify, verify_under) at h)
                | inr (level, good) ↦
                    verify_at_never_nil policy level
                      (rw (there, applies, good, verify, verify_under) at h)
              ]
        ]
  ]
