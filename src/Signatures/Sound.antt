-- ===== src/Signatures/Sound.antt =====
-- notation.go: what `Verify` returns.
use notation_go_lib.Base.{
  ℕ, zero, suc, String, ◌≡◌, ◌⊎◌, inl, inr, refl, sym, ap, true, Option, none, some, List, [], ◌∷◌,
  Result, ok, arith, eq_iff, Result-cases, Option-cases,
}
use mathlib.Core.Path.{subst}
use notation_go_lib.TrustPolicy.Level.{VerificationLevel}
use notation_go_lib.Verifier.Types.{Descriptor, Outcome, VerifyError}
use notation_go_lib.Verifier.Process.{fresh}
use notation_go_lib.Verifier.Verify.{VerifyOptions, SkipAnswer, says_skip, says_verify}
use notation_go_lib.Registry.{Repository}
use notation_go_lib.Signatures.{
  ℤ, pos, negsuc, VerifierOps, NotationOptions, Reference, NotationError, Report, empty_descriptor,
  verifier_options, resolve_artifact, verify_unskipped, verify_up_to, verify_artifact,
}
use notation_go_lib.Signatures.Success.{Found, verify_signatures_sound}

module _ (parse_reference : String → Option Reference) (ops : VerifierOps) (repo : Repository)
    (opts : NotationOptions) where
  -- The artifact that the reference stands for: the repository resolves it, to the digest that the
  -- reference has if it has one.
  pub record Resolved (artifact : Descriptor) : Type 0 where
    pub ref : Reference
    pub parsed : parse_reference opts.artifact_reference ≡ some ref
    pub resolved : repo.resolve ref.reference ≡ some artifact
    pub as_given : ref.is_digest ≡ true → ref.reference ≡ artifact.digest

  resolve_artifact_sound :
      (artifact : Descriptor)
      → resolve_artifact parse_reference repo opts.artifact_reference ≡ ok artifact
      → Resolved artifact
  unfolding resolve_artifact
  resolve_artifact_sound artifact h =
      elim (Option-cases (parse_reference opts.artifact_reference)) [
        | inl bad ↦ cc (rw (bad, resolve_artifact) at h)
        | inr (ref, parsed) ↦ elim (Option-cases (repo.resolve ref.reference)) [
          | inl bad ↦ ground arith
          | inr (a, resolved) ↦
              let same : a ≡ artifact = ground arith in
              record {
                ref = ref;
                parsed = parsed;
                resolved = subst (λ x. repo.resolve ref.reference ≡ some x) same resolved;
                as_given = λ digest. ground (arith, eq_iff ref.reference a.digest);
              }
        ]
      ]

  -- The verifier says that the artifact is to be skipped, and nothing is resolved or fetched.
  abbrev pub Skipped : Descriptor → List (Option Outcome) → Type 0
  Skipped desc outcomes =
      (skip_verify : VerifyOptions → Result VerifyError SkipAnswer) × (level : VerificationLevel)
      × (ops.skip_verify ≡ some skip_verify)
      × (skip_verify (verifier_options opts "") ≡ ok (says_skip level))
      × (desc ≡ empty_descriptor)
      × (outcomes ≡ some (fresh "" level) ∷ [])

  -- The verifier cannot say whether to skip, or it says not to.
  abbrev pub NotSkipped : Type 0
  NotSkipped =
      (ops.skip_verify ≡ none)
      ⊎ ((skip_verify : VerifyOptions → Result VerifyError SkipAnswer) × (level : Option
            VerificationLevel)
          × (ops.skip_verify ≡ some skip_verify)
          × (skip_verify (verifier_options opts "") ≡ ok (says_verify level)))

  -- An artifact is verified: it is not skipped, and a signature of it that is listed was accepted,
  -- for a limit above 0.
  abbrev pub Succeeds : Descriptor → List (Option Outcome) → Type 0
  Succeeds desc outcomes =
      (n : ℕ) × (opts.max_signature_attempts ≡ pos (suc n))
      × NotSkipped
      × (Resolved desc × Found ops repo opts (suc n) desc outcomes)

  no_report :
      {d d' : Descriptor} {os os' : List (Option Outcome)} {e : NotationError}
      → ◌≡◌ {A = Report} (d, os, some e) (d', os', none)
      → ⊥
  no_report k = let wrong = ap (λ (r : Report). r.2) k in cc

  verify_unskipped_sound :
      (n : ℕ) (desc : Descriptor) (outcomes : List (Option Outcome))
      → verify_unskipped parse_reference ops repo opts (suc n) ≡ (desc, outcomes, none)
      → Resolved desc × Found ops repo opts (suc n) desc outcomes
  unfolding verify_unskipped
  verify_unskipped_sound n desc outcomes h =
      elim (Result-cases (resolve_artifact parse_reference repo opts.artifact_reference)) [
        | inl (e, bad) ↦ absurd (no_report (rw (bad, verify_unskipped) at h))
        | inr (artifact, good) ↦
            let (same, found) =
              verify_signatures_sound ops repo opts (suc n) artifact desc outcomes (ground arith)
                (rw (good, verify_unskipped) at h) in
            subst (λ d. Resolved d × Found ops repo opts (suc n) d outcomes) (sym same)
              (resolve_artifact_sound artifact good, found)
      ]

  -- When `Verify` returns no error, either the verifier said to skip, and the result is an empty
  -- descriptor with one bare outcome, or the descriptor is that of the resolved artifact, and a
  -- listed signature of it was fetched and accepted by the verifier with the only outcome returned.
  pub verify_artifact_sound :
      (desc : Descriptor) (outcomes : List (Option Outcome))
      → verify_artifact parse_reference (some ops) (some repo) opts ≡ (desc, outcomes, none)
      → Skipped desc outcomes ⊎ Succeeds desc outcomes
  unfolding verify_artifact verify_up_to
  verify_artifact_sound desc outcomes h = by_limit opts.max_signature_attempts refl h
    where
      up_to :
          (n : ℕ)
          → opts.max_signature_attempts ≡ pos (suc n)
          → verify_up_to parse_reference ops repo opts (suc n) ≡ (desc, outcomes, none)
          → Skipped desc outcomes ⊎ Succeeds desc outcomes
      up_to n limit k = elim (Option-cases ops.skip_verify) [
        | inl cannot ↦ inr (
          n,
          limit,
          inl cannot,
          verify_unskipped_sound n desc outcomes (rw (cannot, verify_up_to) at k),
        )
        | inr (skip_verify, can) ↦ elim (Result-cases (skip_verify (verifier_options opts ""))) [
          | inl (e, bad) ↦ absurd (no_report (rw (can, bad, verify_up_to) at k))
          | inr (says_skip level, skips) ↦
              let same : ◌≡◌ {A = Report} (empty_descriptor, some (fresh "" level) ∷ [], none)
                  (desc, outcomes, none) =
                rw (can, skips, verify_up_to) at k in
              inl (
                skip_verify,
                level,
                can,
                skips,
                sym (ap (λ (r : Report). r.0) same),
                sym (ap (λ (r : Report). r.1) same),
              )
          | inr (says_verify level, keeps) ↦ inr (
            n,
            limit,
            inr (skip_verify, level, can, keeps),
            verify_unskipped_sound n desc outcomes (rw (can, keeps, verify_up_to) at k),
          )
        ]
      ]

      by_limit :
          (z : ℤ)
          → opts.max_signature_attempts ≡ z
          → verify_artifact parse_reference (some ops) (some repo) opts ≡ (desc, outcomes, none)
          → Skipped desc outcomes ⊎ Succeeds desc outcomes
      by_limit (pos zero) e k = absurd (no_report (rw (e, verify_artifact) at k))
      by_limit (negsuc n) e k = absurd (no_report (rw (e, verify_artifact) at k))
      by_limit (pos (suc n)) e k = up_to n e (rw (e, verify_artifact) at k)
