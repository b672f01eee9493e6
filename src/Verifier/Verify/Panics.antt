-- ===== src/Verifier/Verify/Panics.antt =====
-- verifier/verifier.go: when `SkipVerify` of a verifier that was constructed panics.
use notation_go_lib.Base.{
  String, ◌≡◌, ◌↔◌, inl, inr, refl, true, ◌||◌, is_some, Option, none, some, Result, ok, err,
  Bool-cases, Result-cases, Option-cases,
}
use notation_go_lib.TrustPolicy.Level.{get_verification_level, is_level_skip}
use notation_go_lib.TrustPolicy.Oci
use notation_go_lib.TrustPolicy.Oci.{OciTrustPolicy, OciDocument, get_artifact_path_from_reference}
use notation_go_lib.TrustPolicy.Blob.{BlobDocument}
use notation_go_lib.Verifier.Types.{Env, VerifyError, panicked}
use notation_go_lib.Verifier.New.{
  Library, Verifier, VerifierOptions, TrustStore, new_verifier_with_options,
}
use notation_go_lib.Verifier.New.Laws.{new_verifier_sound}
use notation_go_lib.Verifier.Verify.{VerifyOptions, SkipAnswer, skip_verify}

no_panic : {a : SkipAnswer} → ◌≡◌ {A = Result VerifyError SkipAnswer} (ok a) (err panicked) → ⊥
no_panic h = cc

-- With a document, no branch panics, not even the one in which a statement has no level.
document-no_panic :
    (env : Env) (v : Verifier) (o : VerifyOptions) (doc : OciDocument)
    → v.oci_trust_policy_doc ≡ some doc
    → skip_verify env v o ≡ err panicked
    → ⊥
unfolding skip_verify
document-no_panic env v o doc there h =
    elim (Result-cases (Oci.get_applicable_trust_policy doc o.artifact_reference)) [
      | inl (e, none_applies) ↦ cc (rw (there, none_applies, skip_verify) at h)
      | inr (policy, applies) ↦
          elim (Result-cases (get_verification_level policy.signature_verification)) [
            | inl (e, bad) ↦ absurd (no_panic (rw (there, applies, bad, skip_verify) at h))
            | inr (level, good) ↦ elim (Bool-cases (is_level_skip level)) [
              | inl skips ↦ absurd (no_panic (rw (there, applies, good, skips, skip_verify) at h))
              | inr keeps ↦ absurd (no_panic (rw (there, applies, good, keeps, skip_verify) at h))
            ]
          ]
    ]

some-blob :
    (oci : Option OciDocument) (blob : Option BlobDocument)
    → (is_some oci || is_some blob) ≡ true
    → oci ≡ none
    → (doc : BlobDocument) × (blob ≡ some doc)
some-blob none (some doc) one missing = (doc, refl)
some-blob none none one missing = cc
some-blob (some doc) blob one missing = cc

-- `SkipVerify` of a verifier that was constructed panics exactly when the verifier has no OCI document,
-- so that it was constructed for blobs, and the reference has a path.
pub skip_verify_panics_iff :
    (lib : Library) (store : Option TrustStore) (opts : VerifierOptions) (v : Verifier) (env : Env)
    (o : VerifyOptions)
    → new_verifier_with_options lib store opts ≡ ok v
    → (skip_verify env v o ≡ err panicked) ↔ (
        (v.oci_trust_policy_doc ≡ none)
        × ((doc : BlobDocument) × (v.blob_trust_policy_doc ≡ some doc))
        × ((path : String) × (get_artifact_path_from_reference o.artifact_reference ≡ ok path)))
unfolding skip_verify
skip_verify_panics_iff lib store opts v env o made = (to, from)
  where
    to :
        skip_verify env v o ≡ err panicked
        → (v.oci_trust_policy_doc ≡ none)
          × ((doc : BlobDocument) × (v.blob_trust_policy_doc ≡ some doc))
          × ((path : String) × (get_artifact_path_from_reference o.artifact_reference ≡ ok path))
    to h = elim (Option-cases v.oci_trust_policy_doc) [
      | inr (doc, there) ↦ absurd (document-no_panic env v o doc there h)
      | inl missing ↦ elim (Result-cases (get_artifact_path_from_reference o.artifact_reference)) [
        | inl (e, bad) ↦ cc (rw (missing, bad, skip_verify) at h)
        | inr (path, good) ↦
            let (one, _, _, _) = new_verifier_sound lib store opts v made in
            (
              missing,
              some-blob v.oci_trust_policy_doc v.blob_trust_policy_doc one missing,
              (path, good),
            )
      ]
    ]

    from :
        (v.oci_trust_policy_doc ≡ none)
          × ((doc : BlobDocument) × (v.blob_trust_policy_doc ≡ some doc))
          × ((path : String) × (get_artifact_path_from_reference o.artifact_reference ≡ ok path))
        → skip_verify env v o ≡ err panicked
    from (missing, _, (path, good)) = rw (missing, good, skip_verify) refl
