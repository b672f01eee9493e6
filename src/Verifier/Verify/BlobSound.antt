-- ===== src/Verifier/Verify/BlobSound.antt =====
-- verifier/verifier.go: `VerifyBlob` where it returns no error.
use notation_go_lib.Base.{
  String, ◌≡◌, ◌⊎◌, inl, inr, refl, ap, true, false, Option, none, some, Result, ok, err, arith,
  nat_eq_iff, eq_iff, Bool-cases, Option-cases, Result-cases,
}
use notation_go_lib.TrustPolicy.Level.{VerificationLevel, get_verification_level, is_level_skip}
use notation_go_lib.TrustPolicy.Level.Laws.{IsGuarded}
use notation_go_lib.TrustPolicy.Blob.{BlobTrustPolicy, BlobDocument}
use notation_go_lib.Verifier.Types.{
  Env, Outcome, Descriptor, EnvelopeContent, VerifyError, blob_mismatch,
}
use notation_go_lib.Verifier.Process.{fresh, process_signature}
use notation_go_lib.Verifier.Process.Signature.{Accepted, process_signature_sound}
use notation_go_lib.Verifier.New.{Verifier}
use notation_go_lib.Verifier.Verify.{
  BlobVerifyOptions, Verdict, failed_with, final_error, digest_algorithm, blob_matches,
  compare_blob, verify_blob_at, verify_blob, blob_policy,
}
use notation_go_lib.Verifier.Verify.Metadata.{HasMetadata, final_error_iff}
use notation_go_lib.Verifier.Verify.Sound.{no_outcome, IsGuarded-unless_skip}

module _ (env : Env) (v : Verifier) (generate : String → Option Descriptor) (signature : String)
    (opts : BlobVerifyOptions) where
  -- The payload describes the blob: the generator, given the digest algorithm of the signature's
  -- hash, computes the digest and the size that were signed, and the media type if it has one.
  pub record Describes (content : EnvelopeContent) : Type 0 where
    pub target : Descriptor
    pub algorithm : String
    pub desc : Descriptor
    pub signed : env.unmarshal_payload content.content ≡ some target
    pub hashed : digest_algorithm content.signer_info.hash ≡ some algorithm
    pub generated : generate algorithm ≡ some desc
    pub same_digest : desc.digest ≡ target.digest
    pub same_size : desc.size ≡ target.size
    pub same_media_type : (desc.media_type ≡ "") ⊎ (desc.media_type ≡ target.media_type)
    pub metadata : HasMetadata target.annotations opts.user_metadata

  blob_matches_sound :
      (desc target : Descriptor)
      → blob_matches env v desc target ≡ true
      → (desc.digest ≡ target.digest)
        × (desc.size ≡ target.size)
        × ((desc.media_type ≡ "") ⊎ (desc.media_type ≡ target.media_type))
  blob_matches_sound desc target h = ground (
    arith,
    eq_iff desc.digest target.digest,
    nat_eq_iff desc.size target.size,
    eq_iff desc.media_type "",
    eq_iff desc.media_type target.media_type,
  )

  compare_blob_sound :
      (content : EnvelopeContent) (o o' : Outcome)
      → o.envelope_content ≡ some content
      → compare_blob env v generate opts o ≡ (some o', none)
      → Describes content
  unfolding compare_blob
  compare_blob_sound content o o' holds h =
      elim (Option-cases (env.unmarshal_payload content.content)) [
        | inl bad ↦ ground arith
        | inr (target, good) ↦ elim (Option-cases (digest_algorithm content.signer_info.hash)) [
          | inl unsupported ↦ ground arith
          | inr (algorithm, hashed) ↦ elim (Option-cases (generate algorithm)) [
            | inl failed ↦ ground arith
            | inr (desc, generated) ↦
                let none_left : final_error (blob_matches env v desc target) blob_mismatch
                      target.annotations opts.user_metadata
                    ≡ none =
                  ap (λ (p : Verdict). p.1)
                    (rw (holds, good, hashed, generated, compare_blob) at h) in
                let (matched, metadata) = (final_error_iff _ _ _ _).0 none_left in
                let (digest, size, media) = blob_matches_sound desc target matched in
                record {
                  target = target;
                  algorithm = algorithm;
                  desc = desc;
                  signed = good;
                  hashed = hashed;
                  generated = generated;
                  same_digest = digest;
                  same_size = size;
                  same_media_type = media;
                  metadata = metadata;
                }
          ]
        ]
      ]

  -- The signature is accepted at the level, and its payload describes the blob.
  pub record VerifiedBlob (policy : BlobTrustPolicy) (level : VerificationLevel) : Type 0 where
    pub accepted :
        Accepted env v.collaborators signature opts.signature_media_type policy.trusted_identities
          policy.trust_stores policy.signature_verification opts.plugin_config level
    pub describes : Describes accepted.content

  verify_blob_at_sound :
      (policy : BlobTrustPolicy) (level : VerificationLevel) (o : Outcome)
      → verify_blob_at env v policy level generate signature opts ≡ (some o, none)
      → ((is_level_skip level ≡ true) × (o ≡ fresh signature level))
        ⊎ ((is_level_skip level ≡ false) × VerifiedBlob policy level)
  unfolding verify_blob_at
  verify_blob_at_sound policy level o h = elim (Bool-cases (is_level_skip level)) [
    | inl skips ↦ inl (skips, ground arith)
    | inr keeps ↦ inr (keeps, after _ refl (rw (keeps, verify_blob_at) at h))
  ]
    where
      after :
          (p : Result VerifyError (Unit {0}) × Outcome)
          → process_signature env v.collaborators signature opts.signature_media_type
              policy.trusted_identities policy.trust_stores policy.signature_verification
              opts.plugin_config
              (fresh signature level)
            ≡ p
          → ◌≡◌ {A = Verdict}
              (elim (p.0) [
                | err e ↦ failed_with p.1 e
                | ok u ↦ compare_blob env v generate opts p.1
              ])
              (some o, none)
          → VerifiedBlob policy level
      after (err e, o1) ran k = let wrong = ap (λ (p : Verdict). p.1) k in cc
      after (ok u, o1) ran k =
          let (accepted, clean, holds, same) =
            process_signature_sound env v.collaborators signature opts.signature_media_type
              policy.trusted_identities policy.trust_stores policy.signature_verification
              opts.plugin_config signature level o1 ran in
          record {
            accepted = accepted;
            describes = compare_blob_sound accepted.content o1 o holds k;
          }

  -- When `VerifyBlob` returns no error, a statement of its document applies and has a level: the
  -- named one, or the global one where no name is given. Either the level is "skip" and the outcome
  -- is fresh, or it enforces integrity and skips nothing but revocation, every check that it enforces
  -- has passed, and the signed payload describes the blob and has the metadata that were required.
  pub verify_blob_sound :
      (o : Outcome)
      → verify_blob env v generate signature opts ≡ (some o, none)
      → (doc : BlobDocument) × (policy : BlobTrustPolicy) × (level : VerificationLevel)
        × (v.blob_trust_policy_doc ≡ some doc)
        × (blob_policy env v doc opts.trust_policy_name ≡ ok policy)
        × (get_verification_level policy.signature_verification ≡ ok level)
        × (((is_level_skip level ≡ true) × (o ≡ fresh signature level))
            ⊎ ((is_level_skip level ≡ false)
                × IsGuarded level.enforcement
                × VerifiedBlob policy level))
  unfolding verify_blob
  verify_blob_sound o h = elim (Option-cases v.blob_trust_policy_doc) [
    | inl missing ↦ absurd (no_outcome (rw (missing, verify_blob) at h))
    | inr (doc, there) ↦ elim (Result-cases (blob_policy env v doc opts.trust_policy_name)) [
      | inl (e, none_applies) ↦ absurd (no_outcome (rw (there, none_applies, verify_blob) at h))
      | inr (policy, applies) ↦
          elim (Result-cases (get_verification_level policy.signature_verification)) [
            | inl (e, bad) ↦ absurd (no_outcome (rw (there, applies, bad, verify_blob) at h))
            | inr (level, good) ↦ (
              doc,
              policy,
              level,
              there,
              applies,
              good,
              elim (verify_blob_at_sound policy level o
                  (rw (there, applies, good, verify_blob) at h)) [
                    | inl skips ↦ inl skips
                    | inr (keeps, verified) ↦
                        inr (keeps, IsGuarded-unless_skip _ level good keeps, verified)
                  ],
            )
          ]
    ]
  ]
