-- ===== src/Blobs/Laws.antt =====
-- notation.go: `VerifyBlob`, and `VerifyBlob` of verifier/verifier.go under it.
use mathlib.Core.Path.{subst}
use notation_go_lib.Base.{
  String, ◌≡◌, ◌≢◌, ◌⊎◌, inl, inr, refl, sym, Bool, true, false, not, Option, none, some, ◌==◌,
  Result, ok, err, arith, eq_iff, ok_inj, ◌||◌, guard, guard-eq-ok, >>=-eq-ok, Option-cases,
}
use notation_go_lib.TrustPolicy.Level.{VerificationLevel, get_verification_level, is_level_skip}
use notation_go_lib.TrustPolicy.Blob.{BlobDocument, BlobTrustPolicy}
use notation_go_lib.Verifier.Types.{Descriptor, Outcome, Env, EnvelopeContent}
use notation_go_lib.Verifier.New.{Verifier}
use notation_go_lib.Verifier.Verify.{BlobVerifyOptions, Verdict, blob_policy, verify_blob_at}
use notation_go_lib.Verifier.Verify
use notation_go_lib.Verifier.Process.{fresh}
use notation_go_lib.Signing.{SignError, jws_media_type, cose_media_type, validate_sig_media_type}
use notation_go_lib.Blobs.{
  Reader, Generator, get_descriptor_func, validate_content_media_type, BlobError, panicked,
  signature_empty, as_argument, after_verdict, verify_blob,
}

abbrev as_option : {E A : Type 0} → Result E A → Option A
as_option (ok a) = some a
as_option (err e) = none

module _ (parse_media_type : String → Bool) where
  after_verdict-eq-ok :
      (unmarshal : String → Option Descriptor) (v : Verdict) (desc : Descriptor) (o : Outcome)
      → after_verdict unmarshal v ≡ ok (desc, o)
      → (v ≡ (some o, none))
        × ((content : EnvelopeContent) × (o.envelope_content ≡ some content)
            × (unmarshal content.content ≡ some desc))
  unfolding after_verdict
  after_verdict-eq-ok unmarshal (o', some e) desc o h = cc
  after_verdict-eq-ok unmarshal (none, none) desc o h = cc
  after_verdict-eq-ok unmarshal (some o', none) desc o h = elim (Option-cases o'.envelope_content) [
    | inl missing ↦ cc (rw (missing, after_verdict) at h)
    | inr (content, there) ↦ elim (Option-cases (unmarshal content.content)) [
      | inl bad ↦ cc (rw (there, bad, after_verdict) at h)
      | inr (d, good) ↦
          let both : ◌≡◌ {A = Result (BlobError) (Descriptor × Outcome)} (ok (d, o'))
              (ok (desc, o)) =
            rw (there, good, after_verdict) at h in
          let same : (d, o') ≡ (desc, o) = ok_inj both in
          subst
            (λ (p : Descriptor × Outcome).
              (◌≡◌ {A = Verdict} (some o', none) (some p.1, none))
              × ((x : EnvelopeContent) × (p.1.envelope_content ≡ some x)
                  × (unmarshal x.content ≡ some p.0)))
            same (refl, (content, there, good))
    ]
  ]

  as_argument-eq-ok : (r : Result SignError (Unit {0})) → as_argument r ≡ ok tt → r ≡ ok tt
  as_argument-eq-ok (ok u) h = refl
  as_argument-eq-ok (err e) h = cc

  -- When `VerifyBlob` of notation.go returns a descriptor and an outcome, the signature is not empty
  -- and of one of the two envelope types, the verifier accepts it with that outcome for the blob's
  -- descriptor generator, and the descriptor is the outcome's payload, read as one.
  pub verify_blob_outcome :
      (verifier : Generator → String → BlobVerifyOptions → Verdict) (reader : Reader)
      (unmarshal : String → Option Descriptor) (signature content_media_type : String)
      (opts : BlobVerifyOptions) (desc : Descriptor) (o : Outcome)
      → verify_blob parse_media_type
          (some verifier)
          (some reader)
          unmarshal
          signature
          content_media_type
          opts
        ≡ ok (desc, o)
      → (signature ≢ "")
        × ((opts.signature_media_type ≡ jws_media_type)
            ⊎ (opts.signature_media_type ≡ cose_media_type))
        × (verifier
              (get_descriptor_func reader content_media_type opts.user_metadata)
              signature
              opts
            ≡ (some o, none))
        × ((content : EnvelopeContent) × (o.envelope_content ≡ some content)
            × (unmarshal content.content ≡ some desc))
  unfolding verify_blob validate_sig_media_type
  verify_blob_outcome verifier reader unmarshal signature content_media_type opts desc o h =
      let (u, full, h1) = >>=-eq-ok (guard (not (signature == "")) signature_empty) _ h in
      let (w, content_type, h2) =
        >>=-eq-ok (as_argument (validate_content_media_type parse_media_type content_media_type)) _
          h1 in
      let (x, media_type, h3) =
        >>=-eq-ok (as_argument (validate_sig_media_type opts.signature_media_type)) _ h2 in
      let (passed, content) = after_verdict-eq-ok unmarshal _ desc o h3 in
      let known =
        guard-eq-ok
          (opts.signature_media_type == jws_media_type
            || opts.signature_media_type == cose_media_type)
          _ (as_argument-eq-ok (validate_sig_media_type opts.signature_media_type) media_type) in
      (
        ground (arith, eq_iff signature "", guard-eq-ok (not (signature == "")) _ full),
        ground (
          arith,
          eq_iff opts.signature_media_type jws_media_type,
          eq_iff opts.signature_media_type cose_media_type,
        ),
        passed,
        content,
      )

  -- The verifier of verifier.go, as `VerifyBlob` of notation.go calls it.
  abbrev pub blob_verifier : Env → Verifier → Generator → String → BlobVerifyOptions → Verdict
  blob_verifier env v generate signature opts =
      Verify.verify_blob env v (λ algorithm. as_option (generate algorithm)) signature opts

  skipped :
      (env : Env) (v : Verifier) (doc : BlobDocument) (policy : BlobTrustPolicy)
      (level : VerificationLevel) (generate : Generator) (signature : String)
      (opts : BlobVerifyOptions)
      → v.blob_trust_policy_doc ≡ some doc
      → blob_policy env v doc opts.trust_policy_name ≡ ok policy
      → get_verification_level policy.signature_verification ≡ ok level
      → is_level_skip level ≡ true
      → blob_verifier env v generate signature opts ≡ (some (fresh signature level), none)
  unfolding Verify.verify_blob verify_blob_at
  skipped env v doc policy level generate signature opts there applies good skips =
      rw (there, applies, good, skips, Verify.verify_blob, verify_blob_at) refl

  -- Under a statement with level "skip", `VerifyBlob` of verifier.go returns an outcome without an
  -- envelope, and `VerifyBlob` of notation.go panics when it reads the envelope's payload.
  pub verify_blob_skip_panics :
      (env : Env) (v : Verifier) (doc : BlobDocument) (policy : BlobTrustPolicy)
      (level : VerificationLevel) (reader : Reader) (unmarshal : String → Option Descriptor)
      (signature content_media_type : String) (opts : BlobVerifyOptions)
      → v.blob_trust_policy_doc ≡ some doc
      → blob_policy env v doc opts.trust_policy_name ≡ ok policy
      → get_verification_level policy.signature_verification ≡ ok level
      → is_level_skip level ≡ true
      → signature ≢ ""
      → validate_content_media_type parse_media_type content_media_type ≡ ok tt
      → validate_sig_media_type opts.signature_media_type ≡ ok tt
      → verify_blob parse_media_type
          (some (blob_verifier env v))
          (some reader)
          unmarshal
          signature
          content_media_type
          opts
        ≡ err panicked
  unfolding verify_blob after_verdict
  verify_blob_skip_panics env v doc policy level reader unmarshal signature content_media_type opts
        there applies good skips full content_type media_type =
      let present : (signature == "") ≡ false = ground (arith, eq_iff signature "") in
      rw (present, content_type, media_type, verify_blob)
        (panics _ (
          skipped env v doc policy level
            (get_descriptor_func reader content_media_type opts.user_metadata) signature opts there
            applies good skips))
    where
      panics :
          (verdict : Verdict)
          → verdict ≡ (some (fresh signature level), none)
          → after_verdict unmarshal verdict ≡ err panicked
      panics verdict ran = subst (λ x. after_verdict unmarshal x ≡ err panicked) (sym ran) refl
