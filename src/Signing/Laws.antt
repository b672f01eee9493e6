-- ===== src/Signing/Laws.antt =====
-- notation.go: `validateSignArguments` and `Sign`.
use mathlib.Core.Path.{subst}
use Prim.Native.Nat.{◌%◌}
use notation_go_lib.Base.{
  ℕ, String, ◌≡◌, ◌≢◌, ◌⊎◌, ◌∙◌, ap, refl, Bool, true, not, ◌||◌, Option, none, some, ◌==◌, nat_eq,
  nat_eq_iff, ok, guard, >>=-eq-ok, guard-eq-ok, ok_inj, arith, eq_iff,
}
use notation_go_lib.Pkix.{StringMap}
use notation_go_lib.Verifier.Types.{Descriptor, SignerInfo}
use notation_go_lib.Verifier.Checks.{find}
use notation_go_lib.Signatures.{ℤ, pos, negsuc}
use notation_go_lib.Signing.{
  jws_media_type, cose_media_type, second, SignerSignOptions, SignError, validate_sig_media_type,
  check_expiry, validate_sign_arguments, add_user_metadata_to_descriptor, SignEnv, SignOptions,
  or_err, reference_of, check_digest, generate_annotations, after_adding, sign, thumbprint_key,
  created_key, signer_nil, signature_media_type_empty,
}

-- What `validateSignArguments` requires.
pub record AreSignArguments (opts : SignerSignOptions) : Type 0 where
  pub seconds : ℕ
  pub expiry : opts.expiry_duration ≡ pos seconds
  pub whole : seconds % second ≡ 0
  pub envelope :
      (opts.signature_media_type ≡ jws_media_type) ⊎ (opts.signature_media_type ≡ cose_media_type)

check_expiry_sound : (z : ℤ) → check_expiry z ≡ ok tt → (n : ℕ) × (z ≡ pos n) × (n % second ≡ 0)
check_expiry_sound (negsuc n) h = cc
check_expiry_sound (pos n) h = (
  n,
  refl,
  (nat_eq_iff (n % second) 0).0
      (guard-eq-ok (nat_eq (n % second) 0) SignError.expiry_not_in_seconds h),
)

-- The arguments pass only with a signer, a number of nanoseconds that is not negative and a
-- multiple of a second, and one of the two envelope types.
pub validate_sign_arguments_sound :
    (has_signer : Bool) (opts : SignerSignOptions)
    → validate_sign_arguments has_signer opts ≡ ok tt
    → (has_signer ≡ true) × AreSignArguments opts
unfolding validate_sign_arguments validate_sig_media_type
validate_sign_arguments_sound has_signer opts h =
    let (u, there, h1) = >>=-eq-ok (guard has_signer signer_nil) _ h in
    let (w, expiry, h2) = >>=-eq-ok (check_expiry opts.expiry_duration) _ h1 in
    let (x, named, h3) =
      >>=-eq-ok (guard (not (opts.signature_media_type == "")) signature_media_type_empty) _ h2 in
    let known =
      guard-eq-ok
        (opts.signature_media_type == jws_media_type
          || opts.signature_media_type == cose_media_type)
        _ h3 in
    let (n, same, whole) = check_expiry_sound opts.expiry_duration expiry in
    (
      guard-eq-ok has_signer signer_nil there,
      record {
        seconds = n;
        expiry = same;
        whole = whole;
        envelope = ground (
          arith,
          eq_iff opts.signature_media_type jws_media_type,
          eq_iff opts.signature_media_type cose_media_type,
        );
      },
    )

module _ (env : SignEnv) where
  or_err-eq-ok :
      {A : Type 0} (o : Option A) (e : SignError) (a : A) → or_err o e ≡ ok a → o ≡ some a
  or_err-eq-ok none e a h = cc
  or_err-eq-ok (some b) e a h = cc

  -- Annotations of a signature's manifest: the thumbprints of its chain, and its time.
  pub record HasAnnotations (info : SignerInfo) (annotations : StringMap) : Type 0 where
    pub dated : info.signing_time ≢ 0
    pub thumbprints : String
    pub has_thumbprints : find annotations thumbprint_key ≡ some thumbprints
    pub of_chain : env.thumbprints info.certificate_chain ≡ some thumbprints
    pub has_time : find annotations created_key ≡ some (env.format_time info.signing_time)

  generate_annotations_sound :
      (signer_info : Option SignerInfo) (plugin : Option StringMap) (annotations : StringMap)
      → generate_annotations env signer_info plugin ≡ ok annotations
      → (info : SignerInfo) × (signer_info ≡ some info) × HasAnnotations info annotations
  unfolding generate_annotations find
  generate_annotations_sound none plugin annotations h = cc
  generate_annotations_sound (some info) plugin annotations h =
      let (val, hashed, h1) =
        >>=-eq-ok (or_err (env.thumbprints info.certificate_chain) SignError.thumbprints_failed) _
          h in
      let (u, dated, h2) =
        >>=-eq-ok (guard (not (nat_eq info.signing_time 0)) SignError.signing_time_missing) _ h1 in
      let is = ok_inj h2 in
      (
        info,
        refl,
        record {
          dated = ground (
            arith,
            guard-eq-ok (not (nat_eq info.signing_time 0)) _ dated,
            nat_eq_iff info.signing_time 0,
          );
          thumbprints = val;
          has_thumbprints = subst (λ a. find a thumbprint_key ≡ some val) is refl;
          of_chain = or_err-eq-ok _ _ val hashed;
          has_time =
              subst (λ a. find a created_key ≡ some (env.format_time info.signing_time)) is refl;
        },
      )

  -- What `Sign` has done when it returns a descriptor. The signer has signed the resolved descriptor
  -- with the metadata; the signature is pushed for the descriptor that is returned: the resolved one,
  -- or the one with the metadata where the resolved one has a map of annotations, which is shared.
  pub record Signed (opts : SignOptions) (subject : Descriptor) : Type 0 where
    pub arguments : AreSignArguments opts.signer_options
    pub target : Descriptor
    pub has_map : Bool
    pub resolved : env.resolve (reference_of env opts.artifact_reference) ≡ some (target, has_map)
    pub digest :
        env.is_digest (reference_of env opts.artifact_reference) ≡ true
        → reference_of env opts.artifact_reference ≡ target.digest
    pub to_sign : Descriptor
    pub merged : add_user_metadata_to_descriptor target opts.user_metadata ≡ ok to_sign
    pub returned : subject ≡ after_adding env (target, has_map) to_sign
    pub blob : String
    pub info : SignerInfo
    pub signed : env.sign to_sign opts.signer_options ≡ some (blob, some info)
    pub annotations : StringMap
    pub annotated : HasAnnotations info annotations
    pub pushed :
        env.push_signature opts.signer_options.signature_media_type blob subject annotations ≡ true

  -- When `Sign` returns a descriptor, it is the one that the reference resolves to, with its digest
  -- if the reference is one, and with the user's metadata added where it came with a map of
  -- annotations; the signer has signed it with the metadata; and the signature is pushed for the
  -- returned one with the chain's thumbprints and the signing time as annotations.
  pub sign_sound :
      (has_signer has_repo : Bool) (opts : SignOptions) (subject : Descriptor)
      → sign env has_signer has_repo opts ≡ ok subject
      → Signed opts subject
  unfolding sign
  sign_sound has_signer has_repo opts subject h =
      let (u, valid, h1) = >>=-eq-ok (validate_sign_arguments has_signer opts.signer_options) _ h in
      let (w, repo, h2) = >>=-eq-ok (guard has_repo SignError.repo_nil) _ h1 in
      let ((t, m), resolved, h3) =
        >>=-eq-ok
          (or_err (env.resolve (reference_of env opts.artifact_reference)) SignError.resolve_failed)
          _ h2 in
      let (x, digest, h4) =
        >>=-eq-ok (check_digest env (reference_of env opts.artifact_reference) t) _ h3 in
      let (to_sign, merged, h5) =
        >>=-eq-ok (add_user_metadata_to_descriptor t opts.user_metadata) _ h4 in
      let ((blob, signer_info), signed, h6) =
        >>=-eq-ok (or_err (env.sign to_sign opts.signer_options) SignError.signer_failed) _ h5 in
      let (annotations, generated, h7) =
        >>=-eq-ok (generate_annotations env signer_info env.plugin_annotations) _ h6 in
      let (y, pushed, h8) =
        >>=-eq-ok
          (guard
            (env.push_signature opts.signer_options.signature_media_type blob
              (after_adding env (t, m) to_sign) annotations)
            SignError.push_failed)
          _ h7 in
      let (info, there, annotated) =
        generate_annotations_sound signer_info env.plugin_annotations annotations generated in
      subst (Signed opts) (ok_inj h8) (record {
        arguments = (validate_sign_arguments_sound has_signer opts.signer_options valid).1;
        target = t;
        has_map = m;
        resolved = or_err-eq-ok _ _ (t, m) resolved;
        digest =
            λ is_digest. as_digest (reference_of env opts.artifact_reference) t digest is_digest;
        to_sign = to_sign;
        merged = merged;
        returned = refl;
        blob = blob;
        info = info;
        signed = or_err-eq-ok _ _ (blob, signer_info) signed ∙ ap (λ i. some (blob, i)) there;
        annotations = annotations;
        annotated = annotated;
        pushed = guard-eq-ok _ _ pushed;
      })
    where
      as_digest :
          (reference : String) (t : Descriptor)
          → check_digest env reference t ≡ ok tt
          → env.is_digest reference ≡ true
          → reference ≡ t.digest
      as_digest reference t k d = ground (arith, eq_iff reference t.digest)
