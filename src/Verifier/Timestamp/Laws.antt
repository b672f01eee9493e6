-- ===== src/Verifier/Timestamp/Laws.antt =====
-- verifier/verifier.go: what `verifyTimestamp` and `verifyAuthenticTimestamp` require.
use notation_go_lib.Base.{
  ℕ, ◌≤◌, String, ◌≡◌, ◌↔◌, ◌⊎◌, inl, inr, refl, ◌∙◌, Bool, true, false, not, ◌&&◌, ◌||◌, Option,
  none, some, List, [], ◌∷◌, ◌==◌, Result, ok, err, All, arith, ltb, any, is_empty, Bool-cases,
  ok_inj, >>=-eq-ok, guard-eq-ok, ◌>>◌, guard,
}
use notation_go_lib.TrustPolicy.Level.{VerificationLevel}
use notation_go_lib.Verifier.Types.{
  Certificate, SigningScheme, x509, signing_authority, other_scheme, SignerInfo, Timestamp, Env,
  Collaborators, VerifyError,
}
use notation_go_lib.Verifier.Stores.{load_x509_tsa_trust_stores, is_tsa_trust_store_in_policy}
use notation_go_lib.Verifier.Revocation.{revocation_error}
use notation_go_lib.Verifier.Timestamp.{
  valid_now, valid_when_signed, from_option, from_error, perform_timestamp, bounded_by,
  check_countersignature, verify_timestamp, error_of, check_authentic_timestamp,
  verify_authentic_timestamp,
}

-- Each certificate is valid at the time.
abbrev pub ValidAt : ℕ → List Certificate → Type 0
ValidAt time certs = All (λ cert. (cert.not_before ≤ time) × (time ≤ cert.not_after)) certs

valid_now_iff :
    (time : ℕ) (certs : List Certificate) → (valid_now time certs ≡ ok tt) ↔ ValidAt time certs
unfolding valid_now
valid_now_iff time [] = ((λ h. tt), λ h. refl)
valid_now_iff time (cert ∷ rest) = ground (arith, valid_now_iff time rest)

from_option-eq-ok :
    {A : Type 0} (o : Option A) (e : VerifyError) (a : A) → from_option o e ≡ ok a → o ≡ some a
from_option-eq-ok none e a h = cc
from_option-eq-ok (some b) e a h = cc

from_error-eq-ok : (o : Option VerifyError) → from_error o ≡ ok tt → o ≡ none
from_error-eq-ok none h = refl
from_error-eq-ok (some e) h = cc

module _ (env : Env) (c : Collaborators) where
  passed : (r : Result VerifyError (Unit {0})) → error_of env c r ≡ none → r ≡ ok tt
  passed (ok u) h = refl
  passed (err e) h = cc

  -- The timestamp lies within the validity of each certificate.
  abbrev pub StampWithin : Timestamp → List Certificate → Type 0
  StampWithin stamp certs =
      All
        (λ cert.
          (env.bounded_after stamp cert.not_before ≡ true)
          × (env.bounded_before stamp cert.not_after ≡ true))
        certs

  bounded_by_iff :
      (stamp : Timestamp) (certs : List Certificate)
      → (bounded_by env c stamp certs ≡ ok tt) ↔ StampWithin stamp certs
  unfolding bounded_by
  bounded_by_iff stamp [] = ((λ h. tt), λ h. refl)
  bounded_by_iff stamp (cert ∷ rest) = ground (arith, bounded_by_iff stamp rest)

  -- A countersignature of the policy's timestamping authorities that covers the signature.
  pub record Countersigned (stores : List String) (info : SignerInfo) : Type 0 where
    pub token : ℕ
    pub tst : ℕ
    pub stamp : Timestamp
    pub roots : List Certificate
    pub chain : List Certificate
    pub parsed : env.parse_signed_token info.timestamp_signature ≡ some token
    pub has_info : env.token_info token ≡ some tst
    pub of_signature : env.validate_info tst info.signature ≡ some stamp
    pub loaded : load_x509_tsa_trust_stores c info.scheme stores ≡ ok roots
    pub nonempty : is_empty roots ≡ false
    pub verified : env.verify_token token stamp.value roots ≡ some chain
    pub after_signing : env.bounded_after stamp info.signing_time ≡ true
    pub chain_valid : env.valid_tsa_chain chain ≡ true
    pub within : StampWithin stamp info.certificate_chain
    pub not_revoked : revocation_error (c.timestamping_validator chain) chain ≡ none

  -- The steps after the stamp is verified with a chain.
  last_steps :
      List String → SignerInfo → Timestamp → List Certificate → Result VerifyError (Unit {0})
  last_steps stores info stamp chain = do
    guard (env.bounded_after stamp info.signing_time) VerifyError.timestamp_before_signing
    guard (env.valid_tsa_chain chain) VerifyError.tsa_chain_invalid
    bounded_by env c stamp info.certificate_chain
    from_error (revocation_error (c.timestamping_validator chain) chain)

  last_steps_sound :
      (stores : List String) (info : SignerInfo) (stamp : Timestamp) (chain : List Certificate)
      → last_steps stores info stamp chain ≡ ok tt
      → (env.bounded_after stamp info.signing_time ≡ true)
        × (env.valid_tsa_chain chain ≡ true)
        × (bounded_by env c stamp info.certificate_chain ≡ ok tt)
        × (revocation_error (c.timestamping_validator chain) chain ≡ none)
  unfolding last_steps
  last_steps_sound stores info stamp chain h =
      let (u, after, h1) =
        >>=-eq-ok
          (guard (env.bounded_after stamp info.signing_time) VerifyError.timestamp_before_signing) _
          h in
      let (w, valid, h2) =
        >>=-eq-ok (guard (env.valid_tsa_chain chain) VerifyError.tsa_chain_invalid) _ h1 in
      let (x, within, h3) = >>=-eq-ok (bounded_by env c stamp info.certificate_chain) _ h2 in
      (guard-eq-ok _ _ after, guard-eq-ok _ _ valid, within, from_error-eq-ok _ h3)

  check_countersignature_sound :
      (stores : List String) (info : SignerInfo)
      → check_countersignature env c stores info ≡ ok tt
      → Countersigned stores info
  unfolding check_countersignature last_steps
  check_countersignature_sound stores info h =
      let (u, present, h1) =
        >>=-eq-ok (guard (not (info.timestamp_signature == "")) VerifyError.timestamp_missing) _
          h in
      let (token, parsed, h2) =
        >>=-eq-ok
          (from_option (env.parse_signed_token info.timestamp_signature)
            VerifyError.timestamp_unparsable)
          _ h1 in
      let (tst, has_info, h3) =
        >>=-eq-ok (from_option (env.token_info token) VerifyError.timestamp_without_info) _ h2 in
      let (stamp, validated, h4) =
        >>=-eq-ok (from_option (env.validate_info tst info.signature) VerifyError.timestamp_invalid)
          _ h3 in
      let (roots, loaded, h5) = >>=-eq-ok (load_x509_tsa_trust_stores c info.scheme stores) _ h4 in
      let (w, some_roots, h6) =
        >>=-eq-ok (guard (not (is_empty roots)) VerifyError.no_tsa_certificates) _ h5 in
      let (chain, verified, h7) =
        >>=-eq-ok
          (from_option (env.verify_token token stamp.value roots) VerifyError.timestamp_unverified)
          _ h6 in
      let (after, valid, within, clear) = last_steps_sound stores info stamp chain h7 in
      record {
        token = token;
        tst = tst;
        stamp = stamp;
        roots = roots;
        chain = chain;
        parsed = from_option-eq-ok _ _ _ parsed;
        has_info = from_option-eq-ok _ _ _ has_info;
        of_signature = from_option-eq-ok _ _ _ validated;
        loaded = loaded;
        nonempty = ground (arith, guard-eq-ok (not (is_empty roots)) _ some_roots);
        verified = from_option-eq-ok _ _ _ verified;
        after_signing = after;
        chain_valid = valid;
        within = (bounded_by_iff stamp info.certificate_chain).0 within;
        not_revoked = clear;
      }

  -- What the timestamp check of notary.x509 requires: a countersignature, where the policy names a
  -- store of timestamping authorities and asks for it now; else a chain that is valid now.
  abbrev pub TimestampOk : List String → String → SignerInfo → Type 0
  TimestampOk stores option info =
      (enabled : Bool) × (is_tsa_trust_store_in_policy stores ≡ ok enabled)
      × (((enabled
                && (not (option == "afterCertExpiry")
                    || any (λ cert. ltb cert.not_after env.now_at_timestamp)
                        info.certificate_chain))
              ≡ true)
            × Countersigned stores info
          ⊎ ((enabled
                && (not (option == "afterCertExpiry")
                    || any (λ cert. ltb cert.not_after env.now_at_timestamp)
                        info.certificate_chain))
              ≡ false)
            × ValidAt env.now_at_timestamp info.certificate_chain)

  -- `verifyTimestamp` passes only where the policy asks for a countersignature and the signature has
  -- one that a timestamping authority of the policy made over it, after the signing time and within
  -- the validity of the signer's chain; or where none is asked for and the chain is valid now.
  pub verify_timestamp_sound :
      (stores : List String) (option : String) (info : SignerInfo)
      → verify_timestamp env c stores option info ≡ ok tt
      → TimestampOk stores option info
  unfolding verify_timestamp perform_timestamp
  verify_timestamp_sound stores option info h =
      let (perform, decided, h1) = >>=-eq-ok (perform_timestamp env c stores option info) _ h in
      let (enabled, read, h2) = >>=-eq-ok (is_tsa_trust_store_in_policy stores) _ decided in
      (
        enabled,
        read,
        elim (Bool-cases perform) [
          | inl asked ↦
              inl (ok_inj h2 ∙ asked, check_countersignature_sound stores info (rw asked at h1))
          | inr unasked ↦ inr (ok_inj h2 ∙ unasked, (valid_now_iff _ _).0 (rw unasked at h1))
        ],
      )

  -- What `verifyAuthenticTimestamp` requires: under notary.x509 what `verifyTimestamp` does, and
  -- under the other schemes a chain that was valid at the signing time.
  abbrev pub AuthenticAt : List String → String → SignerInfo → SigningScheme → Type 0
  AuthenticAt stores option info x509 = TimestampOk stores option info
  AuthenticAt stores option info _ = ValidAt info.signing_time info.certificate_chain

  check_authentic_timestamp_sound :
      (stores : List String) (option : String) (info : SignerInfo) (scheme : SigningScheme)
      → check_authentic_timestamp env c stores option info scheme ≡ none
      → AuthenticAt stores option info scheme
  unfolding check_authentic_timestamp valid_when_signed
  check_authentic_timestamp_sound stores option info x509 h =
      verify_timestamp_sound stores option info (passed _ h)
  check_authentic_timestamp_sound stores option info signing_authority h =
      (valid_now_iff _ _).0 (passed _ h)
  check_authentic_timestamp_sound stores option info (other_scheme s) h =
      (valid_now_iff _ _).0 (passed _ h)

  -- A result of `verifyAuthenticTimestamp` without error means what the scheme requires.
  pub verify_authentic_timestamp_sound :
      (stores : List String) (option : String) (level : VerificationLevel) (info : SignerInfo)
      → (verify_authentic_timestamp env c stores option level info).error ≡ none
      → AuthenticAt stores option info info.scheme
  unfolding verify_authentic_timestamp
  verify_authentic_timestamp_sound stores option level info h =
      check_authentic_timestamp_sound stores option info info.scheme h
