-- ===== src/Verifier/New/Laws.antt =====
-- verifier/verifier.go: what a verifier that was constructed has.
use mathlib.Core.Path.{subst}
use notation_go_lib.Base.{
  ◌≡◌, inl, inr, true, not, Option, none, some, ok, arith, wrap_err-eq-ok, ok_inj, Result-cases,
  Bool-cases, is_some, ◌||◌,
}
use notation_go_lib.TrustPolicy.Oci
use notation_go_lib.TrustPolicy.Oci.{OciDocument, OciTrustPolicy}
use notation_go_lib.TrustPolicy.Oci.Validation
use notation_go_lib.TrustPolicy.Blob
use notation_go_lib.TrustPolicy.Blob.{BlobDocument}
use notation_go_lib.TrustPolicy.Blob.Laws
use notation_go_lib.Verifier.Types.{Collaborators}
use notation_go_lib.Verifier.New.{
  Library, Verifier, VerifierOptions, TrustStore, check_oci, check_blob, set_revocation,
  timestamping_of, new_verifier_with_options,
}

-- One of the two ways to check the revocation of code signing certificates is set, not both.
abbrev pub HasOneValidator : Collaborators → Type 0
HasOneValidator c = is_some c.code_signing_validator ≡ not (is_some c.revocation_client)

module _ (lib : Library) where
  set_revocation-HasOneValidator :
      (opts : VerifierOptions) (store : TrustStore) (c : Collaborators)
      → set_revocation lib opts store ≡ ok c
      → HasOneValidator c
  unfolding set_revocation timestamping_of
  set_revocation-HasOneValidator opts store c h = ground arith

  check_oci-IsValid :
      (d : Option OciDocument)
      → check_oci lib d ≡ ok tt
      → (doc : OciDocument) → d ≡ some doc
      → Oci.Validation.IsValid lib.parse_dn doc
  unfolding check_oci
  check_oci-IsValid none h doc e = cc
  check_oci-IsValid (some d) h doc e =
      subst (Oci.Validation.IsValid lib.parse_dn) (ground arith)
        ((Oci.Validation.validate_iff lib.parse_dn d).0 (wrap_err-eq-ok _ _ h))

  check_blob-IsValid :
      (d : Option BlobDocument)
      → check_blob lib d ≡ ok tt
      → (doc : BlobDocument) → d ≡ some doc
      → Blob.Laws.IsValid lib.parse_dn doc
  unfolding check_blob
  check_blob-IsValid none h doc e = cc
  check_blob-IsValid (some d) h doc e =
      subst (Blob.Laws.IsValid lib.parse_dn) (ground arith)
        ((Blob.Laws.blob_validate_iff lib.parse_dn d).0 (wrap_err-eq-ok _ _ h))

  -- A verifier that is constructed has a document, each document that it has is valid, and it has
  -- either a code signing validator or a revocation client, not both.
  pub new_verifier_sound :
      (store : Option TrustStore) (opts : VerifierOptions) (v : Verifier)
      → new_verifier_with_options lib store opts ≡ ok v
      → ((is_some v.oci_trust_policy_doc || is_some v.blob_trust_policy_doc) ≡ true)
        × ((doc : OciDocument)
            → v.oci_trust_policy_doc ≡ some doc
            → Oci.Validation.IsValid lib.parse_dn doc)
        × ((doc : BlobDocument)
            → v.blob_trust_policy_doc ≡ some doc
            → Blob.Laws.IsValid lib.parse_dn doc)
        × HasOneValidator v.collaborators
  unfolding new_verifier_with_options
  new_verifier_sound none opts v h = cc
  new_verifier_sound (some store) opts v h =
      elim (Bool-cases (is_some opts.oci_trust_policy || is_some opts.blob_trust_policy)) [
        | inr neither ↦ cc (rw (neither, new_verifier_with_options) at h)
        | inl one ↦ elim (Result-cases (check_oci lib opts.oci_trust_policy)) [
          | inl (e, bad) ↦ cc (rw (one, bad, new_verifier_with_options) at h)
          | inr (u, oci) ↦ elim (Result-cases (check_blob lib opts.blob_trust_policy)) [
            | inl (e, bad) ↦ cc (rw (one, oci, bad, new_verifier_with_options) at h)
            | inr (w, blob) ↦ elim (Result-cases (set_revocation lib opts store)) [
              | inl (e, bad) ↦ cc (rw (one, oci, blob, bad, new_verifier_with_options) at h)
              | inr (c, set) ↦
                  subst
                    (λ (x : Verifier).
                      ((is_some x.oci_trust_policy_doc || is_some x.blob_trust_policy_doc) ≡ true)
                      × ((doc : OciDocument)
                          → x.oci_trust_policy_doc ≡ some doc
                          → Oci.Validation.IsValid lib.parse_dn doc)
                      × ((doc : BlobDocument)
                          → x.blob_trust_policy_doc ≡ some doc
                          → Blob.Laws.IsValid lib.parse_dn doc)
                      × HasOneValidator x.collaborators)
                    (ok_inj (rw (one, oci, blob, set, new_verifier_with_options) at h))
                    (
                      one,
                      check_oci-IsValid _ oci,
                      check_blob-IsValid _ blob,
                      set_revocation-HasOneValidator opts store c set,
                    )
            ]
          ]
        ]
      ]
