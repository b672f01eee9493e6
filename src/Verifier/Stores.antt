-- ===== src/Verifier/Stores.antt =====
-- verifier/helpers.go: the certificates of the trust stores that a policy names.
pub mod Laws
use notation_go_lib.Base.{
  String, Bool, true, false, not, Option, none, some, List, [], ◌∷◌, ◌++◌, ◌==◌, if◌then◌else◌,
  Result, ok, err,
}
use notation_go_lib.Text.{cut}
use notation_go_lib.Slices.{contains}
use notation_go_lib.Verifier.Types.{
  Certificate, SigningScheme, x509, signing_authority, other_scheme, Collaborators, VerifyError,
  scheme_unrecognized, store_malformed,
}

module _ (c : Collaborators) where
  -- The loop of `loadX509TrustStoresWithType`, with the stores that were loaded.
  load_stores :
      String → List String → List String → List Certificate → Result VerifyError (List Certificate)
  unfolding contains cut
  load_stores type [] loaded certs = ok certs
  load_stores type (store ∷ rest) loaded certs =
      let skipped = load_stores type rest loaded certs in
      if contains loaded store then skipped else elim (cut ":" store) [
        | none ↦ err (store_malformed store)
        | some p ↦ if not (type == p.0) then skipped else elim (c.get_certificates type p.1) [
          | err e ↦ err e
          | ok found ↦ load_stores type rest (store ∷ loaded) (certs ++ found)
        ]
      ]

  -- `loadX509TrustStoresWithType`.
  unfoldable pub load_x509_trust_stores_with_type :
      String → List String → Result VerifyError (List Certificate)
  unfolding load_stores
  load_x509_trust_stores_with_type type stores = load_stores type stores [] []

  -- `loadX509TrustStores`.
  unfoldable pub load_x509_trust_stores :
      SigningScheme → List String → Result VerifyError (List Certificate)
  unfolding load_x509_trust_stores_with_type
  load_x509_trust_stores x509 stores = load_x509_trust_stores_with_type "ca" stores
  load_x509_trust_stores signing_authority stores =
      load_x509_trust_stores_with_type "signingAuthority" stores
  load_x509_trust_stores (other_scheme s) stores = err scheme_unrecognized

  -- `loadX509TSATrustStores`.
  unfoldable pub load_x509_tsa_trust_stores :
      SigningScheme → List String → Result VerifyError (List Certificate)
  unfolding load_x509_trust_stores_with_type
  load_x509_tsa_trust_stores x509 stores = load_x509_trust_stores_with_type "tsa" stores
  load_x509_tsa_trust_stores _ stores = err scheme_unrecognized

-- `isTSATrustStoreInPolicy`.
unfoldable pub is_tsa_trust_store_in_policy : List String → Result VerifyError Bool
unfolding cut
is_tsa_trust_store_in_policy [] = ok false
is_tsa_trust_store_in_policy (store ∷ rest) = elim (cut ":" store) [
  | none ↦ err (store_malformed store)
  | some p ↦
      let later = is_tsa_trust_store_in_policy rest in if p.0 == "tsa" then ok true else later
]
