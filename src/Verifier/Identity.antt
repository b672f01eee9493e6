-- ===== src/Verifier/Identity.antt =====
-- verifier/verifier.go: `verifyX509TrustedIdentities`.
pub mod Laws
use notation_go_lib.Base.{
  String, Bool, true, false, not, Option, none, some, List, [], ◌∷◌, ◌++◌, ◌==◌, if◌then◌else◌,
  Result, ok, err, ◌>>=◌, wrap_err,
}
use notation_go_lib.Text.{cut}
use notation_go_lib.Slices.{contains}
use notation_go_lib.Pkix.{StringMap, Rdn, parse_distinguished_name, is_subset_dn}
use notation_go_lib.TrustPolicy.Statement.{
  StatementError, identity_unseparated, identity_without_value, identity_unparsed, wildcard,
  x509_subject,
}
use notation_go_lib.Verifier.Types.{
  Certificate, VerifyError, panicked, identity_refused, no_identities, identity_mismatch,
  subject_unparsed,
}

module _ (parse_dn : String → Option (List Rdn)) where
  -- One identity: the name that it adds, if it is an x509 subject.
  subject_of : String → Result StatementError (List StringMap)
  unfolding cut parse_distinguished_name
  subject_of identity = elim (cut ":" identity) [
    | none ↦ err (identity_unseparated identity)
    | some p ↦
        if not (p.0 == x509_subject)
        then ok []
        else if p.1 == ""
        then err (identity_without_value identity)
        else do
          dn ← wrap_err (identity_unparsed identity) (parse_distinguished_name parse_dn p.1)
          ok (dn ∷ [])
  ]

  -- The loop over the identities.
  subjects_of : List String → Result StatementError (List StringMap)
  unfolding subject_of
  subjects_of [] = ok []
  subjects_of (identity ∷ rest) = do
    found ← subject_of identity
    more ← subjects_of rest
    ok (found ++ more)

  -- The last loop: some identity is a subset of the leaf's name.
  matches_some : List StringMap → StringMap → Bool
  unfolding is_subset_dn
  matches_some [] leaf = false
  matches_some (dn ∷ rest) leaf =
      let later = matches_some rest leaf in if is_subset_dn dn leaf then true else later

  -- The tests on the leaf certificate, once the identities are parsed.
  match_leaf : List StringMap → List Certificate → Option VerifyError
  unfolding matches_some parse_distinguished_name
  match_leaf [] certs = some no_identities
  match_leaf (dn ∷ dns) [] = some panicked
  match_leaf (dn ∷ dns) (leaf ∷ rest) = elim (parse_distinguished_name parse_dn leaf.subject) [
    | err e ↦ some (subject_unparsed leaf.subject)
    | ok leaf_dn ↦ if matches_some (dn ∷ dns) leaf_dn then none else some identity_mismatch
  ]

  -- `verifyX509TrustedIdentities`; `none` is nil.
  unfoldable pub verify_x509_trusted_identities :
      List String → List Certificate → Option VerifyError
  unfolding contains subjects_of match_leaf
  verify_x509_trusted_identities identities certs =
      if contains identities wildcard then none else elim (subjects_of identities) [
        | err e ↦ some (identity_refused e)
        | ok dns ↦ match_leaf dns certs
      ]
