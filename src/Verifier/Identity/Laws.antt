-- ===== src/Verifier/Identity/Laws.antt =====
-- verifier/verifier.go: when `verifyX509TrustedIdentities` has no error.
use mathlib.Core.Path.{subst}
use notation_go_lib.Base.{
  String, ◌≡◌, ◌⊎◌, inl, inr, refl, sym, true, Option, none, some, List, [], ◌∷◌, ◌++◌, ◌==◌,
  if◌then◌else◌, ok, Any, arith, eq_iff, Bool-cases, Result-cases, Option-cases, ok_inj,
}
use notation_go_lib.Text.{cut}
use notation_go_lib.Slices.{contains}
use notation_go_lib.Pkix.{StringMap, Rdn, parse_distinguished_name, is_subset_dn}
use notation_go_lib.TrustPolicy.Statement.{wildcard, x509_subject}
use notation_go_lib.Verifier.Types.{Certificate, VerifyError}
use notation_go_lib.Verifier.Identity.{
  subject_of, subjects_of, matches_some, match_leaf, verify_x509_trusted_identities,
}

module _ (parse_dn : String → Option (List Rdn)) where
  -- The identity is an x509 subject with a name that the leaf's name contains.
  pub record Trusts (leaf_dn : StringMap) (identity : String) : Type 0 where
    pub value : String
    pub dn : StringMap
    pub separated : cut ":" identity ≡ some (x509_subject, value)
    pub parsed : parse_distinguished_name parse_dn value ≡ ok dn
    pub subset : is_subset_dn dn leaf_dn ≡ true

  subject_of-Trusts :
      (identity kind value : String) (found : List StringMap) (leaf_dn : StringMap)
      → cut ":" identity ≡ some (kind, value)
      → subject_of parse_dn identity ≡ ok found
      → matches_some parse_dn found leaf_dn ≡ true
      → Trusts leaf_dn identity
  unfolding subject_of matches_some
  subject_of-Trusts identity kind value found leaf_dn separated h m =
      elim (Bool-cases (kind == x509_subject)) [
        | inr other ↦ ground arith
        | inl subject ↦ elim (Result-cases (parse_distinguished_name parse_dn value)) [
          | inl (e, bad) ↦ ground arith
          | inr (dn, good) ↦ record {
            value = value;
            dn = dn;
            separated = ground (arith, eq_iff kind x509_subject);
            parsed = good;
            subset = ground arith;
          }
        ]
      ]

  separated_of :
      (identity : String) (found : List StringMap)
      → subject_of parse_dn identity ≡ ok found
      → (kind : String) × (value : String) × (cut ":" identity ≡ some (kind, value))
  unfolding subject_of
  separated_of identity found h = elim (Option-cases (cut ":" identity)) [
    | inl bad ↦ cc (rw (bad, subject_of) at h)
    | inr ((kind, value), there) ↦ (kind, value, there)
  ]

  matches_some-append :
      (dns more : List StringMap) (leaf_dn : StringMap)
      → matches_some parse_dn (dns ++ more) leaf_dn ≡ true
      → (matches_some parse_dn dns leaf_dn ≡ true) ⊎ (matches_some parse_dn more leaf_dn ≡ true)
  unfolding matches_some
  matches_some-append [] more leaf_dn m = inr m
  matches_some-append (dn ∷ dns) more leaf_dn m =
      ground (arith, matches_some-append dns more leaf_dn)

  subjects_of-Trusts :
      (identities : List String) (dns : List StringMap) (leaf_dn : StringMap)
      → subjects_of parse_dn identities ≡ ok dns
      → matches_some parse_dn dns leaf_dn ≡ true
      → Any (Trusts leaf_dn) identities
  unfolding subjects_of matches_some
  subjects_of-Trusts [] dns leaf_dn h m = ground arith
  subjects_of-Trusts (identity ∷ rest) dns leaf_dn h m =
      elim (Result-cases (subject_of parse_dn identity)) [
        | inl (e, bad) ↦ cc (rw (bad, subjects_of) at h)
        | inr (found, good) ↦ elim (Result-cases (subjects_of parse_dn rest)) [
          | inl (e, bad) ↦ cc (rw (good, bad, subjects_of) at h)
          | inr (more, later) ↦
              let same : found ++ more ≡ dns = ok_inj (rw (good, later, subjects_of) at h) in
              elim (matches_some-append found more leaf_dn
                (subst (λ l. matches_some parse_dn l leaf_dn ≡ true) (sym same) m)) [
                  | inl first ↦ inl (
                      let (kind, value, separated) = separated_of identity found good in
                      subject_of-Trusts identity kind value found leaf_dn separated good first)
                  | inr others ↦ inr (subjects_of-Trusts rest more leaf_dn later others)
                ]
        ]
      ]

  -- A chain whose identity is accepted belongs to a policy that trusts every identity, or its leaf
  -- has a name that parses and that contains the name of one of the policy's x509 subjects.
  pub verify_x509_trusted_identities_sound :
      (identities : List String) (certs : List Certificate)
      → verify_x509_trusted_identities parse_dn identities certs ≡ none
      → (contains identities wildcard ≡ true)
        ⊎ ((leaf : Certificate) × (rest : List Certificate) × (leaf_dn : StringMap) × (certs
              ≡ leaf ∷ rest)
            × (parse_distinguished_name parse_dn leaf.subject ≡ ok leaf_dn)
            × Any (Trusts leaf_dn) identities)
  unfolding verify_x509_trusted_identities match_leaf
  verify_x509_trusted_identities_sound identities certs h =
      elim (Bool-cases (contains identities wildcard)) [
        | inl all ↦ inl all
        | inr some_only ↦ elim (Result-cases (subjects_of parse_dn identities)) [
          | inl (e, bad) ↦ cc (rw (some_only, bad, verify_x509_trusted_identities) at h)
          | inr (dns, good) ↦
              inr
                (leaf_of dns certs good (rw (some_only, good, verify_x509_trusted_identities) at h))
        ]
      ]
    where
      leaf_of :
          (dns : List StringMap) (certs : List Certificate)
          → subjects_of parse_dn identities ≡ ok dns
          → match_leaf parse_dn dns certs ≡ none
          → (leaf : Certificate) × (rest : List Certificate) × (leaf_dn : StringMap) × (certs
              ≡ leaf ∷ rest)
            × (parse_distinguished_name parse_dn leaf.subject ≡ ok leaf_dn)
            × Any (Trusts leaf_dn) identities
      leaf_of [] certs good k = cc
      leaf_of (dn ∷ dns) [] good k = cc
      leaf_of (dn ∷ dns) (leaf ∷ rest) good k =
          elim (Result-cases (parse_distinguished_name parse_dn leaf.subject)) [
            | inl (e, bad) ↦ cc (rw (bad, match_leaf) at k)
            | inr (leaf_dn, parsed) ↦ (
              leaf,
              rest,
              leaf_dn,
              refl,
              parsed,
              subjects_of-Trusts identities (dn ∷ dns) leaf_dn good
                  (matched leaf_dn (rw (parsed, match_leaf) at k)),
            )
          ]
        where
          matched :
              (leaf_dn : StringMap)
              → (if matches_some parse_dn (dn ∷ dns) leaf_dn
                  then none
                  else some VerifyError.identity_mismatch)
                ≡ none
              → matches_some parse_dn (dn ∷ dns) leaf_dn ≡ true
          matched leaf_dn e = ground arith
