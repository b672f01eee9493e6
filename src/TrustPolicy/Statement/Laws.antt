-- ===== src/TrustPolicy/Statement/Laws.antt =====
-- verifier/trustpolicy/trustpolicy.go: the statements that `validatePolicyCore` accepts.
use notation_go_lib.Base.{
  String, ◌≡◌, ◌≢◌, ◌⊎◌, inl, inr, true, false, not, ◌&&◌, ◌||◌, Option, none, some, List, [], ◌∷◌,
  ◌++◌, ◌==◌, ok, All, arith, ltb, length, is_empty, eq_iff, Bool-cases, Result-cases, Option-cases,
  guard, >>=-eq-ok, guard-eq-ok, wrap_err-eq-ok, wrap_err,
}
use notation_go_lib.Text.{cut}
use notation_go_lib.Slices.{contains}
use notation_go_lib.FileName.{is_valid_file_name}
use notation_go_lib.Pkix.{StringMap, Rdn, parse_distinguished_name, is_subset_dn}
use notation_go_lib.TrustPolicy.Level.{
  VerificationLevel, SignatureVerification, get_verification_level,
}
use notation_go_lib.TrustPolicy.Statement.{
  ParsedDn, wildcard, x509_subject, store_types, is_valid_trust_store_type, check_store,
  validate_trust_store, overlaps, check_overlaps, validate_overlapping_dns, parse_identity,
  parse_identities, validate_trusted_identities, is_timestamp_option, check_trust,
  validate_policy_core, wildcard_mixed, trust_missing, skip_with_trust, name_missing, bad_level,
  bad_timestamp_option,
}

-- A trust store is a supported type and a file name.
pub record IsStore (store : String) : Type 0 where
  pub type : String
  pub name : String
  pub separated : cut ":" store ≡ some (type, name)
  pub type_known : contains store_types type ≡ true
  pub name_valid : is_valid_file_name name ≡ true

check_store-IsStore : (store : String) → check_store store ≡ ok tt → IsStore store
unfolding check_store is_valid_trust_store_type
check_store-IsStore store h = elim (Option-cases (cut ":" store)) [
  | inl bad ↦ cc (rw (bad, check_store) at h)
  | inr ((type, name), separated) ↦ record {
    type = type;
    name = name;
    separated = separated;
    type_known = ground arith;
    name_valid = ground arith;
  }
]

validate_trust_store-IsStore :
    (stores : List String) → validate_trust_store stores ≡ ok tt → All IsStore stores
unfolding validate_trust_store
validate_trust_store-IsStore [] h = tt
validate_trust_store-IsStore (store ∷ rest) h = elim (Result-cases (check_store store)) [
  | inl (e, bad) ↦ cc (rw (bad, validate_trust_store) at h)
  | inr (u, good) ↦ (
    check_store-IsStore store good,
    validate_trust_store-IsStore rest (rw (good, validate_trust_store) at h),
  )
]

-- The name is no subset of any of the others.
abbrev pub IsApart : ParsedDn → List ParsedDn → Type 0
IsApart dn others = All (λ o. is_subset_dn dn.parsed_map o.parsed_map ≡ false) others

overlaps-none :
    (dn : ParsedDn) (others : List ParsedDn) → overlaps dn others ≡ none → IsApart dn others
unfolding overlaps
overlaps-none dn [] h = tt
overlaps-none dn (o ∷ rest) h = ground (arith, overlaps-none dn rest)

-- Each name, with those before and after it, is apart from all of them.
abbrev pub AreApart : List ParsedDn → List ParsedDn → Type 0
AreApart before [] = Unit
AreApart before (dn ∷ rest) = IsApart dn (before ++ rest) × AreApart (before ++ dn ∷ []) rest

check_overlaps-AreApart :
    (before dns : List ParsedDn) → check_overlaps before dns ≡ ok tt → AreApart before dns
unfolding check_overlaps
check_overlaps-AreApart before [] h = tt
check_overlaps-AreApart before (dn ∷ rest) h = elim (Option-cases (overlaps dn (before ++ rest))) [
  | inr (o, found) ↦ cc (rw (found, check_overlaps) at h)
  | inl clear ↦ (
    overlaps-none dn (before ++ rest) clear,
    check_overlaps-AreApart (before ++ dn ∷ []) rest (rw (clear, check_overlaps) at h),
  )
]

module _ (parse_dn : String → Option (List Rdn)) where
  -- An identity is the wildcard, or of a kind that is not checked, or an x509 subject with a name
  -- that parses.
  abbrev pub IsIdentity : String → Type 0
  IsIdentity identity =
      (identity ≡ wildcard)
      ⊎ ((kind : String) × (value : String) × (cut ":" identity ≡ some (kind, value))
          × ((kind ≢ x509_subject)
              ⊎ ((dn : StringMap) × (value ≢ "")
                  × (parse_distinguished_name parse_dn value ≡ ok dn))))

  parse_identity-IsIdentity :
      (identity : String) (found : List ParsedDn)
      → parse_identity parse_dn identity ≡ ok found
      → (identity ≢ "") × IsIdentity identity
  unfolding parse_identity
  parse_identity-IsIdentity identity found h = elim (Bool-cases (identity == wildcard)) [
    | inl wild ↦ (ground (arith, eq_iff identity ""), inl ((eq_iff identity wildcard).0 wild))
    | inr plain ↦ (
      ground (arith, eq_iff identity ""),
      inr (elim (Option-cases (cut ":" identity)) [
        | inl bad ↦ ground arith
        | inr ((kind, value), separated) ↦ (
          kind,
          value,
          separated,
          elim (Bool-cases (kind == x509_subject)) [
            | inr other ↦ inl (ground (arith, eq_iff kind x509_subject))
            | inl subject ↦ inr (elim (Result-cases (parse_distinguished_name parse_dn value)) [
              | inl (e, bad) ↦ ground arith
              | inr (dn, good) ↦ (dn, ground (arith, eq_iff value ""), good)
            ])
          ],
        )
      ]),
    )
  ]

  parse_identities-IsIdentity :
      (identities : List String) (dns all : List ParsedDn)
      → parse_identities parse_dn identities dns ≡ ok all
      → All (λ i. (i ≢ "") × IsIdentity i) identities
  unfolding parse_identities
  parse_identities-IsIdentity [] dns all h = tt
  parse_identities-IsIdentity (i ∷ rest) dns all h =
      elim (Result-cases (parse_identity parse_dn i)) [
        | inl (e, bad) ↦ cc (rw (bad, parse_identities) at h)
        | inr (found, good) ↦ (
          parse_identity-IsIdentity i found good,
          parse_identities-IsIdentity rest (dns ++ found) all (rw (good, parse_identities) at h),
        )
      ]

  -- The rules on the identities: the wildcard only alone, each an identity, and no name of a subject
  -- a subset of another's.
  pub record AreIdentities (identities : List String) : Type 0 where
    pub wildcard_alone : (ltb 1 (length identities) && contains identities wildcard) ≡ false
    pub each : All (λ i. (i ≢ "") × IsIdentity i) identities
    pub dns : List ParsedDn
    pub parsed : parse_identities parse_dn identities [] ≡ ok dns
    pub apart : AreApart [] dns

  validate_trusted_identities-AreIdentities :
      (identities : List String)
      → validate_trusted_identities parse_dn identities ≡ ok tt
      → AreIdentities identities
  unfolding validate_trusted_identities validate_overlapping_dns
  validate_trusted_identities-AreIdentities identities h =
      let (u, alone, h1) =
        >>=-eq-ok
          (guard (not (ltb 1 (length identities) && contains identities wildcard)) wildcard_mixed) _
          h in
      let (dns, parsed, h2) = >>=-eq-ok (parse_identities parse_dn identities []) _ h1 in
      record {
        wildcard_alone = ground (
          arith,
          guard-eq-ok (not (ltb 1 (length identities) && contains identities wildcard)) _ alone,
        );
        each = parse_identities-IsIdentity identities [] dns parsed;
        dns = dns;
        parsed = parsed;
        apart = check_overlaps-AreApart [] dns h2;
      }

  -- Under "skip" there is nothing to trust; under every other level there are stores and identities
  -- that obey their rules.
  abbrev pub IsTrust : VerificationLevel → List String → List String → Type 0
  IsTrust level stores identities =
      ((level.name ≡ "skip") × (stores ≡ []) × (identities ≡ []))
      ⊎ ((level.name ≢ "skip")
          × (is_empty stores ≡ false)
          × (is_empty identities ≡ false)
          × All IsStore stores
          × AreIdentities identities)

  check_trust-IsTrust :
      (level : VerificationLevel) (name : String) (stores identities : List String)
      → check_trust parse_dn level.name name stores identities ≡ ok tt
      → IsTrust level stores identities
  unfolding check_trust
  check_trust-IsTrust level name stores identities h = elim (Bool-cases (level.name == "skip")) [
    | inl skips ↦
        let nothing =
          guard-eq-ok (is_empty stores && is_empty identities) (skip_with_trust name)
            (rw (skips, check_trust) at h) in
        inl ((eq_iff level.name "skip").0 skips, ground arith, ground arith)
    | inr keeps ↦
        let (u, present, h1) =
          >>=-eq-ok (guard (not (is_empty stores || is_empty identities)) (trust_missing name)) _
            (rw (keeps, check_trust) at h) in
        let (w, good_stores, h2) = >>=-eq-ok (validate_trust_store stores) _ h1 in
        let some_trust = guard-eq-ok (not (is_empty stores || is_empty identities)) _ present in
        inr (
          ground (arith, eq_iff level.name "skip"),
          ground arith,
          ground arith,
          validate_trust_store-IsStore stores good_stores,
          validate_trusted_identities-AreIdentities identities h2,
        )
  ]

  -- A statement that `validatePolicyCore` accepts has a name, a level that `GetVerificationLevel`
  -- returns and a timestamp option that is known; and under "skip" it trusts nothing, while under
  -- every other level it has supported, well-named stores and identities that parse, that have the
  -- wildcard only alone and none of whose names is a subset of another's.
  pub validate_policy_core_sound :
      (name : String) (sv : SignatureVerification) (stores identities : List String)
      → validate_policy_core parse_dn name sv stores identities ≡ ok tt
      → (name ≢ "")
        × ((sv.verify_timestamp ≡ "")
            ⊎ ((sv.verify_timestamp ≡ "always") ⊎ (sv.verify_timestamp ≡ "afterCertExpiry")))
        × ((level : VerificationLevel) × (get_verification_level sv ≡ ok level)
            × IsTrust level stores identities)
  unfolding validate_policy_core
  validate_policy_core_sound name sv stores identities h =
      let (u, named, h1) = >>=-eq-ok (guard (not (name == "")) name_missing) _ h in
      let (level, wrapped, h2) =
        >>=-eq-ok (wrap_err (bad_level name) (get_verification_level sv)) _ h1 in
      let (w, timed, h3) =
        >>=-eq-ok
          (guard (is_timestamp_option parse_dn sv.verify_timestamp) (bad_timestamp_option name)) _
          h2 in
      (
        ground (arith, eq_iff name "", guard-eq-ok (not (name == "")) _ named),
        option_known (guard-eq-ok _ _ timed),
        (level, wrap_err-eq-ok _ _ wrapped, check_trust-IsTrust level name stores identities h3),
      )
    where
      option_known :
          is_timestamp_option parse_dn sv.verify_timestamp ≡ true
          → (sv.verify_timestamp ≡ "")
            ⊎ ((sv.verify_timestamp ≡ "always") ⊎ (sv.verify_timestamp ≡ "afterCertExpiry"))
      option_known k = ground (
        arith,
        eq_iff sv.verify_timestamp "",
        eq_iff sv.verify_timestamp "always",
        eq_iff sv.verify_timestamp "afterCertExpiry",
      )
