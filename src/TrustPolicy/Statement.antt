-- ===== src/TrustPolicy/Statement.antt =====
-- verifier/trustpolicy/trustpolicy.go: the rules that each statement of a document obeys, and
-- internal/trustpolicy/trustpolicy.go. Names are parsed by the parameter `parse_dn` of `Pkix`.
pub mod Laws
use notation_go_lib.Base.{
  String, Bool, true, false, ◌&&◌, ◌||◌, Option, none, some, List, [], ◌∷◌, ◌++◌, ◌==◌,
  if◌then◌else◌, Result, ok, err, ◌>>=◌, ◌>>◌, guard, wrap_err, not, ltb, length, is_empty,
}
use notation_go_lib.Text.{cut}
use notation_go_lib.Slices.{contains}
use notation_go_lib.FileName.{is_valid_file_name}
use notation_go_lib.Pkix.{StringMap, Rdn, PkixError, parse_distinguished_name, is_subset_dn}
use notation_go_lib.TrustPolicy.Level.{SignatureVerification, LevelError, get_verification_level}

abbrev pub wildcard : String
wildcard = "*"

abbrev pub x509_subject : String
x509_subject = "x509.subject"

-- `TypeCA`, `TypeSigningAuthority` and `TypeTSA` of verifier/truststore.
abbrev pub store_types : List String
store_types = "ca" ∷ "signingAuthority" ∷ "tsa" ∷ []

pub data StatementError : Type 0 where
  name_missing : StatementError
  bad_level : String → LevelError → StatementError
  bad_timestamp_option skip_with_trust trust_missing : String → StatementError
  store_malformed store_type_unsupported store_name_unsupported : String → StatementError
  wildcard_mixed identity_empty : StatementError
  identity_unseparated identity_without_value : String → StatementError
  identity_unparsed : String → PkixError → StatementError
  identities_overlap : String → String → StatementError

-- `parsedDN`.
pub record ParsedDn : Type 0 where
  pub raw_string : String
  pub parsed_map : StringMap

-- `isValidTrustStoreType`.
unfoldable pub is_valid_trust_store_type : String → Bool
unfolding contains
is_valid_trust_store_type s = contains store_types s

-- One round of `validateTrustStore`.
check_store : String → Result StatementError (Unit {0})
unfolding cut is_valid_trust_store_type is_valid_file_name
check_store store = elim (cut ":" store) [
  | none ↦ err (store_malformed store)
  | some p ↦ do
    guard (is_valid_trust_store_type p.0) (store_type_unsupported store)
    guard (is_valid_file_name p.1) (store_name_unsupported store)
]

-- `validateTrustStore`.
pub validate_trust_store : List String → Result StatementError (Unit {0})
unfolding check_store
validate_trust_store [] = ok tt
validate_trust_store (store ∷ rest) = elim (check_store store) [
  | err e ↦ err e
  | ok u ↦ validate_trust_store rest
]

-- The inner loop of `validateOverlappingDNs`: `dn1` against the names at other places.
overlaps : ParsedDn → List ParsedDn → Option ParsedDn
overlaps dn1 [] = none
overlaps dn1 (dn2 ∷ rest) =
    if is_subset_dn dn1.parsed_map dn2.parsed_map then some dn2 else overlaps dn1 rest

-- The outer loop; `before` holds the names at smaller places.
check_overlaps : List ParsedDn → List ParsedDn → Result StatementError (Unit {0})
check_overlaps before [] = ok tt
check_overlaps before (dn1 ∷ rest) = elim (overlaps dn1 (before ++ rest)) [
  | some dn2 ↦ err (identities_overlap dn1.raw_string dn2.raw_string)
  | none ↦ check_overlaps (before ++ dn1 ∷ []) rest
]

-- `validateOverlappingDNs`.
pub validate_overlapping_dns : List ParsedDn → Result StatementError (Unit {0})
unfolding overlaps check_overlaps is_subset_dn
validate_overlapping_dns dns = check_overlaps [] dns

module _ (parse_dn : String → Option (List Rdn)) where
  -- One identity: the parsed name that it adds, if it is a supported subject.
  parse_identity : String → Result StatementError (List ParsedDn)
  unfolding cut parse_distinguished_name
  parse_identity identity =
      if identity == ""
      then err identity_empty
      else if identity == wildcard
      then ok []
      else elim (cut ":" identity) [
        | none ↦ err (identity_unseparated identity)
        | some p ↦
            if not (p.0 == x509_subject)
            then ok []
            else if p.1 == ""
            then err (identity_without_value identity)
            else do
              dn ← wrap_err (identity_unparsed identity) (parse_distinguished_name parse_dn p.1)
              ok (record { raw_string = identity; parsed_map = dn } ∷ [])
      ]

  -- The loop of `validateTrustedIdentities`.
  pub parse_identities : List String → List ParsedDn → Result StatementError (List ParsedDn)
  unfolding parse_identity
  parse_identities [] dns = ok dns
  parse_identities (identity ∷ rest) dns = elim (parse_identity identity) [
    | err e ↦ err e
    | ok found ↦ parse_identities rest (dns ++ found)
  ]

  -- `validateTrustedIdentities`.
  pub validate_trusted_identities : List String → Result StatementError (Unit {0})
  unfolding contains parse_identities validate_overlapping_dns
  validate_trusted_identities tis = do
    guard (not (ltb 1 (length tis) && contains tis wildcard)) wildcard_mixed
    dns ← parse_identities tis []
    validate_overlapping_dns dns

  abbrev is_timestamp_option : String → Bool
  is_timestamp_option o = o == "" || o == "always" || o == "afterCertExpiry"

  -- The rules on trust stores and identities, for a level of that name.
  check_trust : String → String → List String → List String → Result StatementError (Unit {0})
  unfolding validate_trust_store validate_trusted_identities
  check_trust level_name name stores identities =
      if level_name == "skip"
      then guard (is_empty stores && is_empty identities) (skip_with_trust name)
      else do
        guard (not (is_empty stores || is_empty identities)) (trust_missing name)
        validate_trust_store stores
        validate_trusted_identities identities

  -- `validatePolicyCore`.
  unfoldable pub validate_policy_core :
      String → SignatureVerification → List String → List String → Result StatementError (Unit {0})
  unfolding check_trust get_verification_level
  validate_policy_core name sv stores identities = do
    guard (not (name == "")) name_missing
    level ← wrap_err (bad_level name) (get_verification_level sv)
    guard (is_timestamp_option sv.verify_timestamp) (bad_timestamp_option name)
    check_trust level.name name stores identities
