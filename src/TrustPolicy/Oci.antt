-- ===== src/TrustPolicy/Oci.antt =====
-- verifier/trustpolicy/oci.go: documents for OCI artifacts. The counter of registry scopes and the
-- set of statement names are lists.
pub mod Scopes
pub mod Validation
pub mod Selection
pub mod Members
use notation_go_lib.Base.{
  String, Bool, true, false, ◌&&◌, ◌||◌, Option, none, some, List, [], ◌∷◌, ◌++◌, ◌==◌,
  if◌then◌else◌, Result, ok, err, ◌>>=◌, ◌>>◌, guard, wrap_err, not, ltb, length, is_empty,
}
use Prim.Native.String
use notation_go_lib.Text.{cut, before_last, has_char}
use notation_go_lib.Slices.{contains}
use notation_go_lib.Regex.{Regex, eps, cls, seq, alt, star, plus, optional, matches}
use notation_go_lib.Pkix.{Rdn}
use notation_go_lib.TrustPolicy.Level.{SignatureVerification}
use notation_go_lib.TrustPolicy.Statement.{StatementError, wildcard, validate_policy_core}

-- `OCITrustPolicy`.
pub record OciTrustPolicy : Type 0 where
  pub name : String
  pub signature_verification : SignatureVerification
  pub trust_stores : List String
  pub trusted_identities : List String
  pub registry_scopes : List String

-- `OCIDocument`.
pub record OciDocument : Type 0 where
  pub version : String
  pub trust_policies : List OciTrustPolicy

pub data OciError : Type 0 where
  document_nil version_empty : OciError
  version_unsupported : String → OciError
  no_statements : OciError
  name_repeated : String → OciError
  in_statement : StatementError → OciError
  scopes_missing wildcard_mixed : String → OciError
  scope_with_wildcard scope_invalid scope_repeated : String → OciError
  reference_unparsed no_applicable : String → OciError

abbrev pub supported_versions : List String
supported_versions = "1.0" ∷ []

abbrev alnum : Regex
alnum = cls ((b'a', b'z') ∷ (b'A', b'Z') ∷ (b'0', b'9') ∷ [])

abbrev alnum_dash : Regex
alnum_dash = cls ((b'a', b'z') ∷ (b'A', b'Z') ∷ (b'0', b'9') ∷ (b'-', b'-') ∷ [])

-- [a-zA-Z0-9]|[a-zA-Z0-9][a-zA-Z0-9-]*[a-zA-Z0-9]
abbrev domain_part : Regex
domain_part = alt alnum (seq alnum (seq (star alnum_dash) alnum))

abbrev pub domain_pattern : Regex
domain_pattern = seq domain_part (
    seq (optional (plus (seq (cls ((b'.', b'.') ∷ [])) domain_part)))
      (optional (seq (cls ((b':', b':') ∷ [])) (plus (cls ((b'0', b'9') ∷ []))))))

abbrev lower_alnum : Regex
lower_alnum = cls ((b'a', b'z') ∷ (b'0', b'9') ∷ [])

-- [._]|__|[-]*
abbrev separator : Regex
separator =
    alt (cls ((b'.', b'.') ∷ (b'_', b'_') ∷ [])) (
      alt (seq (cls ((b'_', b'_') ∷ [])) (cls ((b'_', b'_') ∷ [])))
        (star (cls ((b'-', b'-') ∷ []))))

abbrev path_part : Regex
path_part = seq (plus lower_alnum) (optional (plus (seq separator (plus lower_alnum))))

abbrev pub repository_pattern : Regex
repository_pattern = seq path_part (optional (plus (seq (cls ((b'/', b'/') ∷ [])) path_part)))

-- `len(scope) > 1`, of a text.
abbrev is_longer_than_one : String → Bool
is_longer_than_one String.[] = false
is_longer_than_one (String.◌∷◌ c s) = not (s == "")

-- `validateRegistryScopeFormat`.
unfoldable pub validate_registry_scope_format : String → Result OciError (Unit {0})
unfolding cut has_char matches
validate_registry_scope_format scope =
    if is_longer_than_one scope && has_char "*" scope
    then err (scope_with_wildcard scope)
    else elim (cut "/" scope) [
      | none ↦ err (scope_invalid scope)
      | some p ↦
          guard
            (not (
              p.0 == ""
              || p.1 == ""
              || not (matches domain_pattern p.0)
              || not (matches repository_pattern p.1)))
            (scope_invalid scope)
    ]

-- The scopes of one statement, added to those that were counted before.
count_scopes : List String → List String → Result OciError (List String)
unfolding validate_registry_scope_format
count_scopes counted [] = ok counted
count_scopes counted (scope ∷ rest) =
    elim (if scope == wildcard then ok tt else validate_registry_scope_format scope) [
      | err e ↦ err e
      | ok u ↦ count_scopes (counted ++ scope ∷ []) rest
    ]

-- One round of the first loop of `validateRegistryScopes`.
check_scopes : OciTrustPolicy → List String → Result OciError (List String)
unfolding contains count_scopes
check_scopes statement counted = do
  guard (not (is_empty statement.registry_scopes)) (scopes_missing statement.name)
  guard
      (not
        (ltb 1 (length statement.registry_scopes) && contains statement.registry_scopes wildcard))
      (wildcard_mixed statement.name)
  count_scopes counted statement.registry_scopes

-- The first loop: every scope of the document, as often as it was counted.
all_scopes : List OciTrustPolicy → List String → Result OciError (List String)
all_scopes [] counted = ok counted
all_scopes (statement ∷ rest) counted = elim (check_scopes statement counted) [
  | err e ↦ err e
  | ok counted' ↦ all_scopes rest counted'
]

-- The second loop: no scope was counted twice.
check_unique : List String → Result OciError (Unit {0})
unfolding contains
check_unique [] = ok tt
check_unique (scope ∷ rest) =
    if contains rest scope then err (scope_repeated scope) else check_unique rest

-- `validateRegistryScopes`.
unfoldable pub validate_registry_scopes : List OciTrustPolicy → Result OciError (Unit {0})
unfolding all_scopes check_scopes check_unique
validate_registry_scopes statements = do counted ← all_scopes statements []; check_unique counted

module _ (parse_dn : String → Option (List Rdn)) where
  -- The loop over the statements, with the names seen so far.
  validate_statements : List OciTrustPolicy → List String → Result OciError (Unit {0})
  unfolding contains validate_policy_core
  validate_statements [] names = ok tt
  validate_statements (s ∷ rest) names =
      if contains names s.name
      then err (name_repeated s.name)
      else elim (validate_policy_core parse_dn s.name s.signature_verification s.trust_stores
          s.trusted_identities) [
            | err e ↦ err (in_statement e)
            | ok u ↦ validate_statements rest (s.name ∷ names)
          ]

  -- `Validate`; a nil document is `none`.
  unfoldable pub validate : Option OciDocument → Result OciError (Unit {0})
  unfolding contains validate_statements validate_registry_scopes
  validate none = err document_nil
  validate (some doc) = do
    guard (not (doc.version == "")) version_empty
    guard (contains supported_versions doc.version) (version_unsupported doc.version)
    guard (not (is_empty doc.trust_policies)) no_statements
    validate_statements doc.trust_policies []
    validate_registry_scopes doc.trust_policies

-- `getArtifactPathFromReference`.
unfoldable pub get_artifact_path_from_reference : String → Result OciError String
unfolding before_last validate_registry_scope_format
get_artifact_path_from_reference reference = elim (before_last "@" reference) [
  | none ↦ err (reference_unparsed reference)
  | some artifact_path ↦ do validate_registry_scope_format artifact_path; ok artifact_path
]

-- The loop of `GetApplicableTrustPolicy`: the last statement with the wildcard, and the last other
-- one with the path. `clone` copies every field, and a value is its own copy.
select :
    String
    → List OciTrustPolicy
    → Option OciTrustPolicy
    → Option OciTrustPolicy
    → Option OciTrustPolicy × Option OciTrustPolicy
unfolding contains
select path [] wild applicable = (wild, applicable)
select path (s ∷ rest) wild applicable =
    let with_wildcard = contains s.registry_scopes wildcard in
    select path rest (if with_wildcard then some s else wild)
      (if not with_wildcard && contains s.registry_scopes path then some s else applicable)

abbrev prefer : Option OciTrustPolicy → Option OciTrustPolicy → Option OciTrustPolicy
prefer (some s) wild = some s
prefer none wild = wild

abbrev or_none_applicable : String → Option OciTrustPolicy → Result OciError OciTrustPolicy
or_none_applicable reference none = err (no_applicable reference)
or_none_applicable reference (some s) = ok s

-- `GetApplicableTrustPolicy`.
unfoldable pub get_applicable_trust_policy : OciDocument → String → Result OciError OciTrustPolicy
unfolding get_artifact_path_from_reference select
get_applicable_trust_policy doc reference = do
  path ← get_artifact_path_from_reference reference
  let found = select path doc.trust_policies none none
  or_none_applicable reference (prefer found.1 found.0)
