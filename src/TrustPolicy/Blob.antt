-- ===== src/TrustPolicy/Blob.antt =====
-- verifier/trustpolicy/blob.go: documents for arbitrary blobs.
pub mod Laws
use notation_go_lib.Base.{
  String, Bool, true, false, ◌&&◌, Option, none, some, List, [], ◌∷◌, ◌==◌, if◌then◌else◌, Result,
  ok, err, ◌>>=◌, ◌>>◌, guard, not, is_empty,
}
use notation_go_lib.Text.{trim_space}
use notation_go_lib.Slices.{contains}
use notation_go_lib.Pkix.{Rdn}
use notation_go_lib.TrustPolicy.Level.{SignatureVerification}
use notation_go_lib.TrustPolicy.Statement.{StatementError, validate_policy_core}

-- `BlobTrustPolicy`.
pub record BlobTrustPolicy : Type 0 where
  pub name : String
  pub signature_verification : SignatureVerification
  pub trust_stores : List String
  pub trusted_identities : List String
  pub global_policy : Bool

-- `BlobDocument`.
pub record BlobDocument : Type 0 where
  pub version : String
  pub trust_policies : List BlobTrustPolicy

pub data BlobError : Type 0 where
  document_nil version_empty : BlobError
  version_unsupported : String → BlobError
  no_statements : BlobError
  name_repeated : String → BlobError
  in_statement : StatementError → BlobError
  global_repeated global_skipped : BlobError
  policy_name_empty : BlobError
  no_applicable : String → BlobError
  no_global : BlobError

abbrev pub supported_versions : List String
supported_versions = "1.0" ∷ []

-- `reflect.DeepEqual(statement.SignatureVerification.VerificationLevel, LevelSkip)`: the first
-- operand is the level's name, a string, the second a pointer to a level. `DeepEqual` is false on
-- operands of two types.
abbrev deep_equal_name_and_level : String → Bool
deep_equal_name_and_level level_name = false

-- The tests on a statement's `GlobalPolicy`; the result is the new `foundGlobalPolicy`.
check_global : BlobTrustPolicy → Bool → Result BlobError Bool
check_global s found = if not s.global_policy then ok found else do
  guard (not found) global_repeated
  guard (not (deep_equal_name_and_level s.signature_verification.level)) global_skipped
  ok true

module _ (parse_dn : String → Option (List Rdn)) where
  -- The loop over the statements, with the names seen so far.
  validate_statements : List BlobTrustPolicy → List String → Bool → Result BlobError (Unit {0})
  unfolding contains validate_policy_core check_global
  validate_statements [] names found = ok tt
  validate_statements (s ∷ rest) names found =
      if contains names s.name
      then err (name_repeated s.name)
      else elim (validate_policy_core parse_dn s.name s.signature_verification s.trust_stores
          s.trusted_identities) [
            | err e ↦ err (in_statement e)
            | ok u ↦ elim (check_global s found) [
              | err e ↦ err e
              | ok found' ↦ validate_statements rest (s.name ∷ names) found'
            ]
          ]

  -- `Validate`; a nil document is `none`.
  unfoldable pub validate : Option BlobDocument → Result BlobError (Unit {0})
  unfolding contains validate_statements
  validate none = err document_nil
  validate (some doc) = do
    guard (not (doc.version == "")) version_empty
    guard (contains supported_versions doc.version) (version_unsupported doc.version)
    guard (not (is_empty doc.trust_policies)) no_statements
    validate_statements doc.trust_policies [] false

-- The loop of `GetApplicableTrustPolicy`.
find_named : String → List BlobTrustPolicy → Result BlobError BlobTrustPolicy
find_named wanted [] = err (no_applicable wanted)
find_named wanted (s ∷ rest) = if s.name == wanted then ok s else find_named wanted rest

-- `GetApplicableTrustPolicy`.
unfoldable pub get_applicable_trust_policy :
    BlobDocument → String → Result BlobError BlobTrustPolicy
unfolding trim_space find_named
get_applicable_trust_policy doc policy_name = do
  guard (not (trim_space policy_name == "")) policy_name_empty
  find_named policy_name doc.trust_policies

-- The loop of `GetGlobalTrustPolicy`.
find_global : List BlobTrustPolicy → Result BlobError BlobTrustPolicy
find_global [] = err no_global
find_global (s ∷ rest) = if s.global_policy then ok s else find_global rest

-- `GetGlobalTrustPolicy`.
unfoldable pub get_global_trust_policy : BlobDocument → Result BlobError BlobTrustPolicy
unfolding find_global
get_global_trust_policy doc = find_global doc.trust_policies
