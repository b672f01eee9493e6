-- ===== src/TrustPolicy/Oci/Validation.antt =====
-- `Validate` of oci.go against an independent description of a valid document.
use notation_go_lib.Base.{
  String, ◌≡◌, ◌↔◌, refl, false, Option, some, List, [], ◌∷◌, ok, All, is_empty, arith, eq_iff,
}
use notation_go_lib.Slices.{contains}
use notation_go_lib.Slices.Laws.{Distinct}
use notation_go_lib.Pkix.{Rdn}
use notation_go_lib.TrustPolicy.Statement.{validate_policy_core}
use notation_go_lib.TrustPolicy.Oci.{
  OciTrustPolicy, OciDocument, validate_statements, validate_registry_scopes, validate,
}
use notation_go_lib.TrustPolicy.Oci.Scopes.{HasScopes, scopes_of, validate_registry_scopes_iff}

module _ (parse_dn : String → Option (List Rdn)) where
  -- The statement obeys the rules that all kinds of documents share.
  abbrev pub HasCore : OciTrustPolicy → Type 0
  HasCore s =
      validate_policy_core parse_dn s.name s.signature_verification s.trust_stores
        s.trusted_identities
      ≡ ok tt

  -- The names of the statements differ, from each other and from the names given.
  abbrev pub AreNew : List String → List OciTrustPolicy → Type 0
  AreNew names [] = Unit
  AreNew names (s ∷ rest) = (contains names s.name ≡ false) × AreNew (s.name ∷ names) rest

  validate_statements_iff :
      (sts : List OciTrustPolicy) (names : List String)
      → (validate_statements parse_dn sts names ≡ ok tt) ↔ (All HasCore sts × AreNew names sts)
  unfolding validate_statements
  validate_statements_iff [] names = ((λ h. (tt, tt)), (λ h. refl))
  validate_statements_iff (s ∷ rest) names =
      ground (arith, validate_statements_iff rest (s.name ∷ names))

  pub record IsValid (doc : OciDocument) : Type 0 where
    pub version : doc.version ≡ "1.0"
    pub nonempty : is_empty doc.trust_policies ≡ false
    pub cores : All HasCore doc.trust_policies
    pub names : AreNew [] doc.trust_policies
    pub scopes : All HasScopes doc.trust_policies
    pub distinct_scopes : Distinct (scopes_of doc.trust_policies)

  validate_from :
      (version : String) (sts : List OciTrustPolicy)
      → version ≡ "1.0"
      → IsValid (record { version = version; trust_policies = sts })
      → validate parse_dn (some (record { version = version; trust_policies = sts })) ≡ ok tt
  unfolding validate contains
  validate_from version sts e v =
      rw (e, v.nonempty, (validate_statements_iff sts []).1 (v.cores, v.names))
        ((validate_registry_scopes_iff sts).1 (v.scopes, v.distinct_scopes))

  -- `Validate` accepts a document exactly when its version is "1.0", it has a statement, every
  -- statement obeys the shared rules, the statements' names differ, every statement has valid
  -- scopes with the wildcard only alone, and no scope stands twice in the document.
  pub validate_iff : (doc : OciDocument) → (validate parse_dn (some doc) ≡ ok tt) ↔ IsValid doc
  unfolding validate contains
  validate_iff doc = (to, λ v. validate_from doc.version doc.trust_policies v.version v)
    where
      to : validate parse_dn (some doc) ≡ ok tt → IsValid doc
      to h =
          let statements : validate_statements parse_dn doc.trust_policies [] ≡ ok tt =
            ground arith in
          let scopes : validate_registry_scopes doc.trust_policies ≡ ok tt = ground arith in
          let (cores, names) = (validate_statements_iff doc.trust_policies []).0 statements in
          let (valid, distinct) = (validate_registry_scopes_iff doc.trust_policies).0 scopes in
          record {
            version = ground (arith, eq_iff doc.version "1.0");
            nonempty = ground arith;
            cores = cores;
            names = names;
            scopes = valid;
            distinct_scopes = distinct;
          }
