-- ===== src/TrustPolicy/Blob/Laws.antt =====
-- `Validate` of blob.go against a description of a valid document, and the statements that apply.
use mathlib.Core.Path.{subst}
use notation_go_lib.Base.{
  String, sym, ◌≡◌, ◌≢◌, ◌↔◌, refl, Bool, true, false, ◌&&◌, ◌||◌, Option, some, List, [], ◌∷◌,
  ◌++◌, ok, All, is_empty, arith, eq_iff, eq_refl,
}
use notation_go_lib.Text.{trim_space}
use notation_go_lib.Slices.{contains}
use notation_go_lib.Pkix.{Rdn}
use notation_go_lib.TrustPolicy.Statement.{validate_policy_core}
use notation_go_lib.TrustPolicy.Blob.{
  BlobTrustPolicy, BlobDocument, check_global, validate_statements, validate, find_named,
  find_global, get_applicable_trust_policy, get_global_trust_policy,
}

module _ (parse_dn : String → Option (List Rdn)) where
  -- The statement obeys the rules that all kinds of documents share.
  abbrev pub HasCore : BlobTrustPolicy → Type 0
  HasCore s =
      validate_policy_core parse_dn s.name s.signature_verification s.trust_stores
        s.trusted_identities
      ≡ ok tt

  -- The names of the statements differ, from each other and from the names given.
  abbrev pub AreNew : List String → List BlobTrustPolicy → Type 0
  AreNew names [] = Unit
  AreNew names (s ∷ rest) = (contains names s.name ≡ false) × AreNew (s.name ∷ names) rest

  -- At most one statement is global, and none if one was found before.
  abbrev pub OneGlobal : Bool → List BlobTrustPolicy → Type 0
  OneGlobal found [] = Unit
  OneGlobal found (s ∷ rest) =
      ((s.global_policy && found) ≡ false) × OneGlobal (s.global_policy || found) rest

  validate_statements_iff :
      (sts : List BlobTrustPolicy) (names : List String) (found : Bool)
      → (validate_statements parse_dn sts names found ≡ ok tt)
        ↔ (All HasCore sts × AreNew names sts × OneGlobal found sts)
  unfolding validate_statements check_global
  validate_statements_iff [] names found = ((λ h. (tt, tt, tt)), (λ h. refl))
  validate_statements_iff (s ∷ rest) names found =
      ground (arith, validate_statements_iff rest (s.name ∷ names) (s.global_policy || found))

  pub record IsValid (doc : BlobDocument) : Type 0 where
    pub version : doc.version ≡ "1.0"
    pub nonempty : is_empty doc.trust_policies ≡ false
    pub cores : All HasCore doc.trust_policies
    pub names : AreNew [] doc.trust_policies
    pub one_global : OneGlobal false doc.trust_policies

  validate_from :
      (version : String) (sts : List BlobTrustPolicy)
      → version ≡ "1.0"
      → IsValid (record { version = version; trust_policies = sts })
      → validate parse_dn (some (record { version = version; trust_policies = sts })) ≡ ok tt
  unfolding validate contains
  validate_from version sts e v =
      rw (e, v.nonempty, (validate_statements_iff sts [] false).1 (v.cores, v.names, v.one_global))

  -- `Validate` accepts a blob document exactly when its version is "1.0", it has a statement, every
  -- statement obeys the shared rules, the names differ and at most one statement is global. The
  -- level of the global statement does not matter.
  pub blob_validate_iff :
      (doc : BlobDocument) → (validate parse_dn (some doc) ≡ ok tt) ↔ IsValid doc
  unfolding validate contains
  blob_validate_iff doc = (to, λ v. validate_from doc.version doc.trust_policies v.version v)
    where
      to : validate parse_dn (some doc) ≡ ok tt → IsValid doc
      to h =
          let passed : validate_statements parse_dn doc.trust_policies [] false ≡ ok tt =
            ground arith in
          let (cores, names, one) =
            (validate_statements_iff doc.trust_policies [] false).0 passed in
          record {
            version = ground (arith, eq_iff doc.version "1.0");
            nonempty = ground arith;
            cores = cores;
            names = names;
            one_global = one;
          }

  find_global-middle :
      (pre post : List BlobTrustPolicy) (s : BlobTrustPolicy) (found : Bool)
      → OneGlobal found (pre ++ s ∷ post)
      → s.global_policy ≡ true
      → (found ≡ false) × (find_global (pre ++ s ∷ post) ≡ ok s)
  unfolding find_global
  find_global-middle [] post s found one h = ground arith
  find_global-middle (p ∷ pre) post s found one h =
      ground (arith, find_global-middle pre post s (p.global_policy || found) one.1 h)

  -- In a valid document the global statement is found wherever it stands.
  pub get_global_exact :
      (doc : BlobDocument) (pre post : List BlobTrustPolicy) (s : BlobTrustPolicy)
      → IsValid doc
      → doc.trust_policies ≡ pre ++ s ∷ post
      → s.global_policy ≡ true
      → get_global_trust_policy doc ≡ ok s
  unfolding get_global_trust_policy
  get_global_exact doc pre post s v e h =
      rw (e, (find_global-middle pre post s false (subst (OneGlobal false) e v.one_global) h).1)

  find_named-middle :
      (pre post : List BlobTrustPolicy) (s : BlobTrustPolicy) (names : List String)
      → AreNew names (pre ++ s ∷ post)
      → (contains names s.name ≡ false) × (find_named s.name (pre ++ s ∷ post) ≡ ok s)
  unfolding find_named contains
  find_named-middle [] post s names new = (new.0, rw (eq_refl s.name))
  find_named-middle (p ∷ pre) post s names new = ground (
    arith,
    find_named-middle pre post s (p.name ∷ names) new.1,
    eq_iff s.name p.name,
    eq_iff p.name s.name,
  )

  -- In a valid document the statement of a name that is not blank is found wherever it stands.
  pub get_named_exact :
      (doc : BlobDocument) (pre post : List BlobTrustPolicy) (s : BlobTrustPolicy)
      → IsValid doc
      → doc.trust_policies ≡ pre ++ s ∷ post
      → trim_space s.name ≢ ""
      → get_applicable_trust_policy doc s.name ≡ ok s
  unfolding get_applicable_trust_policy
  get_named_exact doc pre post s v e h =
      let found : find_named s.name doc.trust_policies ≡ ok s =
        subst (λ sts. find_named s.name sts ≡ ok s) (sym e)
          (find_named-middle pre post s [] (subst (AreNew []) e v.names)).1 in
      ground (arith, eq_iff (trim_space s.name) "")
