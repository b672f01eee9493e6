-- ===== src/TrustPolicy/Oci/Selection.antt =====
-- verifier/trustpolicy/oci.go: which statement of a document applies to an artifact.
use mathlib.Core.Path.{subst}
use mathlib.Core.List.{append_assoc}
use notation_go_lib.Base.{
  String, ap, sym, ltb, length, All-middle, ◌≡◌, ◌≢◌, refl, ◌∙◌, true, false, Option, none, some,
  List, [], ◌∷◌, ◌++◌, if◌then◌else◌, ok, err, All, arith, eq_iff,
}
use notation_go_lib.Slices.{contains}
use notation_go_lib.Slices.Laws.{
  Distinct, Distinct-append_disjoint, Distinct-append_right, contains-append,
}
use notation_go_lib.TrustPolicy.Statement.{wildcard}
use notation_go_lib.TrustPolicy.Oci.{
  OciTrustPolicy, OciDocument, validate_registry_scope_format, get_artifact_path_from_reference,
  select, get_applicable_trust_policy, no_applicable,
}
use notation_go_lib.TrustPolicy.Oci.Scopes.{HasScopes, scopes_of}
use notation_go_lib.Pkix.{Rdn}
use notation_go_lib.TrustPolicy.Oci.Validation.{IsValid}

-- The path that is taken from a reference has the format of a scope, and so is not the wildcard.
artifact_path-format :
    (reference path : String)
    → get_artifact_path_from_reference reference ≡ ok path
    → validate_registry_scope_format path ≡ ok tt
unfolding get_artifact_path_from_reference
artifact_path-format reference path h = ground arith

wildcard-ne-scope : (path : String) → validate_registry_scope_format path ≡ ok tt → path ≢ wildcard
unfolding validate_registry_scope_format
wildcard-ne-scope path h e = cc (subst (λ p. validate_registry_scope_format p ≡ ok tt) e h)

-- Without a statement for the path, the one that was found stays.
select_keeps :
    (path : String) (sts : List OciTrustPolicy) (wild found : Option OciTrustPolicy)
    → contains (scopes_of sts) path ≡ false
    → (select path sts wild found).1 ≡ found
unfolding select contains
select_keeps path [] wild found h = refl
select_keeps path (s ∷ rest) wild found h = ground (
  arith,
  contains-append s.registry_scopes (scopes_of rest) path,
  select_keeps path rest (if contains s.registry_scopes wildcard then some s else wild) found,
)

select_exact :
    (path : String) (pre post : List OciTrustPolicy) (s : OciTrustPolicy)
    (wild found : Option OciTrustPolicy)
    → contains s.registry_scopes path ≡ true
    → contains s.registry_scopes wildcard ≡ false
    → contains (scopes_of post) path ≡ false
    → (select path (pre ++ s ∷ post) wild found).1 ≡ some s
unfolding select contains
select_exact path [] post s wild found h plain later =
    ground (arith, select_keeps path post wild (some s) later)
select_exact path (p ∷ pre) post s wild found h plain later =
    select_exact path pre post s _ _ h plain later

alone_or_without :
    (scopes : List String) (path : String)
    → path ≢ wildcard
    → (ltb 1 (length scopes) ≡ true → contains scopes wildcard ≡ false)
    → contains scopes path ≡ true
    → contains scopes wildcard ≡ false
unfolding contains
alone_or_without [] path plain alone h = refl
alone_or_without (x ∷ []) path plain alone h = ground (arith, eq_iff path x, eq_iff wildcard x)
alone_or_without (x ∷ y ∷ rest) path plain alone h = alone (ground arith)

scopes_of-append :
    (sts more : List OciTrustPolicy) → scopes_of (sts ++ more) ≡ scopes_of sts ++ scopes_of more
scopes_of-append [] more = refl
scopes_of-append (s ∷ sts) more =
    ap (λ k. s.registry_scopes ++ k) (scopes_of-append sts more)
    ∙ sym (append_assoc s.registry_scopes (scopes_of sts) (scopes_of more))

-- In a valid document the statement that names the artifact's path applies, and not the wildcard,
-- wherever it stands.
pub get_applicable_exact :
    (parse_dn : String → Option (List Rdn)) (doc : OciDocument) (reference path : String)
    (pre post : List OciTrustPolicy) (s : OciTrustPolicy)
    → IsValid parse_dn doc
    → get_artifact_path_from_reference reference ≡ ok path
    → doc.trust_policies ≡ pre ++ s ∷ post
    → contains s.registry_scopes path ≡ true
    → get_applicable_trust_policy doc reference ≡ ok s
unfolding get_applicable_trust_policy
get_applicable_exact parse_dn doc reference path pre post s v p e h =
    let here = All-middle HasScopes pre post (subst (All HasScopes) e v.scopes) in
    let distinct : Distinct (scopes_of pre ++ (s.registry_scopes ++ scopes_of post)) =
      subst Distinct (ap scopes_of e ∙ scopes_of-append pre (s ∷ post)) v.distinct_scopes in
    let plain : contains s.registry_scopes wildcard ≡ false =
      alone_or_without s.registry_scopes path
        (wildcard-ne-scope path (artifact_path-format reference path p)) here.wildcard_alone h in
    let later : contains (scopes_of post) path ≡ false =
      Distinct-append_disjoint s.registry_scopes (scopes_of post) path
        (Distinct-append_right (scopes_of pre) _ distinct) h in
    rw (p, e, select_exact path pre post s none none h plain later)

select_wild_keeps :
    (path : String) (sts : List OciTrustPolicy) (wild found : Option OciTrustPolicy)
    → contains (scopes_of sts) wildcard ≡ false
    → (select path sts wild found).0 ≡ wild
unfolding select contains
select_wild_keeps path [] wild found h = refl
select_wild_keeps path (s ∷ rest) wild found h = ground (
  arith,
  contains-append s.registry_scopes (scopes_of rest) wildcard,
  select_wild_keeps path rest wild (if contains s.registry_scopes path then some s else found),
)

select_wild :
    (path : String) (pre post : List OciTrustPolicy) (s : OciTrustPolicy)
    (wild found : Option OciTrustPolicy)
    → contains s.registry_scopes wildcard ≡ true
    → contains (scopes_of post) wildcard ≡ false
    → (select path (pre ++ s ∷ post) wild found).0 ≡ some s
unfolding select contains
select_wild path [] post s wild found h later =
    ground (arith, select_wild_keeps path post (some s) found later)
select_wild path (p ∷ pre) post s wild found h later = select_wild path pre post s _ _ h later

-- In a valid document in which no statement names the artifact's path, the statement with the
-- wildcard applies.
pub get_applicable_wildcard :
    (parse_dn : String → Option (List Rdn)) (doc : OciDocument) (reference path : String)
    (pre post : List OciTrustPolicy) (s : OciTrustPolicy)
    → IsValid parse_dn doc
    → get_artifact_path_from_reference reference ≡ ok path
    → doc.trust_policies ≡ pre ++ s ∷ post
    → contains (scopes_of doc.trust_policies) path ≡ false
    → contains s.registry_scopes wildcard ≡ true
    → get_applicable_trust_policy doc reference ≡ ok s
unfolding get_applicable_trust_policy
get_applicable_wildcard parse_dn doc reference path pre post s v p e absent h =
    let distinct : Distinct (scopes_of pre ++ (s.registry_scopes ++ scopes_of post)) =
      subst Distinct (ap scopes_of e ∙ scopes_of-append pre (s ∷ post)) v.distinct_scopes in
    let later : contains (scopes_of post) wildcard ≡ false =
      Distinct-append_disjoint s.registry_scopes (scopes_of post) wildcard
        (Distinct-append_right (scopes_of pre) _ distinct) h in
    let chosen : (select path doc.trust_policies none none).0 ≡ some s =
      subst (λ sts. (select path sts none none).0 ≡ some s) (sym e)
        (select_wild path pre post s none none h later) in
    rw (p, select_keeps path doc.trust_policies none none absent, chosen)

-- In any document, an artifact that no scope names, in a document without the wildcard, is refused.
pub get_applicable_none :
    (doc : OciDocument) (reference path : String)
    → get_artifact_path_from_reference reference ≡ ok path
    → contains (scopes_of doc.trust_policies) path ≡ false
    → contains (scopes_of doc.trust_policies) wildcard ≡ false
    → get_applicable_trust_policy doc reference ≡ err (no_applicable reference)
unfolding get_applicable_trust_policy
get_applicable_none doc reference path p absent unwild = rw (
  p,
  select_keeps path doc.trust_policies none none absent,
  select_wild_keeps path doc.trust_policies none none unwild,
)
