-- ===== src/TrustPolicy/Oci/Members.antt =====
-- verifier/trustpolicy/oci.go: a property of all statements, and the one that applies.
use mathlib.Core.Path.{subst}
use notation_go_lib.Base.{
  String, ◌≡◌, inl, inr, sym, not, ◌&&◌, Option, none, some, List, [], ◌∷◌, ok, All, if◌then◌else◌,
  Bool-cases, ok_inj, >>=-eq-ok,
}
use notation_go_lib.Slices.{contains}
use notation_go_lib.TrustPolicy.Statement.{wildcard}
use notation_go_lib.TrustPolicy.Oci.{
  OciDocument, OciTrustPolicy, select, prefer, or_none_applicable, get_artifact_path_from_reference,
  get_applicable_trust_policy,
}

module _ (P : OciTrustPolicy → Type 0) where
  abbrev Holds : Option OciTrustPolicy → Type 0
  Holds none = Unit
  Holds (some s) = P s

  select-All :
      (path : String) (sts : List OciTrustPolicy) (wild found : Option OciTrustPolicy)
      → All P sts
      → Holds wild
      → Holds found
      → Holds (select path sts wild found).0 × Holds (select path sts wild found).1
  unfolding select
  select-All path [] wild found all w f = (w, f)
  select-All path (s ∷ rest) wild found (p, all) w f =
      select-All path rest _ _ all
        (elim (Bool-cases (contains s.registry_scopes wildcard)) [
          | inl e ↦ subst (λ b. Holds (if b then some s else wild)) (sym e) p
          | inr e ↦ subst (λ b. Holds (if b then some s else wild)) (sym e) w
        ])
        (elim (Bool-cases
          (not (contains s.registry_scopes wildcard) && contains s.registry_scopes path)) [
            | inl e ↦ subst (λ b. Holds (if b then some s else found)) (sym e) p
            | inr e ↦ subst (λ b. Holds (if b then some s else found)) (sym e) f
          ])

  preferred :
      (reference : String) (found wild : Option OciTrustPolicy) (s : OciTrustPolicy)
      → Holds wild
      → Holds found
      → or_none_applicable reference (prefer found wild) ≡ ok s
      → P s
  preferred reference (some x) wild s w f h = subst P (ok_inj h) f
  preferred reference none (some x) s w f h = subst P (ok_inj h) w
  preferred reference none none s w f h = cc

  -- A property of every statement holds of the statement that applies.
  pub get_applicable-All :
      (doc : OciDocument) (reference : String) (s : OciTrustPolicy)
      → All P doc.trust_policies
      → get_applicable_trust_policy doc reference ≡ ok s
      → P s
  unfolding get_applicable_trust_policy
  get_applicable-All doc reference s all h =
      let (path, parsed, h1) = >>=-eq-ok (get_artifact_path_from_reference reference) _ h in
      let (wild, found) = select-All path doc.trust_policies none none all tt tt in
      preferred reference _ _ s wild found h1
