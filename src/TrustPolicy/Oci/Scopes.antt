-- ===== src/TrustPolicy/Oci/Scopes.antt =====
-- verifier/trustpolicy/oci.go: `validateRegistryScopes` and the scopes of a document.
use mathlib.Core.Path.{subst}
use mathlib.Core.List.{append_assoc, append-nil}
use notation_go_lib.Base.{
  String, ◌≡◌, ◌↔◌, ◌⊎◌, inl, inr, refl, sym, ◌∙◌, ap, true, false, List, [], ◌∷◌, ◌++◌, ◌==◌,
  if◌then◌else◌, ok, All, ltb, length, is_empty, arith, eq_iff, Result-cases, ok_inj,
}
use notation_go_lib.Slices.{contains}
use notation_go_lib.Slices.Laws.{Distinct}
use notation_go_lib.TrustPolicy.Statement.{wildcard}
use notation_go_lib.TrustPolicy.Oci.{
  OciTrustPolicy, validate_registry_scope_format, count_scopes, check_scopes, all_scopes,
  check_unique, validate_registry_scopes,
}

-- A scope is the wildcard or a repository.
abbrev pub IsScope : String → Type 0
IsScope scope = (scope ≡ wildcard) ⊎ (validate_registry_scope_format scope ≡ ok tt)

-- A statement has scopes, each of them valid, and the wildcard only alone.
pub record HasScopes (s : OciTrustPolicy) : Type 0 where
  pub nonempty : is_empty s.registry_scopes ≡ false
  pub wildcard_alone :
      ltb 1 (length s.registry_scopes) ≡ true → contains s.registry_scopes wildcard ≡ false
  pub scopes : All IsScope s.registry_scopes

-- All the scopes of the statements, in order.
abbrev pub scopes_of : List OciTrustPolicy → List String
scopes_of [] = []
scopes_of (s ∷ rest) = s.registry_scopes ++ scopes_of rest

count_scopes_to :
    (scopes counted r : List String)
    → count_scopes counted scopes ≡ ok r
    → All IsScope scopes × (r ≡ counted ++ scopes)
unfolding count_scopes
count_scopes_to [] counted r h = (tt, sym (ok_inj h) ∙ sym (append-nil counted))
count_scopes_to (scope ∷ rest) counted r h =
    elim (Result-cases
      (if scope == wildcard then ok tt else validate_registry_scope_format scope)) [
        | inl (e, refused) ↦ cc (rw (refused, count_scopes) at h)
        | inr (u, allowed) ↦
            let (more, same) =
              count_scopes_to rest (counted ++ scope ∷ []) r (rw (allowed, count_scopes) at h) in
            (
              (ground (arith, eq_iff scope wildcard), more),
              same ∙ append_assoc counted (scope ∷ []) rest,
            )
      ]

count_scopes_from :
    (scopes counted : List String)
    → All IsScope scopes
    → count_scopes counted scopes ≡ ok (counted ++ scopes)
unfolding count_scopes
count_scopes_from [] counted h = ap ok (sym (append-nil counted))
count_scopes_from (scope ∷ rest) counted (p, h) =
    let allowed : (if scope == wildcard then ok tt else validate_registry_scope_format scope)
        ≡ ok tt =
      ground (arith, eq_iff scope wildcard) in
    rw (allowed, count_scopes)
      (count_scopes_from rest (counted ++ scope ∷ []) h
        ∙ ap ok (append_assoc counted (scope ∷ []) rest))

check_scopes_to :
    (s : OciTrustPolicy) (counted r : List String)
    → check_scopes s counted ≡ ok r
    → HasScopes s × (r ≡ counted ++ s.registry_scopes)
unfolding check_scopes
check_scopes_to s counted r h =
    let counts : count_scopes counted s.registry_scopes ≡ ok r = ground arith in
    let (scopes, same) = count_scopes_to s.registry_scopes counted r counts in
    (
      record { nonempty = ground arith; wildcard_alone = λ long. ground arith; scopes = scopes },
      same,
    )

check_scopes_from :
    (s : OciTrustPolicy) (counted : List String)
    → HasScopes s
    → check_scopes s counted ≡ ok (counted ++ s.registry_scopes)
unfolding check_scopes
check_scopes_from s counted h =
    ground (arith, h.wildcard_alone, count_scopes_from s.registry_scopes counted h.scopes)

all_scopes_to :
    (sts : List OciTrustPolicy) (counted r : List String)
    → all_scopes sts counted ≡ ok r
    → All HasScopes sts × (r ≡ counted ++ scopes_of sts)
unfolding all_scopes
all_scopes_to [] counted r h = (tt, sym (ok_inj h) ∙ sym (append-nil counted))
all_scopes_to (s ∷ rest) counted r h = elim (Result-cases (check_scopes s counted)) [
  | inl (e, refused) ↦ cc (rw (refused, all_scopes) at h)
  | inr (c, allowed) ↦
      let (here, counts) = check_scopes_to s counted c allowed in
      let (more, same) = all_scopes_to rest c r (rw (allowed, all_scopes) at h) in
      (
        (here, more),
        same
            ∙ ap (λ k. k ++ scopes_of rest) counts
            ∙ append_assoc counted s.registry_scopes (scopes_of rest),
      )
]

all_scopes_from :
    (sts : List OciTrustPolicy) (counted : List String)
    → All HasScopes sts
    → all_scopes sts counted ≡ ok (counted ++ scopes_of sts)
unfolding all_scopes
all_scopes_from [] counted h = ap ok (sym (append-nil counted))
all_scopes_from (s ∷ rest) counted (p, h) =
    rw (check_scopes_from s counted p, all_scopes)
      (all_scopes_from rest (counted ++ s.registry_scopes) h
        ∙ ap ok (append_assoc counted s.registry_scopes (scopes_of rest)))

check_unique_iff : (scopes : List String) → (check_unique scopes ≡ ok tt) ↔ Distinct scopes
unfolding check_unique
check_unique_iff [] = ((λ h. tt), (λ h. refl))
check_unique_iff (scope ∷ rest) = ground (arith, check_unique_iff rest)

-- The scopes pass exactly when every statement has valid scopes, the wildcard only alone, and no
-- scope stands twice, in one statement or in two.
pub validate_registry_scopes_iff :
    (sts : List OciTrustPolicy)
    → (validate_registry_scopes sts ≡ ok tt) ↔ (All HasScopes sts × Distinct (scopes_of sts))
unfolding validate_registry_scopes
validate_registry_scopes_iff sts = (to, from)
  where
    to : validate_registry_scopes sts ≡ ok tt → All HasScopes sts × Distinct (scopes_of sts)
    to h = elim (Result-cases (all_scopes sts [])) [
      | inl (e, refused) ↦ ground arith
      | inr (r, counts) ↦
          let (valid, same) = all_scopes_to sts [] r counts in
          (valid, subst Distinct same ((check_unique_iff r).0 (ground arith)))
    ]

    from : All HasScopes sts × Distinct (scopes_of sts) → validate_registry_scopes sts ≡ ok tt
    from (valid, distinct) =
        ground (arith, all_scopes_from sts [] valid, (check_unique_iff (scopes_of sts)).1 distinct)
