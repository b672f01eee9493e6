-- ===== src/Verifier/Revocation/Laws.antt =====
-- verifier/verifier.go: `revocationFinalResult` beside a direct description of the verdict.
use mathlib.Core.Path.{subst}
use notation_go_lib.Base.{
  ◌≤◌, ◌<◌, String, ◌≡◌, ◌↔◌, inl, inr, refl, Bool, true, false, Option, none, some, List, [], ◌∷◌,
  length, arith, is_some, Option-cases,
}
use notation_go_lib.Verifier.Types.{
  Certificate, RevocationStatus, unknown, good, non_revokable, revoked,
}
use notation_go_lib.Verifier.Revocation.{
  tally_one, tally, conclude, pair_up, revocation_final_result, revocation_error, status_error,
}

abbrev pub status_eq : RevocationStatus → RevocationStatus → Bool
status_eq unknown unknown = true
status_eq good good = true
status_eq non_revokable non_revokable = true
status_eq revoked revoked = true
status_eq _ _ = false

-- The subject nearest to the leaf that has the status.
abbrev pub first_with : RevocationStatus → List (RevocationStatus × String) → Option String
first_with status [] = none
first_with status ((s, subject) ∷ rest) = elim (status_eq status s) [
  | true ↦ some subject
  | false ↦ first_with status rest
]

-- The verdict on a chain, from the leaf up: a revoked certificate decides, then an unknown one.
abbrev pub classify : List (RevocationStatus × String) → RevocationStatus × String
classify pairs = elim (first_with revoked pairs) [
  | some subject ↦ (revoked, subject)
  | none ↦ elim (first_with unknown pairs) [ some subject ↦ (unknown, subject) | none ↦ (good, "") ]
]

tally_bounded :
    (pairs : List (RevocationStatus × String)) → (tally pairs).num_ok_results ≤ length pairs
unfolding tally tally_one
tally_bounded [] = omega arith
tally_bounded ((unknown, s) ∷ rest) = omega (arith, tally_bounded rest)
tally_bounded ((good, s) ∷ rest) = omega (arith, tally_bounded rest)
tally_bounded ((non_revokable, s) ∷ rest) = omega (arith, tally_bounded rest)
tally_bounded ((revoked, s) ∷ rest) = omega (arith, tally_bounded rest)

tally_revoked :
    (pairs : List (RevocationStatus × String))
    → ((tally pairs).revoked_found ≡ is_some (first_with revoked pairs))
      × ((s : String) → first_with revoked pairs ≡ some s → (tally pairs).revoked_subject ≡ s)
unfolding tally tally_one
tally_revoked [] = (refl, λ s h. cc)
tally_revoked ((unknown, s) ∷ rest) = tally_revoked rest
tally_revoked ((good, s) ∷ rest) = tally_revoked rest
tally_revoked ((non_revokable, s) ∷ rest) = tally_revoked rest
tally_revoked ((revoked, s) ∷ rest) = (refl, λ s' h. cc)

-- Without a revoked certificate, an unknown one is the final result, or all are counted.
tally_unknown :
    (pairs : List (RevocationStatus × String))
    → first_with revoked pairs ≡ none
    → ((s : String)
        → first_with unknown pairs ≡ some s
        → ((tally pairs).problematic_subject ≡ s)
          × ((tally pairs).final_result ≡ unknown)
          × ((tally pairs).num_ok_results < length pairs))
      × (first_with unknown pairs ≡ none
          → ((tally pairs).problematic_subject ≡ "")
            × ((tally pairs).num_ok_results ≡ length pairs))
unfolding tally tally_one
tally_unknown [] clear = ((λ s h. cc), λ h. (refl, refl))
tally_unknown ((unknown, s) ∷ rest) clear =
    ((λ s' h. (cc, refl, omega (arith, tally_bounded rest))), λ h. cc)
tally_unknown ((good, s) ∷ rest) clear = ground (arith, tally_unknown rest clear)
tally_unknown ((non_revokable, s) ∷ rest) clear = ground (arith, tally_unknown rest clear)
tally_unknown ((revoked, s) ∷ rest) clear = cc

tally_short :
    (pairs : List (RevocationStatus × String)) (s : String)
    → first_with revoked pairs ≡ some s
    → (tally pairs).num_ok_results < length pairs
unfolding tally tally_one
tally_short [] s h = cc
tally_short ((unknown, s') ∷ rest) s h = omega (arith, tally_short rest s h)
tally_short ((good, s') ∷ rest) s h = omega (arith, tally_short rest s h)
tally_short ((non_revokable, s') ∷ rest) s h = omega (arith, tally_short rest s h)
tally_short ((revoked, s') ∷ rest) s h = omega (arith, tally_bounded rest)

-- The loop from the root to the leaf gives the verdict of the direct description: "revoked" with
-- the revoked certificate nearest to the leaf if there is one, else "unknown" with the unknown one
-- nearest to the leaf, else "OK".
pub revocation_final_result_lem :
    (pairs : List (RevocationStatus × String)) → revocation_final_result pairs ≡ classify pairs
unfolding revocation_final_result conclude
revocation_final_result_lem pairs = elim (Option-cases (first_with revoked pairs)) [
  | inr (s, there) ↦
      ground
        (arith, (tally_revoked pairs).0, (tally_revoked pairs).1 s there, tally_short pairs s there)
  | inl clear ↦ elim (Option-cases (first_with unknown pairs)) [
    | inr (s, there) ↦
        ground (arith, (tally_revoked pairs).0, (tally_unknown pairs clear).0 s there)
    | inl known ↦ ground (arith, (tally_revoked pairs).0, (tally_unknown pairs clear).1 known)
  ]
]

-- No certificate is revoked, and none is unknown.
abbrev pub AllClear : List (RevocationStatus × String) → Type 0
AllClear pairs = (first_with revoked pairs ≡ none) × (first_with unknown pairs ≡ none)

status_error-classify :
    (pairs : List (RevocationStatus × String))
    → (status_error (classify pairs) ≡ none) ↔ AllClear pairs
status_error-classify pairs = ground arith

-- The revocation check has no error exactly when the validator answers, with no more results than
-- the chain has certificates, and no result is "revoked" or "unknown".
pub revocation_error_iff :
    (answer : Option (List RevocationStatus)) (certs : List Certificate)
    → (revocation_error answer certs ≡ none) ↔ (
        (statuses : List RevocationStatus) × (pairs : List (RevocationStatus × String)) × (answer
          ≡ some statuses)
        × (pair_up statuses certs ≡ some pairs)
        × AllClear pairs)
unfolding revocation_error
revocation_error_iff none certs = ((λ h. cc), λ (statuses, pairs, h, paired, clear). cc)
revocation_error_iff (some statuses) certs = elim (Option-cases (pair_up statuses certs)) [
  | inl short ↦ ((λ h. cc (rw (short, revocation_error) at h)), λ (st, pairs, h, paired, clear). cc)
  | inr (pairs, paired) ↦ (
    (λ h. (
      statuses,
      pairs,
      refl,
      paired,
      (status_error-classify pairs).0 (
          subst (λ r. status_error r ≡ none) (revocation_final_result_lem pairs)
            (rw (paired, revocation_error) at h)),
    )),
    λ (st, pairs', h, paired', clear).
        let same : pairs' ≡ pairs = cc in
        rw (paired, revocation_error, revocation_final_result_lem pairs)
          ((status_error-classify pairs).1 (subst AllClear same clear)),
  )
]
