-- ===== src/Verifier/Process/Recorded.antt =====
-- verifier/verifier.go: the results that `processSignature` records, none of them a critical failure,
-- and the first result of the authenticity, which may get an error later.
use mathlib.Core.Path.{subst}
use notation_go_lib.Base.{
  String, ◌≡◌, ◌≢◌, inl, inr, refl, false, none, some, List, [], ◌∷◌, ◌++◌, ok, arith, Bool-cases,
  Option-cases, All, All-append,
}
use notation_go_lib.TrustPolicy.Level.{ValidationAction, enforce, authenticity, type_eq}
use notation_go_lib.Verifier.Types.{
  Env, Collaborators, SignerInfo, Outcome, ValidationResult, VerifyError, Capability,
}
use notation_go_lib.Verifier.Checks.{is_critical_failure}
use notation_go_lib.Verifier.Plugins.{is_identity, has, fail_first, first_of_type}
use notation_go_lib.Verifier.Identity.{verify_x509_trusted_identities}
use notation_go_lib.Verifier.Process.{stop_if_critical, fail_authenticity, process_identities}
use notation_go_lib.Verifier.Process.Actions.{append, with_results}

-- No result is a critical failure.
abbrev pub IsClean : List ValidationResult → Type 0
IsClean rs = All (λ r. is_critical_failure r ≡ false) rs

-- The first authenticity result is there, and has that action.
abbrev pub HasAuthenticity : ValidationAction → List ValidationResult → Type 0
HasAuthenticity a rs =
    (r : ValidationResult) × (first_of_type authenticity rs ≡ some r) × (r.action ≡ a)

pub HasAuthenticity-append :
    (a : ValidationAction) (rs ss : List ValidationResult)
    → HasAuthenticity a rs
    → HasAuthenticity a (rs ++ ss)
unfolding first_of_type
HasAuthenticity-append a [] ss (r, e, h) = cc
HasAuthenticity-append a (x ∷ rs) ss (r, e, h) = elim (Bool-cases (type_eq x.type authenticity)) [
  | inl here ↦ (r, ground arith, h)
  | inr later ↦
      let (r', e', h') = HasAuthenticity-append a rs ss (r, ground arith, h) in
      (r', ground arith, h')
]

-- A new error for the authenticity leaves its action, and it is clean unless that result is.
pub fail_first-HasAuthenticity :
    (a : ValidationAction) (e : VerifyError) (rs : List ValidationResult)
    → HasAuthenticity a rs
    → (r : ValidationResult) × (first_of_type authenticity (fail_first authenticity e rs) ≡ some r)
      × (r.action ≡ a)
      × (r.error ≡ some e)
unfolding first_of_type fail_first
fail_first-HasAuthenticity a e [] (r, f, h) = cc
fail_first-HasAuthenticity a e (x ∷ rs) (r, f, h) =
    elim (Bool-cases (type_eq x.type authenticity)) [
      | inl here ↦ (record x { error = some e }, ground arith, ground arith, refl)
      | inr later ↦
          let (r', f', h', g') = fail_first-HasAuthenticity a e rs (r, ground arith, h) in
          (r', ground arith, h', g')
    ]

pub fail_first-IsClean :
    (e : VerifyError) (rs : List ValidationResult) (r : ValidationResult)
    → first_of_type authenticity (fail_first authenticity e rs) ≡ some r
    → is_critical_failure r ≡ false
    → IsClean rs
    → IsClean (fail_first authenticity e rs)
unfolding first_of_type fail_first
fail_first-IsClean e [] r f h clean = tt
fail_first-IsClean e (x ∷ rs) r f h (p, clean) = elim (Bool-cases (type_eq x.type authenticity)) [
  | inl here ↦ rw here (ground arith, clean)
  | inr later ↦ rw later (p, fail_first-IsClean e rs r (ground arith) h clean)
]

-- What later steps do to an outcome: they change the results alone, and keep both predicates.
pub record Keeps (o o' : Outcome) : Type 0 where
  pub results : List ValidationResult
  pub same : o' ≡ with_results o results
  pub clean : IsClean o.results → IsClean results
  pub recorded :
      HasAuthenticity (o.level.enforcement authenticity) o.results
      → HasAuthenticity (o.level.enforcement authenticity) results

pub Keeps-refl : {o o' : Outcome} → o' ≡ o → Keeps o o'
Keeps-refl {o} e = record { results = o.results; same = e; clean = λ h. h; recorded = λ h. h }

pub Keeps-trans : {o o' o'' : Outcome} → Keeps o o' → Keeps o' o'' → Keeps o o''
Keeps-trans {o} {o''} k l =
    let l' = subst (λ x. Keeps x o'') k.same l in
    record {
      results = l'.results;
      same = l'.same;
      clean = λ h. l'.clean (k.clean h);
      recorded = λ h. l'.recorded (k.recorded h);
    }

pub Keeps-append :
    {o o' : Outcome} (r : ValidationResult)
    → o' ≡ append o r
    → is_critical_failure r ≡ false
    → Keeps o o'
Keeps-append {o} r e passed = record {
  results = o.results ++ r ∷ [];
  same = e;
  clean = λ h. All-append _ o.results (r ∷ []) h (passed, tt);
  recorded = λ h. HasAuthenticity-append _ o.results (r ∷ []) h;
}

pub stop_if_critical-eq-ok :
    (r : ValidationResult) (o o' : Outcome)
    → stop_if_critical r o ≡ (ok tt, o')
    → (o' ≡ o) × (is_critical_failure r ≡ false)
unfolding stop_if_critical
stop_if_critical-eq-ok r o o' h = ground arith

-- Where the workflow goes on after a failure of the authenticity, the action is not "enforce".
pub fail_authenticity-eq-ok :
    (e : VerifyError) (o o' : Outcome)
    → fail_authenticity e o ≡ (ok tt, o')
    → HasAuthenticity (o.level.enforcement authenticity) o.results
    → (o.level.enforcement authenticity ≢ enforce) × Keeps o o'
unfolding fail_authenticity
fail_authenticity-eq-ok e o o' h auth =
    let (r, found, action, failed) = fail_first-HasAuthenticity _ e o.results auth in
    let (same, passed) =
      stop_if_critical-eq-ok r (with_results o (fail_first authenticity e o.results)) o'
        (ground arith) in
    (
      ground arith,
      record {
        results = fail_first authenticity e o.results;
        same = same;
        clean = fail_first-IsClean e o.results r found passed;
        recorded = λ _. (r, found, action);
      },
    )

pub process_identities-eq-ok :
    (env : Env) (c : Collaborators) (capabilities : List Capability) (identities : List String)
    (info : SignerInfo) (o o' : Outcome)
    → process_identities env c capabilities identities info o ≡ (ok tt, o')
    → HasAuthenticity (o.level.enforcement authenticity) o.results
    → Keeps o o'
      × (has is_identity capabilities ≡ false
          → o.level.enforcement authenticity ≡ enforce
          → verify_x509_trusted_identities env.parse_dn identities info.certificate_chain ≡ none)
unfolding process_identities
process_identities-eq-ok env c capabilities identities info o o' h auth =
    elim (Bool-cases (has is_identity capabilities)) [
      | inl plugin ↦ (Keeps-refl (ground arith), λ own. cc)
      | inr own ↦
          elim (Option-cases
            (verify_x509_trusted_identities env.parse_dn identities info.certificate_chain)) [
              | inl passed ↦ (Keeps-refl (ground arith), λ _ _. passed)
              | inr (e, failed) ↦
                  let (lax, keeps) = fail_authenticity-eq-ok e o o' (ground arith) auth in
                  (keeps, λ _ strict. absurd (lax strict))
            ]
    ]
