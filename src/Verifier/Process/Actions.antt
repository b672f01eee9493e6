-- ===== src/Verifier/Process/Actions.antt =====
-- verifier/verifier.go: the actions of `processSignature` where they go on.
use notation_go_lib.Base.{
  String, ◌≡◌, ◌≢◌, ◌⊎◌, inl, inr, refl, true, false, none, some, List, [], ◌∷◌, ◌++◌, Result, ok,
  err, arith, Bool-cases,
}
use notation_go_lib.TrustPolicy.Level.{skip, revocation, action_eq}
use notation_go_lib.Verifier.Types.{
  Env, Collaborators, SignerInfo, EnvelopeContent, Outcome, ValidationResult, VerifyError,
  Capability,
}
use notation_go_lib.Verifier.Checks.{is_critical_failure, verify_integrity, verify_expiry}
use notation_go_lib.Verifier.Plugins.{is_revocation, has}
use notation_go_lib.Verifier.Revocation.{verify_revocation}
use notation_go_lib.Verifier.Timestamp.{verify_authentic_timestamp}
use notation_go_lib.Verifier.Process.{
  M, continue, ◌>>=◌, ◌>>◌, raise_panic, record_result, process_integrity, process_authenticity,
  authenticity_result, process_expiry, process_timestamp, process_revocation,
}

-- An action that goes on after a bind did so in both of its parts.
pub bind-eq-ok :
    {A B : Type 0} (m : M A) (f : A → M B) (o : Outcome) {b : B} {o'' : Outcome}
    → (m >>= f) o ≡ (ok b, o'')
    → (a : A) × (o' : Outcome) × (m o ≡ (ok a, o')) × (f a o' ≡ (ok b, o''))
unfolding ◌>>=◌
bind-eq-ok {A} {B} m f o {b} {o''} h = go (m o) refl h
  where
    go :
        (r : Result VerifyError A × Outcome)
        → m o ≡ r
        → continue r.0 f r.1 ≡ (ok b, o'')
        → (a : A) × (o' : Outcome) × (m o ≡ (ok a, o')) × (f a o' ≡ (ok b, o''))
    go (ok a, o') e k = (a, o', e, k)
    go (err x, o') e k = cc

abbrev pub append : Outcome → ValidationResult → Outcome
append o r = record o { results = o.results ++ r ∷ [] }

pub record_result-eq-ok :
    (r : ValidationResult) (o o' : Outcome)
    → record_result r o ≡ (ok tt, o')
    → (o' ≡ append o r) × (is_critical_failure r ≡ false)
unfolding record_result
record_result-eq-ok r o o' h = ground arith

-- The outcome with other results.
abbrev pub with_results : Outcome → List ValidationResult → Outcome
with_results o rs = record o { results = rs }

pub process_integrity-eq-ok :
    (env : Env) (blob media_type : String) (o o' : Outcome) (content : EnvelopeContent)
    → process_integrity env blob media_type o ≡ (ok content, o')
    → ((verify_integrity env blob media_type o.level).0 ≡ some content)
      × ((verify_integrity env blob media_type o.level).1.error ≡ none)
      × (o' ≡ record o {
        envelope_content = some content;
        results = o.results ++ (verify_integrity env blob media_type o.level).1 ∷ [];
      })
unfolding process_integrity
process_integrity-eq-ok env blob media_type o o' content h = ground arith

module _ (env : Env) (c : Collaborators) where
  pub process_authenticity-eq-ok :
      (stores : List String) (info : SignerInfo) (o o' : Outcome)
      → process_authenticity env c stores info o ≡ (ok tt, o')
      → (o' ≡ append o (authenticity_result env c stores info o.level))
        × (is_critical_failure (authenticity_result env c stores info o.level) ≡ false)
  unfolding process_authenticity
  process_authenticity-eq-ok stores info o o' h = record_result-eq-ok _ o o' h

  pub process_expiry-eq-ok :
      (info : SignerInfo) (o o' : Outcome)
      → process_expiry env c info o ≡ (ok tt, o')
      → (o' ≡ append o (verify_expiry env o.level info))
        × (is_critical_failure (verify_expiry env o.level info) ≡ false)
  unfolding process_expiry
  process_expiry-eq-ok info o o' h = record_result-eq-ok _ o o' h

  record_unless_panic :
      (r : ValidationResult) (o o' : Outcome)
      → (raise_panic r.error >> record_result r) o ≡ (ok tt, o')
      → (o' ≡ append o r) × (is_critical_failure r ≡ false)
  unfolding ◌>>=◌
  record_unless_panic r o o' h = record_result-eq-ok r o o' (ground arith)

  pub process_timestamp-eq-ok :
      (stores : List String) (option : String) (info : SignerInfo) (o o' : Outcome)
      → process_timestamp env c stores option info o ≡ (ok tt, o')
      → (o' ≡ append o (verify_authentic_timestamp env c stores option o.level info))
        × (is_critical_failure (verify_authentic_timestamp env c stores option o.level info)
            ≡ false)
  unfolding process_timestamp
  process_timestamp-eq-ok stores option info o o' h = record_unless_panic _ o o' h

  -- Revocation is left out, or it was recorded.
  pub process_revocation-eq-ok :
      (capabilities : List Capability) (info : SignerInfo) (o o' : Outcome)
      → process_revocation env c capabilities info o ≡ (ok tt, o')
      → (((o.level.enforcement revocation ≡ skip) ⊎ (has is_revocation capabilities ≡ true))
          × (o' ≡ o))
        ⊎ ((o.level.enforcement revocation ≢ skip)
            × (has is_revocation capabilities ≡ false)
            × (o' ≡ append o (verify_revocation env c o.level info))
            × (is_critical_failure (verify_revocation env c o.level info) ≡ false))
  unfolding process_revocation
  process_revocation-eq-ok capabilities info o o' h =
      elim (Bool-cases (action_eq (o.level.enforcement revocation) skip)) [
        | inl skips ↦ inl (inl (ground arith), ground arith)
        | inr keeps ↦ elim (Bool-cases (has is_revocation capabilities)) [
          | inl plugin ↦ inl (inr plugin, ground arith)
          | inr own ↦
              let (same, passed) =
                record_unless_panic (verify_revocation env c o.level info) o o' (ground arith) in
              inr (ground arith, own, same, passed)
        ]
      ]
