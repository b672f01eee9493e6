-- ===== src/Verifier/Revocation.antt =====
-- verifier/verifier.go: `revocationFinalResult` and `verifyRevocation`. What is only logged is left
-- out.
pub mod Laws
use notation_go_lib.Base.{
  ℕ, suc, ◌+◌, String, Bool, true, false, Option, none, some, List, [], ◌∷◌, if◌then◌else◌, nat_eq,
  length,
}
use mathlib.Core.List.{reverse}
use notation_go_lib.TrustPolicy.Level.{VerificationLevel, revocation}
use notation_go_lib.Verifier.Types.{
  Certificate, SigningScheme, x509, signing_authority, other_scheme, SignerInfo, RevocationStatus,
  unknown, good, non_revokable, revoked, Env, Collaborators, VerifyError, no_revocation_validator,
  revocation_unchecked, panicked, certificate_revoked, certificate_status_unknown, ValidationResult,
}

-- The variables of the loop of `revocationFinalResult`.
pub record Tally : Type 0 where
  pub final_result : RevocationStatus
  pub num_ok_results : ℕ
  pub problematic_subject : String
  pub revoked_found : Bool
  pub revoked_subject : String

abbrev pub start : Tally
start = record {
  final_result = unknown;
  num_ok_results = 0;
  problematic_subject = "";
  revoked_found = false;
  revoked_subject = "";
}

-- One round, for a certificate's status and subject.
tally_one : RevocationStatus → String → Tally → Tally
tally_one good subject t = record t { num_ok_results = suc t.num_ok_results }
tally_one non_revokable subject t = record t { num_ok_results = suc t.num_ok_results }
tally_one revoked subject t = record t {
  final_result = revoked;
  problematic_subject = subject;
  revoked_found = true;
  revoked_subject = subject;
}
tally_one unknown subject t = record t { final_result = unknown; problematic_subject = subject }

-- The loop, from the last certificate of the chain to the first: the list is in chain order.
tally : List (RevocationStatus × String) → Tally
unfolding tally_one
tally [] = start
tally ((status, subject) ∷ rest) = tally_one status subject (tally rest)

-- What follows the loop.
conclude : ℕ → Tally → RevocationStatus × String
conclude n t =
    let subject = if t.revoked_found then t.revoked_subject else t.problematic_subject in
    let final = if t.revoked_found then revoked else t.final_result in
    (if nat_eq t.num_ok_results n then good else final, subject)

-- `certResults[i]` with `certChain[i]`; `none` where the chain is shorter, which panics.
pub pair_up : List RevocationStatus → List Certificate → Option (List (RevocationStatus × String))
pair_up [] certs = some []
pair_up (status ∷ rest) [] = none
pair_up (status ∷ rest) (cert ∷ certs) = elim (pair_up rest certs) [
  | none ↦ none
  | some pairs ↦ some ((status, cert.subject) ∷ pairs)
]

-- `revocationFinalResult`, on the paired lists.
unfoldable pub revocation_final_result :
    List (RevocationStatus × String) → RevocationStatus × String
unfolding tally conclude
revocation_final_result pairs = conclude (length pairs) (tally pairs)

-- The switch on the final result: the error that it stands for.
abbrev pub status_error : RevocationStatus × String → Option VerifyError
status_error (good, subject) = none
status_error (revoked, subject) = some (certificate_revoked subject)
status_error (unknown, subject) = some (certificate_status_unknown subject)
status_error (non_revokable, subject) = some (certificate_status_unknown subject)

-- The results of a validator, turned into an error.
unfoldable pub revocation_error :
    Option (List RevocationStatus) → List Certificate → Option VerifyError
unfolding pair_up revocation_final_result
revocation_error none certs = some revocation_unchecked
revocation_error (some statuses) certs = elim (pair_up statuses certs) [
  | none ↦ some panicked
  | some pairs ↦ status_error (revocation_final_result pairs)
]

module _ (env : Env) (c : Collaborators) where
  -- The time that is handed to the validator: the zero time under notary.x509.
  abbrev time_to_check : SignerInfo → SigningScheme → ℕ
  time_to_check info signing_authority = env.authentic_signing_time info
  time_to_check info _ = 0

  -- The error of `verifyRevocation`.
  check_revocation : SignerInfo → Option VerifyError
  unfolding revocation_error
  check_revocation info = elim (c.code_signing_validator) [
    | some validate ↦
        revocation_error (validate info.certificate_chain (time_to_check info info.scheme))
          info.certificate_chain
    | none ↦ elim (c.revocation_client) [
      | some validate ↦
          revocation_error (validate info.certificate_chain (time_to_check info info.scheme))
            info.certificate_chain
      | none ↦ some no_revocation_validator
    ]
  ]

  -- `verifyRevocation`.
  unfoldable pub verify_revocation : VerificationLevel → SignerInfo → ValidationResult
  unfolding check_revocation
  verify_revocation level info = record {
    type = revocation;
    action = level.enforcement revocation;
    error = check_revocation info;
  }
