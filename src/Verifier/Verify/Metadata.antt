-- ===== src/Verifier/Verify/Metadata.antt =====
-- verifier/verifier.go: `verifyUserMetadata`, and the last checks of `Verify` and `VerifyBlob`.
use notation_go_lib.Base.{
  ◌≡◌, ◌↔◌, inl, inr, refl, Bool, true, none, some, [], ◌∷◌, All, arith, eq_iff, Option-cases,
}
use notation_go_lib.Pkix.{StringMap}
use notation_go_lib.Verifier.Types.{VerifyError}
use notation_go_lib.Verifier.Checks.{find, verify_user_metadata}
use notation_go_lib.Verifier.Verify.{final_error}

-- Every required entry is an annotation, with the value required.
abbrev pub HasMetadata : StringMap → StringMap → Type 0
HasMetadata annotations wanted = All (λ entry. find annotations entry.0 ≡ some entry.1) wanted

-- The metadata pass exactly when every required entry is an annotation of the artifact with the
-- same value.
pub verify_user_metadata_iff :
    (annotations wanted : StringMap)
    → (verify_user_metadata annotations wanted ≡ none) ↔ HasMetadata annotations wanted
unfolding verify_user_metadata
verify_user_metadata_iff annotations [] = ((λ h. tt), (λ h. refl))
verify_user_metadata_iff annotations ((k, v) ∷ rest) = elim (Option-cases (find annotations k)) [
  | inl missing ↦ ground (arith, verify_user_metadata_iff annotations rest)
  | inr (got, there) ↦ ground (arith, verify_user_metadata_iff annotations rest, eq_iff got v)
]

-- There is no last error exactly when the target matches and the metadata pass.
pub final_error_iff :
    (matched : Bool) (mismatch : VerifyError) (annotations wanted : StringMap)
    → (final_error matched mismatch annotations wanted ≡ none)
      ↔ ((matched ≡ true) × HasMetadata annotations wanted)
final_error_iff matched mismatch annotations [] = ground arith
final_error_iff matched mismatch annotations (w ∷ rest) =
    ground (arith, verify_user_metadata_iff annotations (w ∷ rest))
