-- ===== src/Signatures.antt =====
-- notation.go: `Verify`, which goes through the signatures of an artifact in a repository. The
-- verifier is the interface `VerifierOps`, and `ParseReference` of the ORAS library a parameter.
pub mod Loop
pub mod Pages
pub mod Success
pub mod Sound
pub mod Composed
use notation_go_lib.Base.{
  ℕ, zero, suc, ◌+◌, String, Bool, true, false, not, ◌&&◌, Option, none, some, List, [], ◌∷◌, ◌++◌,
  ◌==◌, if◌then◌else◌, leb, nat_eq, Result, ok, err,
}
use notation_go_lib.Pkix.{StringMap}
use notation_go_lib.TrustPolicy.Level.{VerificationLevel}
use notation_go_lib.Verifier.Types.{Descriptor, Outcome, VerifyError}
use notation_go_lib.Verifier.Process.{fresh}
use notation_go_lib.Verifier.Verify.{VerifyOptions, Verdict, SkipAnswer, says_skip, says_verify}
use notation_go_lib.Registry.{RegistryError, Listing, Repository}

-- The values of Go's `int`.
pub data ℤ : Type 0 where
  pos : ℕ → ℤ
  negsuc : ℕ → ℤ

-- `Verifier`, with `verifySkipper` where the verifier implements it.
pub record VerifierOps : Type 0 where
  pub verify : Descriptor → String → VerifyOptions → Verdict
  pub skip_verify : Option (VerifyOptions → Result VerifyError SkipAnswer)

-- `VerifyOptions` of notation.go.
pub record NotationOptions : Type 0 where
  pub artifact_reference : String
  pub plugin_config : StringMap
  pub max_signature_attempts : ℤ
  pub user_metadata : StringMap

-- A parsed reference: its tag or digest, and whether `ValidateReferenceAsDigest` has no error.
pub record Reference : Type 0 where
  pub reference : String
  pub is_digest : Bool

pub data NotationError : Type 0 where
  verifier_nil repo_nil attempts_not_positive : NotationError
  skip_failed verifier_failed : VerifyError → NotationError
  reference_unparsed reference_missing resolve_failed : NotationError
  digest_mismatch : String → String → NotationError
  retrieval_failed : String → RegistryError → NotationError
  limit_exceeded : ℕ → NotationError
  listing_failed : RegistryError → NotationError
  no_signature : NotationError
  all_failed : List (String × Option VerifyError) → NotationError

-- The error of the callback: `errDoneVerification`, or another one.
pub data Stop : Type 0 where
  done : Stop
  stopped : NotationError → Stop

-- The variables that the callback captures; a nil outcome is `none`. A failure is the digest of a
-- signature with its outcome's error.
pub record State : Type 0 where
  pub succeeded : Bool
  pub outcomes : List (Option Outcome)
  pub failures : List (String × Option VerifyError)
  pub processed : ℕ

abbrev pub start : State
start = record { succeeded = false; outcomes = []; failures = []; processed = 0 }

-- What `Verify` returns.
abbrev pub Report : Type 0
Report = Descriptor × List (Option Outcome) × Option NotationError

abbrev pub empty_descriptor : Descriptor
empty_descriptor = record { media_type = ""; digest = ""; size = 0; annotations = [] }

abbrev pub failed : NotationError → Report
failed e = (empty_descriptor, [], some e)

abbrev pub verifier_options : NotationOptions → String → VerifyOptions
verifier_options opts media_type = record {
  artifact_reference = opts.artifact_reference;
  signature_media_type = media_type;
  plugin_config = opts.plugin_config;
  user_metadata = opts.user_metadata;
}

abbrev pub count : State → State
count s = record s { processed = suc s.processed }

abbrev pub fail_one : State → Descriptor → Outcome → State
fail_one s manifest o = record s { failures = s.failures ++ (manifest.digest, o.error) ∷ [] }

abbrev pub succeed : State → Option Outcome → State
succeed s o = record s { succeeded = true; outcomes = o ∷ [] }

module _ (ops : VerifierOps) (repo : Repository) (opts : NotationOptions) (max : ℕ)
    (artifact : Descriptor) where
  -- The end of a page, after the loop or its `break`.
  abbrev end_page : State → Option Stop × State
  end_page s = (if leb max s.processed then some (stopped (limit_exceeded max)) else none, s)

  -- The callback, on a page of signature manifests. `continue` is what the next round does.
  unfoldable pub process_page : List Descriptor → State → Option Stop × State
  process_page [] s = end_page s
  process_page (manifest ∷ rest) s = elim (leb max s.processed) [
    | true ↦ end_page s
    | false ↦ elim (repo.fetch_signature_blob manifest) [
      | err e ↦ (some (stopped (retrieval_failed manifest.digest e)), count s)
      | ok fetched ↦
          let (o, e) =
            ops.verify artifact fetched.0 (verifier_options opts (fetched.1).media_type) in
          elim e [
            | none ↦ (some done, succeed (count s) o)
            | some failure ↦ elim o [
              | none ↦ (some (stopped (verifier_failed failure)), count s)
              | some outcome ↦ process_page rest (fail_one (count s) manifest outcome)
            ]
          ]
    ]
  ]

  abbrev pub after_pages : Option RegistryError → Option Stop
  after_pages none = none
  after_pages (some e) = some (stopped (listing_failed e))

  -- The callback, run over the pages of a listing until it returns an error.
  unfoldable pub process_pages :
      List (List Descriptor) → Option RegistryError → State → Option Stop × State
  process_pages [] trailing s = (after_pages trailing, s)
  process_pages (page ∷ pages) trailing s =
      let (stop, s') = process_page page s in
      elim stop [ none ↦ process_pages pages trailing s' | some e ↦ (some e, s') ]

  abbrev pub without_stop : State → Report
  without_stop s = elim (nat_eq s.processed 0) [
    | true ↦ failed no_signature
    | false ↦ elim (s.succeeded) [
      | false ↦ (empty_descriptor, s.outcomes, some (all_failed s.failures))
      | true ↦ (artifact, s.outcomes, none)
    ]
  ]

  -- What `Verify` makes of the result of `ListSignatures`.
  abbrev pub conclude : Option Stop × State → Report
  conclude (some (stopped (limit_exceeded n)), s) =
      (empty_descriptor, s.outcomes, some (limit_exceeded n))
  conclude (some (stopped e), s) = failed e
  conclude (some done, s) = without_stop s
  conclude (none, s) = without_stop s

  unfoldable pub verify_signatures : Report
  verify_signatures =
      let listing = repo.list_signatures artifact in
      conclude (process_pages listing.0 listing.1 start)

module _ (parse_reference : String → Option Reference) where
  -- The artifact that the reference stands for.
  unfoldable pub resolve_artifact : Repository → String → Result NotationError Descriptor
  resolve_artifact repo artifact_reference = elim (parse_reference artifact_reference) [
    | none ↦ err reference_unparsed
    | some ref ↦
        if ref.reference == "" then err reference_missing else elim (repo.resolve ref.reference) [
          | none ↦ err resolve_failed
          | some artifact ↦
              if ref.is_digest && not (ref.reference == artifact.digest)
              then err (digest_mismatch ref.reference artifact.digest)
              else ok artifact
        ]
  ]

  unfoldable pub verify_unskipped : VerifierOps → Repository → NotationOptions → ℕ → Report
  verify_unskipped ops repo opts max = elim (resolve_artifact repo opts.artifact_reference) [
    | err e ↦ failed e
    | ok artifact ↦ verify_signatures ops repo opts max artifact
  ]

  unfoldable pub verify_up_to : VerifierOps → Repository → NotationOptions → ℕ → Report
  verify_up_to ops repo opts max = elim (ops.skip_verify) [
    | none ↦ verify_unskipped ops repo opts max
    | some skip_verify ↦ elim (skip_verify (verifier_options opts "")) [
      | err e ↦ failed (skip_failed e)
      | ok answer ↦ elim answer [
        | says_skip level ↦ (empty_descriptor, some (fresh "" level) ∷ [], none)
        | says_verify level ↦ verify_unskipped ops repo opts max
      ]
    ]
  ]

  -- `Verify`; a nil verifier or repository is `none`.
  unfoldable pub verify_artifact : Option VerifierOps → Option Repository → NotationOptions → Report
  verify_artifact none repo opts = failed verifier_nil
  verify_artifact (some ops) none opts = failed repo_nil
  verify_artifact (some ops) (some repo) opts = elim (opts.max_signature_attempts) [
    | pos zero ↦ failed attempts_not_positive
    | negsuc n ↦ failed attempts_not_positive
    | pos (suc n) ↦ verify_up_to ops repo opts (suc n)
  ]
