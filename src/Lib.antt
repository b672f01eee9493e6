-- ===== src/Lib.antt =====
-- A model of notation-go, the library that signs artifacts and verifies their signatures under a
-- trust policy, and theorems on it. Paths are from the repository's root.
--
-- The parts, from the bottom up:
--   Base: shared names, Boolean tests, lists, results of functions that may fail.
--   Text, Regex: the string functions and regular expressions that the code uses. A pattern is run by
--     derivatives, which takes one step for each character.
--   Slices (internal/slices/slices.go), FileName (internal/file/file.go), Semver
--     (internal/semver/semver.go), Pkix (internal/pkix/pkix.go).
--   TrustPolicy (verifier/trustpolicy): Level is the levels and `GetVerificationLevel`, Statement
--     `validatePolicyCore`, Oci and Blob the two kinds of documents with `Validate` and the choice of
--     the statement that applies.
--   Verifier (verifier/verifier.go, verifier/helpers.go): Types is the data and the record `Env` of
--     library calls; Attributes, Stores, Identity, Revocation, Timestamp, Checks and Plugins are the
--     single checks; Process is `processSignature`; New is `NewVerifierWithOptions`; Verify is
--     `Verify`, `VerifyBlob` and `SkipVerify`.
--   Registry (registry/repository.go): listing and fetching the signatures of an artifact; Push is
--     `PushSignature`.
--   Signatures (notation.go): `Verify`, which asks a registry for signatures and a verifier about each.
--     `VerifierOps` and `Repository` are its interfaces; Composed fills them with the models above.
--   Signing and Blobs (notation.go): `Sign`, `SignBlob` and `VerifyBlob`.
--   Keys (config/keys.go): the signing keys of a configuration.
--   TrustStores (verifier/truststore/truststore.go): the certificates of a trust store on disk.
--   CrlCache (verifier/crl/crl.go): the cache of revocation lists in files.
--   Algorithm (plugin/proto/algorithm.go): key specifications and algorithms in the plugin protocol.
--   Manager (plugin/manager.go, plugin/manager_unix.go, plugin/plugin.go): the choice of the file in a
--     plugin's directory, and in Install the installation of a plugin.
--   Limited (internal/io/limitedwriter.go): a writer with a limit, used for a plugin's output.
--   Tests: concrete data, and an example for each result below that has conditions or binders.
--
-- State and errors. The state of `processSignature` is the outcome that it fills: an action takes an
-- outcome and returns a result with the new outcome, so that what was written before an error stays.
-- The callback of `Verify` in notation.go is a function on the record `State` of the variables that it
-- captures. An operation on signing keys returns the new keys. A Go error is a constructor of a data
-- type, its text left out; a run-time panic is the error `panicked`. A nil pointer is `none`. A Go map
-- is the list of its entries in the order of one iteration, newest first where the code adds to it.
--
-- Loops are structural recursion, so they end and no fuel is needed. Numbers are natural numbers; a Go
-- `int` that may be negative is `ℤ` of Signatures. Times are nanoseconds since Go's zero time.
--
-- Not modelled: cryptography, parsing of envelopes, names, references and JSON, timestamp tokens, the
-- clock and the network, which are parameters; reading and writing of files; logging. The list
-- of plugins and their execution, signer, dir and log have no model yet.
--
-- Aliasing: the results in the list of an outcome are pointers in the code, and a failed identity is
-- written into the first result of the authenticity. `Sign` shares the annotations of the resolved
-- descriptor with the copy that it signs, which `after_adding` of Signing writes out.
pub mod Base
pub mod FileName
pub mod Pkix
pub mod Regex
pub mod Text
pub mod Semver
pub mod Slices
pub mod TrustPolicy
pub mod Verifier
pub mod Registry
pub mod Signatures
pub mod Signing
pub mod Blobs
pub mod Keys
pub mod Algorithm
pub mod Limited
pub mod Manager
pub mod CrlCache
pub mod TrustStores
pub mod Tests
