-- ===== src/Verifier.antt =====
-- verifier: the verification workflow of a signature envelope.
pub mod Types
pub mod Attributes
pub mod Stores
pub mod Identity
pub mod Revocation
pub mod Timestamp
pub mod Checks
pub mod Plugins
pub mod Process
pub mod New
pub mod Verify
