-- ===== src/TrustPolicy.antt =====
-- verifier/trustpolicy: verification levels, the rules that every statement obeys, and the two
-- kinds of documents.
pub mod Level
pub mod Statement
pub mod Oci
pub mod Blob
