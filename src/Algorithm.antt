-- ===== src/Algorithm.antt =====
-- plugin/proto/algorithm.go: key specifications and signing algorithms, and their names in the plugin
-- protocol. A name is one of the framework's constants, or another text.
pub mod Laws
use notation_go_lib.Base.{ℕ, String, Bool, Option, none, some, nat_eq, if◌then◌else◌}

-- `signature.KeyType`.
pub data KeyType : Type 0 where
  rsa ec : KeyType
  other_type : ℕ → KeyType

-- `signature.KeySpec`.
pub record KeySpec : Type 0 where
  pub type : KeyType
  pub size : ℕ

-- `plugin.KeySpec`.
pub data KeySpecName : Type 0 where
  rsa2048 rsa3072 rsa4096 ec256 ec384 ec521 : KeySpecName
  other_key_spec : String → KeySpecName

-- `plugin.HashAlgorithm`.
pub data HashName : Type 0 where
  sha256 sha384 sha512 : HashName

-- `signature.Algorithm`.
pub data Algorithm : Type 0 where
  es256 es384 es512 ps256 ps384 ps512 : Algorithm
  other_algorithm : ℕ → Algorithm

-- `plugin.SignatureAlgorithm`.
pub data AlgorithmName : Type 0 where
  ecdsa_sha256 ecdsa_sha384 ecdsa_sha512 : AlgorithmName
  rsassa_pss_sha256 rsassa_pss_sha384 rsassa_pss_sha512 : AlgorithmName
  other_name : String → AlgorithmName

-- `switch k.Size` with three cases.
abbrev pub by_size : {A : Type 0} → ℕ → ℕ → ℕ → ℕ → A → A → A → Option A
by_size size first second third a b c =
    if nat_eq size first
    then some a
    else if nat_eq size second
    then some b
    else if nat_eq size third
    then some c
    else none

-- `EncodeKeySpec`; `none` is an error.
unfoldable pub encode_key_spec : KeySpec → Option KeySpecName
encode_key_spec k = elim (k.type) [
  | ec ↦ by_size k.size 256 384 521 ec256 ec384 ec521
  | rsa ↦ by_size k.size 2048 3072 4096 rsa2048 rsa3072 rsa4096
  | other_type n ↦ none
]

-- `DecodeKeySpec`.
unfoldable pub decode_key_spec : KeySpecName → Option KeySpec
decode_key_spec rsa2048 = some (record { type = rsa; size = 2048 })
decode_key_spec rsa3072 = some (record { type = rsa; size = 3072 })
decode_key_spec rsa4096 = some (record { type = rsa; size = 4096 })
decode_key_spec ec256 = some (record { type = ec; size = 256 })
decode_key_spec ec384 = some (record { type = ec; size = 384 })
decode_key_spec ec521 = some (record { type = ec; size = 521 })
decode_key_spec (other_key_spec s) = none

-- `HashAlgorithmFromKeySpec`.
unfoldable pub hash_algorithm_from_key_spec : KeySpec → Option HashName
hash_algorithm_from_key_spec k = elim (k.type) [
  | ec ↦ by_size k.size 256 384 521 sha256 sha384 sha512
  | rsa ↦ by_size k.size 2048 3072 4096 sha256 sha384 sha512
  | other_type n ↦ none
]

-- `EncodeSigningAlgorithm`.
unfoldable pub encode_signing_algorithm : Algorithm → Option AlgorithmName
encode_signing_algorithm es256 = some ecdsa_sha256
encode_signing_algorithm es384 = some ecdsa_sha384
encode_signing_algorithm es512 = some ecdsa_sha512
encode_signing_algorithm ps256 = some rsassa_pss_sha256
encode_signing_algorithm ps384 = some rsassa_pss_sha384
encode_signing_algorithm ps512 = some rsassa_pss_sha512
encode_signing_algorithm (other_algorithm n) = none

-- `DecodeSigningAlgorithm`.
unfoldable pub decode_signing_algorithm : AlgorithmName → Option Algorithm
decode_signing_algorithm ecdsa_sha256 = some es256
decode_signing_algorithm ecdsa_sha384 = some es384
decode_signing_algorithm ecdsa_sha512 = some es512
decode_signing_algorithm rsassa_pss_sha256 = some ps256
decode_signing_algorithm rsassa_pss_sha384 = some ps384
decode_signing_algorithm rsassa_pss_sha512 = some ps512
decode_signing_algorithm (other_name s) = none
