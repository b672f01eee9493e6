-- ===== src/Algorithm/Laws.antt =====
-- plugin/proto/algorithm.go: encoding beside decoding, and the hash of a key specification.
use notation_go_lib.Base.{ℕ, ◌≡◌, ◌↔◌, some, is_some, arith}
use notation_go_lib.Algorithm.{
  es256, es384, es512, ps256, ps384, ps512, other_algorithm, ecdsa_sha256, ecdsa_sha384,
  ecdsa_sha512, rsassa_pss_sha256, rsassa_pss_sha384, rsassa_pss_sha512, other_name, KeyType, rsa,
  ec, other_type, KeySpec, KeySpecName, rsa2048, rsa3072, rsa4096, ec256, ec384, ec521,
  other_key_spec, AlgorithmName, Algorithm, encode_key_spec, decode_key_spec,
  hash_algorithm_from_key_spec, encode_signing_algorithm, decode_signing_algorithm,
}

decode-encode :
    (type : KeyType) (size : ℕ) (name : KeySpecName)
    → encode_key_spec (record { type = type; size = size }) ≡ some name
    → decode_key_spec name ≡ some (record { type = type; size = size })
unfolding encode_key_spec decode_key_spec
decode-encode rsa size name h = ground arith
decode-encode ec size name h = ground arith
decode-encode (other_type n) size name h = cc

encode-decode :
    (k : KeySpec) (name : KeySpecName)
    → decode_key_spec name ≡ some k
    → encode_key_spec k ≡ some name
unfolding encode_key_spec decode_key_spec
encode-decode k rsa2048 h = ground arith
encode-decode k rsa3072 h = ground arith
encode-decode k rsa4096 h = ground arith
encode-decode k ec256 h = ground arith
encode-decode k ec384 h = ground arith
encode-decode k ec521 h = ground arith
encode-decode k (other_key_spec s) h = cc

-- A key specification is encoded to a name exactly when the name is decoded to it; and it has a hash
-- algorithm exactly when it has a name.
pub key_spec_round_trip :
    (k : KeySpec) (name : KeySpecName)
    → ((encode_key_spec k ≡ some name) ↔ (decode_key_spec name ≡ some k))
      × (is_some (hash_algorithm_from_key_spec k) ≡ is_some (encode_key_spec k))
unfolding encode_key_spec hash_algorithm_from_key_spec
key_spec_round_trip k name =
    ((decode-encode k.type k.size name, encode-decode k name), ground arith)

decode-encode_signing :
    (a : Algorithm) (name : AlgorithmName)
    → encode_signing_algorithm a ≡ some name
    → decode_signing_algorithm name ≡ some a
unfolding encode_signing_algorithm decode_signing_algorithm
decode-encode_signing es256 name h = ground arith
decode-encode_signing es384 name h = ground arith
decode-encode_signing es512 name h = ground arith
decode-encode_signing ps256 name h = ground arith
decode-encode_signing ps384 name h = ground arith
decode-encode_signing ps512 name h = ground arith
decode-encode_signing (other_algorithm n) name h = cc

encode-decode_signing :
    (a : Algorithm) (name : AlgorithmName)
    → decode_signing_algorithm name ≡ some a
    → encode_signing_algorithm a ≡ some name
unfolding encode_signing_algorithm decode_signing_algorithm
encode-decode_signing a ecdsa_sha256 h = ground arith
encode-decode_signing a ecdsa_sha384 h = ground arith
encode-decode_signing a ecdsa_sha512 h = ground arith
encode-decode_signing a rsassa_pss_sha256 h = ground arith
encode-decode_signing a rsassa_pss_sha384 h = ground arith
encode-decode_signing a rsassa_pss_sha512 h = ground arith
encode-decode_signing a (other_name s) h = cc

-- A signing algorithm is encoded to a name exactly when the name is decoded to it.
signing_algorithm_round_trip :
    (a : Algorithm) (name : AlgorithmName)
    → (encode_signing_algorithm a ≡ some name) ↔ (decode_signing_algorithm name ≡ some a)
signing_algorithm_round_trip a name = (decode-encode_signing a name, encode-decode_signing a name)
