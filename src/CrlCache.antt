-- ===== src/CrlCache.antt =====
-- verifier/crl/crl.go: the cache of revocation lists in files. The disk, JSON, the parser of revocation
-- lists and the hash in a file's name are fields of `CacheEnv`; the root directory is fixed.
pub mod Laws
use notation_go_lib.Base.{
  ℕ, String, Bool, not, Option, none, some, if◌then◌else◌, nat_eq, ltb, Result, ok, err, guard,
  ◌>>=◌, ◌>>◌,
}

-- `x509.RevocationList`: its bytes, and its time of the next update, 0 for Go's zero time.
pub record Crl : Type 0 where
  pub raw : String
  pub next_update : ℕ

-- `corecrl.Bundle`; a list may be nil.
pub record Bundle : Type 0 where
  pub base_crl : Option Crl
  pub delta_crl : Option Crl

-- `fileCacheContent`.
pub record FileCacheContent : Type 0 where
  pub base_crl : String
  pub delta_crl : Option String

pub data CacheError : Type 0 where
  cache_miss read_failed decode_failed base_malformed delta_malformed no_next_update : CacheError
  nil_bundle nil_base_crl encode_failed write_failed : CacheError

-- What `os.ReadFile` returns.
pub data ReadFile : Type 0 where
  contents : String → ReadFile
  not_exist unreadable : ReadFile

pub record CacheEnv (Disk : Type 0) : Type 0 where
  pub read_file : Disk → String → ReadFile
  -- `file.WriteFile`, which replaces the file as a whole.
  pub write_file : Disk → String → String → Option Disk
  pub marshal : FileCacheContent → Option String
  pub unmarshal : String → Option FileCacheContent
  pub parse_revocation_list : String → Option Crl
  -- `fileName`: the SHA-256 of the URL in hexadecimal digits.
  pub file_name : String → String
  -- `time.Now` at the two checks.
  pub now_at_base : ℕ
  pub now_at_delta : ℕ

-- `checkExpiry`.
abbrev pub check_expiry : ℕ → ℕ → Result CacheError (Unit {0})
check_expiry now next_update =
    if nat_eq next_update 0
    then err no_next_update
    else if ltb next_update now
    then err cache_miss
    else ok tt

abbrev pub or_error : {A : Type 0} → CacheError → Option A → Result CacheError A
or_error e none = err e
or_error e (some a) = ok a

-- What is done where a delta is there.
abbrev pub if_present :
    {A B : Type 0} → (A → Result CacheError B) → Option A → Result CacheError (Option B)
if_present act none = ok none
if_present act (some a) = do b ← act a; ok (some b)

module _ {Disk : Type 0} (e : CacheEnv Disk) where
  abbrev pub read_content : ReadFile → Result CacheError String
  read_content (contents text) = ok text
  read_content not_exist = err cache_miss
  read_content unreadable = err read_failed

  -- `Get`.
  unfoldable pub get : Disk → String → Result CacheError Bundle
  get disk url = do
    text ← read_content (e.read_file disk (e.file_name url))
    content ← or_error decode_failed (e.unmarshal text)
    base ← or_error base_malformed (e.parse_revocation_list content.base_crl)
    delta ←
        if_present (λ raw. or_error delta_malformed (e.parse_revocation_list raw)) content.delta_crl
    check_expiry e.now_at_base base.next_update
    checked ← if_present (λ (crl : Crl). check_expiry e.now_at_delta crl.next_update) delta
    ok (record { base_crl = some base; delta_crl = delta })

  -- The content that `Set` saves.
  abbrev pub content_of : Crl → Option Crl → FileCacheContent
  content_of base none = record { base_crl = base.raw; delta_crl = none }
  content_of base (some delta) = record { base_crl = base.raw; delta_crl = some delta.raw }

  -- `Set`: the disk that it leaves; an error leaves the disk that was given.
  unfoldable pub set : Disk → String → Option Bundle → Result CacheError Disk
  set disk url bundle = do
    bundle ← or_error nil_bundle bundle
    base ← or_error nil_base_crl bundle.base_crl
    text ← or_error encode_failed (e.marshal (content_of base bundle.delta_crl))
    or_error write_failed (e.write_file disk (e.file_name url) text)
