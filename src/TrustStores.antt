-- ===== src/TrustStores.antt =====
-- verifier/truststore/truststore.go: the trust store on disk. The file system, the reading of a
-- certificate file and the checks of signatures are fields of `StoreFs`.
pub mod Files
pub mod Laws
use notation_go_lib.Base.{
  String, Bool, true, false, not, Option, none, some, List, [], ◌∷◌, ◌++◌, ◌==◌, if◌then◌else◌,
  ◌&&◌, ◌||◌, Result, ok, err, guard, ◌>>=◌, ◌>>◌, all, is_empty,
}
use notation_go_lib.Slices.{contains}
use notation_go_lib.FileName.{is_valid_file_name}

-- What the checks read of an `x509.Certificate`.
pub record StoredCertificate : Type 0 where
  pub raw : String
  pub is_ca : Bool
  pub raw_subject : String
  pub raw_issuer : String

-- An entry of a directory.
pub record DirEntry : Type 0 where
  pub name : String
  pub is_dir : Bool
  pub is_symlink : Bool

-- What `os.Lstat` says of a path.
pub data PathState : Type 0 where
  missing inaccessible directory other_file : PathState

pub record StoreFs : Type 0 where
  -- `SysPath` on `X509TrustStoreDir`, of a type and a name.
  pub sys_path : String → String → Option String
  pub lstat : String → PathState
  pub read_dir : String → Option (List DirEntry)
  -- `ReadCertificateFile`, of the directory's path and the file's name.
  pub read_certificate_file : String → String → Option (List StoredCertificate)
  -- `cert.CheckSignature` on the certificate's own signature, and `cert.CheckSignatureFrom(cert)`.
  pub check_signature : StoredCertificate → Bool
  pub check_signature_from_self : StoredCertificate → Bool

-- `TrustStoreError`, then `CertificateError` with the file's name.
pub data StoreError : Type 0 where
  unsupported_type invalid_name no_path does_not_exist access_failed : StoreError
  not_regular_directory no_certificates : StoreError
  not_regular_file read_failed invalid_certificate not_root : String → StoreError

-- `Types`.
abbrev pub types : List String
types = "ca" ∷ "signingAuthority" ∷ "tsa" ∷ []

-- `isValidStoreType`.
abbrev pub is_valid_store_type : String → Bool
is_valid_store_type store_type = contains types store_type

module _ (fs : StoreFs) where
  -- `ValidateCertificates`, whether it returns no error.
  unfoldable pub validate_certificates : List StoredCertificate → Bool
  validate_certificates certs =
      not (is_empty certs) && all (λ cert. cert.is_ca || fs.check_signature cert) certs

  -- `isRootCACertificate`, whether it returns no error.
  abbrev pub is_root_ca_certificate : StoredCertificate → Bool
  is_root_ca_certificate cert =
      fs.check_signature_from_self cert && (cert.raw_subject == cert.raw_issuer)

  -- The checks of one entry, in the loop of `GetCertificates`.
  unfoldable pub load_file : String → String → DirEntry → Result StoreError (List StoredCertificate)
  unfolding validate_certificates
  load_file store_type path file =
      if file.is_dir || file.is_symlink
      then err (not_regular_file file.name)
      else elim (fs.read_certificate_file path file.name) [
        | none ↦ err (read_failed file.name)
        | some certs ↦
            if not (validate_certificates certs)
            then err (invalid_certificate file.name)
            else if (store_type == "tsa") && not (all is_root_ca_certificate certs)
            then err (not_root file.name)
            else ok certs
      ]

  -- The loop of `GetCertificates`.
  unfoldable pub load_files :
      String → String → List DirEntry → Result StoreError (List StoredCertificate)
  unfolding load_file
  load_files store_type path [] = ok []
  load_files store_type path (file ∷ files) = do
    certs ← load_file store_type path file
    certificates ← load_files store_type path files
    ok (certs ++ certificates)

  -- The tests of the path in `GetCertificates`.
  abbrev pub check_path : String → Result StoreError (Unit {0})
  check_path path = elim (fs.lstat path) [
    | missing ↦ err does_not_exist
    | inaccessible ↦ err access_failed
    | directory ↦ ok tt
    | other_file ↦ err not_regular_directory
  ]

  abbrev pub or_failed : {A : Type 0} → StoreError → Option A → Result StoreError A
  or_failed e none = err e
  or_failed e (some a) = ok a

  -- `GetCertificates`.
  unfoldable pub get_certificates : String → String → Result StoreError (List StoredCertificate)
  unfolding contains is_valid_file_name load_files
  get_certificates store_type named_store = do
    guard (is_valid_store_type store_type) unsupported_type
    guard (is_valid_file_name named_store) invalid_name
    path ← or_failed no_path (fs.sys_path store_type named_store)
    check_path path
    files ← or_failed access_failed (fs.read_dir path)
    certificates ← load_files store_type path files
    guard (not (is_empty certificates)) no_certificates
    ok certificates
