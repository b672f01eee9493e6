-- ===== src/TrustStores/Files.antt =====
-- verifier/truststore/truststore.go: the checks of the files of a store, and what is read from them.
use mathlib.Core.Path.{subst}
use notation_go_lib.Base.{
  String, ◌≡◌, ◌⊎◌, inl, inr, refl, sym, ap, ◌∙◌, true, false, not, none, some, List, [], ◌∷◌, ◌++◌,
  ◌==◌, ◌||◌, ◌&&◌, ok, all, is_empty, All, arith, eq_iff, Bool-cases, Option-cases, ok_inj,
  >>=-eq-ok, >>=-ok,
}
use notation_go_lib.TrustStores.{
  StoredCertificate, DirEntry, StoreFs, validate_certificates, is_root_ca_certificate, load_file,
  load_files,
}

module _ (fs : StoreFs) where
  -- A certificate that a store of the type may hold: one of an authority, or one signed with its own
  -- key; in a store for timestamping authorities also a root.
  abbrev pub IsTrusted : String → StoredCertificate → Type 0
  IsTrusted store_type cert =
      ((cert.is_ca ≡ true) ⊎ (fs.check_signature cert ≡ true))
      × (store_type ≡ "tsa"
          → (fs.check_signature_from_self cert ≡ true) × (cert.raw_subject ≡ cert.raw_issuer))

  -- A regular file that holds these certificates, at least one and all of them trusted.
  abbrev pub Holds : String → String → DirEntry → List StoredCertificate → Type 0
  Holds store_type path file certs =
      (file.is_dir ≡ false)
      × (file.is_symlink ≡ false)
      × (fs.read_certificate_file path file.name ≡ some certs)
      × (is_empty certs ≡ false)
      × All (IsTrusted store_type) certs

  -- The certificates of all the files.
  abbrev pub certificates_in : String → List DirEntry → List StoredCertificate
  certificates_in path [] = []
  certificates_in path (file ∷ files) = elim (fs.read_certificate_file path file.name) [
    | none ↦ certificates_in path files
    | some certs ↦ certs ++ certificates_in path files
  ]

  Trusted-cons :
      (store_type : String) (cert : StoredCertificate) (certs : List StoredCertificate)
      → all (λ cert. cert.is_ca || fs.check_signature cert) (cert ∷ certs) ≡ true
      → ((store_type == "tsa") && not (all (is_root_ca_certificate fs) (cert ∷ certs))) ≡ false
      → IsTrusted store_type cert
        × (all (λ cert. cert.is_ca || fs.check_signature cert) certs ≡ true)
        × (((store_type == "tsa") && not (all (is_root_ca_certificate fs) certs)) ≡ false)
  Trusted-cons store_type cert certs h k = (
    (
      ground arith,
      λ tsa. (
        ground (arith, eq_iff store_type "tsa"),
        ground (arith, eq_iff store_type "tsa", eq_iff cert.raw_subject cert.raw_issuer),
      ),
    ),
    ground arith,
    ground arith,
  )

  Trusted-all :
      (store_type : String) (certs : List StoredCertificate)
      → all (λ cert. cert.is_ca || fs.check_signature cert) certs ≡ true
      → ((store_type == "tsa") && not (all (is_root_ca_certificate fs) certs)) ≡ false
      → All (IsTrusted store_type) certs
  Trusted-all store_type [] h k = tt
  Trusted-all store_type (cert ∷ certs) h k =
      let (here, h, k) = Trusted-cons store_type cert certs h k in
      (here, Trusted-all store_type certs h k)

  all-Trusted :
      (store_type : String) (certs : List StoredCertificate)
      → All (IsTrusted store_type) certs
      → (all (λ cert. cert.is_ca || fs.check_signature cert) certs ≡ true)
        × (((store_type == "tsa") && not (all (is_root_ca_certificate fs) certs)) ≡ false)
  all-Trusted store_type [] h = (refl, ground arith)
  all-Trusted store_type (cert ∷ certs) ((signed, root), h) =
      let (k, l) = all-Trusted store_type certs h in
      (
        ground arith,
        elim (Bool-cases (store_type == "tsa")) [
          | inr other ↦ ground arith
          | inl tsa ↦
              let (own, same) = root (ground (arith, eq_iff store_type "tsa")) in
              ground (arith, eq_iff cert.raw_subject cert.raw_issuer)
        ],
      )

  load_file-Holds :
      (store_type path : String) (file : DirEntry) (certs : List StoredCertificate)
      → load_file fs store_type path file ≡ ok certs
      → Holds store_type path file certs
  unfolding load_file validate_certificates
  load_file-Holds store_type path file certs h =
      elim (Bool-cases (file.is_dir || file.is_symlink)) [
        | inl other ↦ cc (rw (other, load_file) at h)
        | inr regular ↦ elim (Option-cases (fs.read_certificate_file path file.name)) [
          | inl unread ↦ cc (rw (regular, unread, load_file) at h)
          | inr (found, read) ↦ elim (Bool-cases (validate_certificates fs found)) [
            | inr bad ↦ cc (rw (regular, read, bad, load_file) at h)
            | inl valid ↦
                elim (Bool-cases
                  ((store_type == "tsa") && not (all (is_root_ca_certificate fs) found))) [
                    | inl no_root ↦ cc (rw (regular, read, valid, no_root, load_file) at h)
                    | inr roots ↦
                        let same : found ≡ certs =
                          ok_inj (rw (regular, read, valid, roots, load_file) at h) in
                        subst (Holds store_type path file) same (
                          ground arith,
                          ground arith,
                          read,
                          ground arith,
                          Trusted-all store_type found (ground arith) roots,
                        )
                  ]
          ]
        ]
      ]

  Holds-load_file :
      (store_type path : String) (file : DirEntry) (certs : List StoredCertificate)
      → Holds store_type path file certs
      → load_file fs store_type path file ≡ ok certs
  unfolding load_file validate_certificates
  Holds-load_file store_type path file certs (no_dir, no_link, read, some_there, trusted) =
      let (k, l) = all-Trusted store_type certs trusted in
      rw (no_dir, no_link, read, some_there, k, l) refl

  abbrev pub AllUsable : String → String → List DirEntry → Type 0
  AllUsable store_type path files =
      All (λ file. (found : List StoredCertificate) × Holds store_type path file found) files

  pub load_files-AllUsable :
      (store_type path : String) (files : List DirEntry) (certs : List StoredCertificate)
      → load_files fs store_type path files ≡ ok certs
      → AllUsable store_type path files × (certs ≡ certificates_in path files)
  unfolding load_files
  load_files-AllUsable store_type path [] certs h = (tt, cc)
  load_files-AllUsable store_type path (file ∷ files) certs h =
      let (found, here, h) = >>=-eq-ok (load_file fs store_type path file) _ h in
      let (rest, later, h) = >>=-eq-ok (load_files fs store_type path files) _ h in
      let holds = load_file-Holds store_type path file found here in
      let (usable, same) = load_files-AllUsable store_type path files rest later in
      (
        ((found, holds), usable),
        rw (holds.2, certificates_in) (sym (ok_inj h) ∙ ap (λ r. found ++ r) same),
      )

  pub AllUsable-load_files :
      (store_type path : String) (files : List DirEntry)
      → AllUsable store_type path files
      → load_files fs store_type path files ≡ ok (certificates_in path files)
  unfolding load_files
  AllUsable-load_files store_type path [] usable = refl
  AllUsable-load_files store_type path (file ∷ files) ((found, holds), usable) =
      >>=-ok (load_file fs store_type path file) _
        (Holds-load_file store_type path file found holds)
        (>>=-ok (load_files fs store_type path files) _
          (AllUsable-load_files store_type path files usable) (rw (holds.2, certificates_in) refl))
