-- ===== src/TrustStores/Laws.antt =====
-- verifier/truststore/truststore.go: `GetCertificates` as a whole.
use mathlib.Core.Path.{subst}
use notation_go_lib.Base.{
  String, ◌≡◌, ◌↔◌, refl, sym, ap, ◌∙◌, true, false, not, Option, none, some, List, ok, guard,
  is_empty, arith, ok_inj, >>=-eq-ok, guard-eq-ok, >>=-ok, guard-ok,
}
use notation_go_lib.FileName.{is_valid_file_name}
use notation_go_lib.TrustStores.{
  StoredCertificate, DirEntry, StoreFs, StoreError, PathState, directory, missing, inaccessible,
  other_file, is_valid_store_type, load_files, check_path, or_failed, get_certificates,
}
use notation_go_lib.TrustStores.Files.{
  AllUsable, certificates_in, load_files-AllUsable, AllUsable-load_files,
}

module _ (fs : StoreFs) where
  -- A store that can be read, and the certificates in it.
  pub record IsStore (store_type named_store : String) (certs : List StoredCertificate)
      : Type 0 where
    pub path : String
    pub files : List DirEntry
    pub valid_type : is_valid_store_type store_type ≡ true
    pub valid_name : is_valid_file_name named_store ≡ true
    pub at_path : fs.sys_path store_type named_store ≡ some path
    pub is_directory : fs.lstat path ≡ directory
    pub lists : fs.read_dir path ≡ some files
    pub usable : AllUsable fs store_type path files
    pub all_of_them : certs ≡ certificates_in fs path files
    pub nonempty : is_empty certs ≡ false

  or_failed-ok :
      {A : Type 0} (e : StoreError) (o : Option A) (a : A) → or_failed fs e o ≡ ok a → o ≡ some a
  or_failed-ok e none a h = cc
  or_failed-ok e (some b) a h = cc

  check_path-ok :
      (path : String) (u : Unit {0}) → check_path fs path ≡ ok u → fs.lstat path ≡ directory
  check_path-ok path u = go (fs.lstat path) refl
    where
      go :
          (s : PathState)
          → fs.lstat path ≡ s
          → check_path fs path ≡ ok u
          → fs.lstat path ≡ directory
      go directory is h = is
      go missing is h = cc (rw (is, check_path) at h)
      go inaccessible is h = cc (rw (is, check_path) at h)
      go other_file is h = cc (rw (is, check_path) at h)

  get_certificates-IsStore :
      (store_type named_store : String) (certs : List StoredCertificate)
      → get_certificates fs store_type named_store ≡ ok certs
      → IsStore store_type named_store certs
  unfolding get_certificates
  get_certificates-IsStore store_type named_store certs h =
      let (_, valid_type, h) =
        >>=-eq-ok (guard (is_valid_store_type store_type) StoreError.unsupported_type) _ h in
      let (_, valid_name, h) =
        >>=-eq-ok (guard (is_valid_file_name named_store) StoreError.invalid_name) _ h in
      let (path, at_path, h) =
        >>=-eq-ok (or_failed fs StoreError.no_path (fs.sys_path store_type named_store)) _ h in
      let (_, checked, h) = >>=-eq-ok (check_path fs path) _ h in
      let (files, lists, h) =
        >>=-eq-ok (or_failed fs StoreError.access_failed (fs.read_dir path)) _ h in
      let (found, loaded, h) = >>=-eq-ok (load_files fs store_type path files) _ h in
      let (_, nonempty, h) =
        >>=-eq-ok (guard (not (is_empty found)) StoreError.no_certificates) _ h in
      let (usable, all_of_them) = load_files-AllUsable fs store_type path files found loaded in
      subst (IsStore store_type named_store) (ok_inj h) (record {
        path = path;
        files = files;
        valid_type = guard-eq-ok _ _ valid_type;
        valid_name = guard-eq-ok _ _ valid_name;
        at_path = or_failed-ok _ _ path at_path;
        is_directory = check_path-ok path _ checked;
        lists = or_failed-ok _ _ files lists;
        usable = usable;
        all_of_them = all_of_them;
        nonempty = ground (arith, guard-eq-ok _ _ nonempty);
      })

  IsStore-get_certificates :
      (store_type named_store : String) (certs : List StoredCertificate)
      → IsStore store_type named_store certs
      → get_certificates fs store_type named_store ≡ ok certs
  unfolding get_certificates
  IsStore-get_certificates store_type named_store certs s =
      >>=-ok (guard (is_valid_store_type store_type) StoreError.unsupported_type) _
        (guard-ok _ _ s.valid_type)
        (>>=-ok (guard (is_valid_file_name named_store) StoreError.invalid_name) _
          (guard-ok _ _ s.valid_name)
          (>>=-ok (or_failed fs StoreError.no_path (fs.sys_path store_type named_store)) _
            (rw s.at_path refl)
            (>>=-ok (check_path fs s.path) _ (rw (s.is_directory, check_path) refl) (
              >>=-ok (or_failed fs StoreError.access_failed (fs.read_dir s.path)) _
                (rw s.lists refl)
                (>>=-ok (load_files fs store_type s.path s.files) _
                  (AllUsable-load_files fs store_type s.path s.files s.usable
                    ∙ ap ok (sym s.all_of_them))
                  (>>=-ok (guard (not (is_empty certs)) StoreError.no_certificates) _
                    (guard-ok _ _ (ap not s.nonempty)) refl))))))

  -- The trust store returns certificates exactly when its type is supported, its name is a valid file
  -- name and its path is a directory and no symbolic link, in which every entry is a regular file with at
  -- least one certificate; when each certificate is of an authority or signed with its own key, and in
  -- a store for timestamping also a root; and when there is one at all. It returns those of all files.
  pub get_certificates_iff :
      (store_type named_store : String) (certs : List StoredCertificate)
      → (get_certificates fs store_type named_store ≡ ok certs)
        ↔ IsStore store_type named_store certs
  get_certificates_iff store_type named_store certs = (
    get_certificates-IsStore store_type named_store certs,
    IsStore-get_certificates store_type named_store certs,
  )
