-- ===== src/Tests/Stored.antt =====
-- Examples for the theorems on the trust store on disk and on the cache of revocation lists.
use notation_go_lib.Base.{
  String, ◌≡◌, ◌≢◌, ◌≤◌, ◌<◌, refl, true, false, Option, none, some, List, [], ◌∷◌, ok, err, ◌==◌,
  if◌then◌else◌, arith, eq_iff, some_inj, Bool-cases, inl, inr,
}
use mathlib.Core.Path.{subst}
use notation_go_lib.TrustStores.{
  StoredCertificate, StoreFs, get_certificates, directory, not_regular_file,
}
use notation_go_lib.TrustStores.Laws.{IsStore, get_certificates_iff}
use notation_go_lib.CrlCache.{
  Crl, Bundle, FileCacheContent, CacheEnv, ReadFile, contents, not_exist, get, set,
}
use notation_go_lib.CrlCache.Laws.{CacheLaws, DeltaInTime, get-set, get_sound}

abbrev authority : StoredCertificate
authority = record { raw = "root"; is_ca = true; raw_subject = "CN=root"; raw_issuer = "CN=root" }

-- A store of one file, which holds one certificate.
abbrev store_fs : StoreFs
store_fs = record {
  sys_path = λ type name. some "/store";
  lstat = λ path. directory;
  read_dir = λ path. some (record { name = "root.crt"; is_dir = false; is_symlink = false } ∷ []);
  read_certificate_file = λ path name. if name == "root.crt" then some (authority ∷ []) else none;
  check_signature = λ cert. true;
  check_signature_from_self = λ cert. true;
}

-- The same store with a symbolic link in place of the file.
abbrev linked_fs : StoreFs
linked_fs = record store_fs {
  read_dir = λ path. some (record { name = "root.crt"; is_dir = false; is_symlink = true } ∷ []);
}

linked_fs-refused : get_certificates linked_fs "tsa" "acme" ≡ err (not_regular_file "root.crt")
unfolding get_certificates
linked_fs-refused = refl

get_certificates_iff_example : IsStore store_fs "tsa" "acme" (authority ∷ [])
unfolding get_certificates
get_certificates_iff_example = (get_certificates_iff store_fs "tsa" "acme" (authority ∷ [])).0 refl

-- A disk is the list of its files, newest first.
abbrev Files : Type 0
Files = List (String × String)

read_from : Files → String → ReadFile
read_from [] name = not_exist
read_from ((n, text) ∷ files) name =
    let rest = read_from files name in if n == name then contents text else rest

abbrev base_list : Crl
base_list = record { raw = "base"; next_update = 9 }

-- The text of a content is the bytes of its base; a content with a delta is refused.
abbrev encode : FileCacheContent → Option String
encode content = elim (content.delta_crl) [ none ↦ some content.base_crl | some delta ↦ none ]

abbrev cache_env : CacheEnv Files
unfolding read_from
cache_env = record {
  read_file = read_from;
  write_file = λ files name text. some ((name, text) ∷ files);
  marshal = encode;
  unmarshal = λ text. some (record { base_crl = text; delta_crl = none });
  parse_revocation_list = λ raw. if raw == "base" then some base_list else none;
  file_name = λ url. url;
  now_at_base = 5;
  now_at_delta = 5;
}

encode-decoded :
    (base text : String) (delta : Option String)
    → encode (record { base_crl = base; delta_crl = delta }) ≡ some text
    → ◌≡◌ {A = Option FileCacheContent}
        (some (record { base_crl = text; delta_crl = none }))
        (some (record { base_crl = base; delta_crl = delta }))
encode-decoded base text none h = cc
encode-decoded base text (some delta) h = cc

read_here :
    (files : Files) (name text : String) → read_from ((name, text) ∷ files) name ≡ contents text
unfolding read_from
read_here files name text = ground (arith, eq_iff name name)

read_there :
    (files : Files) (name other text : String)
    → other ≢ name
    → read_from ((name, text) ∷ files) other ≡ read_from files other
unfolding read_from
read_there files name other text apart = elim (Bool-cases (name == other)) [
  | inl same ↦ absurd (apart (ground (arith, eq_iff name other)))
  | inr different ↦ rw (different, read_from) refl
]

cache_laws : CacheLaws cache_env
unfolding read_from
cache_laws = record {
  read_written = λ files after name text h.
      subst (λ x. read_from x name ≡ contents text) (some_inj h) (read_here files name text);
  read_other = λ files after name other text h apart.
      subst (λ x. read_from x other ≡ read_from files other) (some_inj h)
        (read_there files name other text apart);
  decoded = λ content text _ h. encode-decoded content.base_crl text content.delta_crl h;
}

abbrev stored : Bundle
stored = record { base_crl = some base_list; delta_crl = none }

get-set_example :
    (get cache_env (("u", "base") ∷ []) "u" ≡ ok stored)
    × (◌≢◌ {A = String} "v" "u" → get cache_env (("u", "base") ∷ []) "v" ≡ get cache_env [] "v")
unfolding set cache_env
get-set_example =
    get-set cache_env [] (("u", "base") ∷ []) "u" "v" base_list none cache_laws
      (refl, (λ h. absurd (ground (arith, eq_iff "base" ""))), omega arith, omega arith) refl

get_sound_example :
    (base : Crl) × (stored.base_crl ≡ some base)
    × (0 < base.next_update)
    × (5 ≤ base.next_update)
    × DeltaInTime cache_env none
unfolding get read_from
get_sound_example = get_sound cache_env (("u", "base") ∷ []) "u" stored refl
