-- ===== src/Keys.antt =====
-- config/keys.go: the signing keys of a configuration. Loading a key pair and finding a plugin are
-- given; reading and writing the file is not modelled.
pub mod Laws
pub mod Steps
pub mod Reachable
use notation_go_lib.Base.{
  ℕ, String, Bool, true, false, not, ◌&&◌, ◌||◌, Option, none, some, List, [], ◌∷◌, ◌++◌, ◌==◌,
  if◌then◌else◌, Result, ok, err, ◌>>=◌, ◌>>◌, guard,
}
use notation_go_lib.Pkix.{StringMap}
use notation_go_lib.Slices.{contains, delete, index_isser, contains_isser}

pub record X509KeyPair : Type 0 where
  pub key_path : String
  pub certificate_path : String

pub record ExternalKey : Type 0 where
  pub id : String
  pub plugin_name : String
  pub plugin_config : StringMap

-- `KeySuite`; a nil embedded pointer is `none`.
pub record KeySuite : Type 0 where
  pub name : String
  pub x509_key_pair : Option X509KeyPair
  pub external_key : Option ExternalKey

-- `SigningKeys`.
pub record SigningKeys : Type 0 where
  pub default : Option String
  pub keys : List KeySuite

pub data KeyError : Type 0 where
  name_empty id_missing plugin_name_empty default_not_set not_found : KeyError
  pair_unloadable plugin_not_found already_exists no_key : String → KeyError
  malformed_name_empty malformed_default_empty : KeyError
  malformed_repeated malformed_default_not_found : String → KeyError

-- `NewSigningKeys`.
abbrev pub new_signing_keys : SigningKeys
new_signing_keys = record { default = none; keys = [] }

-- `Is`.
abbrev pub is : KeySuite → String → Bool
is k name = k.name == name

-- `add`: the keys that are left, and the error.
unfoldable pub add_key : SigningKeys → KeySuite → Bool → Result KeyError SigningKeys
unfolding contains_isser
add_key s key mark_default = do
  guard (not (contains_isser is s.keys key.name)) (already_exists key.name)
  ok (record {
    default = if mark_default then some key.name else s.default;
    keys = s.keys ++ key ∷ [];
  })

-- `Add`; the first argument is whether `LoadX509KeyPair` has no error.
unfoldable pub add :
    (String → String → Bool)
    → SigningKeys
    → String
    → String
    → String
    → Bool
    → Result KeyError SigningKeys
unfolding add_key
add load s name key_path cert_path mark_default = do
  guard (not (name == "")) name_empty
  guard (load cert_path key_path) (pair_unloadable name)
  add_key s
      (record {
        name = name;
        x509_key_pair = some (record { key_path = key_path; certificate_path = cert_path });
        external_key = none;
      })
      mark_default

-- `AddPlugin`; the first argument is whether the plugin manager has the plugin.
unfoldable pub add_plugin :
    (String → Bool)
    → SigningKeys
    → String
    → String
    → String
    → StringMap
    → Bool
    → Result KeyError SigningKeys
unfolding add_key
add_plugin installed s key_name id plugin_name plugin_config mark_default = do
  guard (not (key_name == "")) name_empty
  guard (not (id == "")) id_missing
  guard (not (plugin_name == "")) plugin_name_empty
  guard (installed plugin_name) (plugin_not_found plugin_name)
  add_key s
      (record {
        name = key_name;
        x509_key_pair = none;
        external_key =
            some (record { id = id; plugin_name = plugin_name; plugin_config = plugin_config });
      })
      mark_default

-- `s.Keys[idx]`.
unfoldable pub key_at : List KeySuite → ℕ → Option KeySuite
key_at [] i = none
key_at (k ∷ ks) ℕ.zero = some k
key_at (k ∷ ks) (ℕ.suc i) = key_at ks i

abbrev pub found_key : Option KeySuite → Result KeyError KeySuite
found_key none = err not_found
found_key (some k) = ok k

-- `Get`.
unfoldable pub get : SigningKeys → String → Result KeyError KeySuite
unfolding index_isser key_at
get s key_name = if key_name == "" then err name_empty else elim (index_isser is s.keys key_name) [
  | none ↦ err not_found
  | some idx ↦ found_key (key_at s.keys idx)
]

-- `GetDefault`.
unfoldable pub get_default : SigningKeys → Result KeyError KeySuite
unfolding get
get_default s = elim (s.default) [ none ↦ err default_not_set | some name ↦ get s name ]

abbrev pub drop_default : Option String → String → Option String
drop_default none name = none
drop_default (some d) name = if d == name then none else some d

-- One round of `Remove`.
unfoldable pub remove_one : SigningKeys → String → Result KeyError SigningKeys
unfolding index_isser delete
remove_one s name = if name == "" then err name_empty else elim (index_isser is s.keys name) [
  | none ↦ err (no_key name)
  | some idx ↦ ok (record { default = drop_default s.default name; keys = delete s.keys idx })
]

-- `Remove`: the names that were deleted, the error if there is one, and the keys that are left.
-- What was deleted before an error stays deleted.
unfoldable pub remove :
    SigningKeys → List String → List String → List String × Option KeyError × SigningKeys
unfolding remove_one
remove s [] deleted = (deleted, none, s)
remove s (name ∷ rest) deleted = elim (remove_one s name) [
  | err e ↦ (deleted, some e, s)
  | ok s' ↦ remove s' rest (deleted ++ name ∷ [])
]

-- `UpdateDefault`.
unfoldable pub update_default : SigningKeys → String → Result KeyError SigningKeys
unfolding contains_isser
update_default s key_name = do
  guard (not (key_name == "")) name_empty
  guard (contains_isser is s.keys key_name) (no_key key_name)
  ok (record s { default = some key_name })

-- The loop of `validateKeys`, with the set of names: the names when it ends.
unfoldable pub validate_names : List KeySuite → List String → Result KeyError (List String)
unfolding contains
validate_names [] names = ok names
validate_names (key ∷ rest) names =
    if key.name == ""
    then err malformed_name_empty
    else if contains names key.name
    then err (malformed_repeated key.name)
    else validate_names rest (key.name ∷ names)

abbrev pub validate_default : Option String → List String → Result KeyError (Unit {0})
validate_default none names = ok tt
validate_default (some d) names = do
  guard (not (d == "")) malformed_default_empty
  guard (contains names d) (malformed_default_not_found d)

-- `validateKeys`.
unfoldable pub validate_keys : SigningKeys → Result KeyError (Unit {0})
unfolding validate_names
validate_keys config = do
  names ← validate_names config.keys []
  validate_default config.default names
