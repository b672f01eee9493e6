-- ===== src/Keys/Reachable.antt =====
-- config/keys.go: sequences of operations on the signing keys, from new ones.
use notation_go_lib.Base.{
  String, ◌≡◌, Bool, not, List, [], ◌==◌, ok, arith, eq_iff, guard, >>=-eq-ok, guard-eq-ok,
}
use notation_go_lib.Pkix.{StringMap}
use notation_go_lib.Keys.{
  SigningKeys, add, add_plugin, remove, update_default, validate_keys, new_signing_keys, name_empty,
  id_missing, plugin_name_empty, plugin_not_found, pair_unloadable,
}
use notation_go_lib.Keys.Laws.{AreKeys, validate_keys_iff}
use notation_go_lib.Keys.Steps.{add_key-AreKeys, remove-AreKeys, update_default-AreKeys}

-- One call. `Remove` changes the keys even where it returns an error.
pub data Change (load : String → String → Bool) (installed : String → Bool)
    : SigningKeys → SigningKeys → Type 0 where
  adds :
      {s s' : SigningKeys} (name key_path cert_path : String) (mark : Bool)
      → add load s name key_path cert_path mark ≡ ok s'
      → Change load installed s s'
  adds_plugin :
      {s s' : SigningKeys} (name id plugin_name : String) (config : StringMap) (mark : Bool)
      → add_plugin installed s name id plugin_name config mark ≡ ok s'
      → Change load installed s s'
  removes : (s : SigningKeys) (names : List String) → Change load installed s (remove s names []).2
  updates :
      {s s' : SigningKeys} (name : String)
      → update_default s name ≡ ok s'
      → Change load installed s s'

pub data Reachable (load : String → String → Bool) (installed : String → Bool)
    : SigningKeys → Type 0 where
  new : Reachable load installed new_signing_keys
  next :
      {s s' : SigningKeys}
      → Reachable load installed s
      → Change load installed s s'
      → Reachable load installed s'

module _ (load : String → String → Bool) (installed : String → Bool) where
  add-AreKeys :
      (s s' : SigningKeys) (name key_path cert_path : String) (mark : Bool)
      → AreKeys s
      → add load s name key_path cert_path mark ≡ ok s'
      → AreKeys s'
  unfolding add
  add-AreKeys s s' name key_path cert_path mark k h =
      let (u, named, h1) = >>=-eq-ok (guard (not (name == "")) name_empty) _ h in
      let (w, loaded, h2) =
        >>=-eq-ok (guard (load cert_path key_path) (pair_unloadable name)) _ h1 in
      add_key-AreKeys s s' _ mark k
        (ground (arith, guard-eq-ok (not (name == "")) _ named, eq_iff name "")) h2

  add_plugin-AreKeys :
      (s s' : SigningKeys) (name id plugin_name : String) (config : StringMap) (mark : Bool)
      → AreKeys s
      → add_plugin installed s name id plugin_name config mark ≡ ok s'
      → AreKeys s'
  unfolding add_plugin
  add_plugin-AreKeys s s' name id plugin_name config mark k h =
      let (u, named, h1) = >>=-eq-ok (guard (not (name == "")) name_empty) _ h in
      let (w, has_id, h2) = >>=-eq-ok (guard (not (id == "")) id_missing) _ h1 in
      let (x, has_plugin, h3) =
        >>=-eq-ok (guard (not (plugin_name == "")) plugin_name_empty) _ h2 in
      let (y, there, h4) =
        >>=-eq-ok (guard (installed plugin_name) (plugin_not_found plugin_name)) _ h3 in
      add_key-AreKeys s s' _ mark k
        (ground (arith, guard-eq-ok (not (name == "")) _ named, eq_iff name "")) h4

  Change-AreKeys : {s s' : SigningKeys} → Change load installed s s' → AreKeys s → AreKeys s'
  Change-AreKeys (Change.adds name key_path cert_path mark h) k =
      add-AreKeys _ _ name key_path cert_path mark k h
  Change-AreKeys (Change.adds_plugin name id plugin_name config mark h) k =
      add_plugin-AreKeys _ _ name id plugin_name config mark k h
  Change-AreKeys (Change.removes s names) k = remove-AreKeys names [] s k
  Change-AreKeys (Change.updates name h) k = update_default-AreKeys _ _ name k h

  Reachable-AreKeys : (s : SigningKeys) → Reachable load installed s → AreKeys s
  Reachable-AreKeys _ Reachable.new = record {
    named = tt;
    distinct = tt;
    default_there = λ d e. cc;
  }
  Reachable-AreKeys _ (Reachable.next r c) = Change-AreKeys c (Reachable-AreKeys _ r)

  -- Whatever keys are added, removed and made the default, starting from new signing keys, the
  -- result passes `validateKeys`, so that it can be saved and loaded.
  pub Reachable-validate_keys :
      (s : SigningKeys) → Reachable load installed s → validate_keys s ≡ ok tt
  Reachable-validate_keys s r = (validate_keys_iff s).1 (Reachable-AreKeys s r)
