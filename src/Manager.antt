-- ===== src/Manager.antt =====
-- plugin/manager.go, plugin/manager_unix.go and plugin/plugin.go: the installation of a plugin, as on
-- Unix. The disk, its operations and the run of a plugin are fields of `ManagerEnv`.
pub mod Directory
pub mod Install
pub mod Existing
pub mod Laws
use Prim.Native.Char.{Char, code}
use Prim.Native.String
use notation_go_lib.Base.{
  String, Bool, true, false, not, ◌&&◌, ◌||◌, Option, none, some, List, [], ◌∷◌, ◌++◌, ◌==◌,
  if◌then◌else◌, nat_eq, Result, ok, err, guard, ◌>>=◌, ◌>>◌, is_empty, wrap_err,
}
use notation_go_lib.Slices.{contains}

pub data ManagerError : Type 0 where
  empty_path read_failed walk_failed more_than_one no_executable : ManagerError
  invalid_name not_executable not_regular_file not_found inaccessible no_path : ManagerError
  run_failed malformed_metadata wrong_name : ManagerError
  existence_check_failed existing_metadata_failed compare_failed : ManagerError
  downgrade equal_version clean_up_failed copy_failed : ManagerError

-- `strings.CutPrefix`.
unfoldable pub cut_prefix : String → String → Option String
cut_prefix s String.[] = some s
cut_prefix String.[] (String.◌∷◌ d prefix) = none
cut_prefix (String.◌∷◌ c s) (String.◌∷◌ d prefix) =
    let rest = cut_prefix s prefix in if nat_eq (code c) (code d) then rest else none

-- `BinaryPrefix`, of the plugin framework.
abbrev pub binary_prefix : String
binary_prefix = "notation-"

-- `parsePluginName`.
unfoldable pub parse_plugin_name : String → Option String
unfolding cut_prefix
parse_plugin_name file_name = elim (cut_prefix file_name binary_prefix) [
  | none ↦ none
  | some name ↦ if name == "" then none else some name
]

-- What the walk of a directory visits, the entries of skipped directories left out: whether it is a
-- regular file, if its information can be read, and whether that file is executable, if it can be asked.
pub record Entry : Type 0 where
  pub path : String
  pub name : String
  pub regular : Option Bool
  pub executable : Option Bool

-- The variables that the walk of `parsePluginFromDir` fills.
pub record Walk : Type 0 where
  pub found : Bool
  pub executable_file : String
  pub plugin_name : String
  pub candidate_name : String
  pub valid_files : List String

abbrev pub walk_start : Walk
walk_start = record {
  found = false;
  executable_file = "";
  plugin_name = "";
  candidate_name = "";
  valid_files = [];
}

-- A regular file whose name has the format, with the plugin's name.
abbrev pub visit_named : Walk → Entry → String → Result ManagerError Walk
visit_named w e name =
    let w' = record w { candidate_name = name; valid_files = w.valid_files ++ e.path ∷ [] } in
    elim (e.executable) [
      | none ↦ err walk_failed
      | some false ↦ ok w'
      | some true ↦
          if w.found
          then err more_than_one
          else ok (record w' { found = true; executable_file = e.path; plugin_name = name })
    ]

-- The function that the walk calls.
unfoldable pub visit : Walk → Entry → Result ManagerError Walk
unfolding parse_plugin_name
visit w e = elim (e.regular) [
  | none ↦ err walk_failed
  | some false ↦ ok w
  | some true ↦ elim (parse_plugin_name e.name) [
    | none ↦ ok (record w { candidate_name = "" })
    | some name ↦ visit_named w e name
  ]
]

unfoldable pub walk_dir : Walk → List Entry → Result ManagerError Walk
unfolding visit
walk_dir w [] = ok w
walk_dir w (e ∷ entries) = do w' ← visit w e; walk_dir w' entries

-- What follows the walk: the executable file and the plugin's name.
abbrev pub choose : (String → Bool) → Walk → Result ManagerError (String × String)
choose set_executable w =
    if w.found then ok (w.executable_file, w.plugin_name) else elim (w.valid_files) [
      | [] ↦ err no_executable
      | ◌∷◌ candidate rest ↦
          if is_empty rest && set_executable candidate
          then ok (candidate, w.candidate_name)
          else err no_executable
    ]

-- `parsePluginFromDir`, at a directory.
unfoldable pub parse_plugin_from_dir :
    (String → Bool) → List Entry → Result ManagerError (String × String)
unfolding walk_dir
parse_plugin_from_dir set_executable entries = do
  w ← walk_dir walk_start entries
  choose set_executable w

-- `plugin.GetMetadataResponse`.
pub record Metadata : Type 0 where
  pub name : String
  pub description : String
  pub version : String
  pub url : String
  pub capabilities : List String
  pub supported_contract_versions : List String

-- `validate`, whether it returns no error.
unfoldable pub validate : Metadata → Bool
unfolding contains
validate m =
    not (m.name == "")
    && not (m.description == "")
    && not (m.version == "")
    && not (m.url == "")
    && not (is_empty m.capabilities)
    && not (is_empty m.supported_contract_versions)
    && contains m.supported_contract_versions "1.0"
