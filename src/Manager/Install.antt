-- ===== src/Manager/Install.antt =====
-- plugin/manager.go and plugin/plugin.go: `Install`, with what it asks of the disk and of plugins.
use Prim.Native.Nat.{Ordering, lt, eq, gt}
use notation_go_lib.Base.{
  String, Bool, true, false, not, ◌&&◌, ◌==◌, Option, none, some, List, if◌then◌else◌, Result, ok,
  err, guard, ◌>>=◌, ◌>>◌,
}
use notation_go_lib.Semver.{compare_plugin_version}
use notation_go_lib.Manager.{
  ManagerError, Entry, Metadata, parse_plugin_name, parse_plugin_from_dir, validate, empty_path,
  read_failed, invalid_name, not_executable, not_regular_file, not_found, inaccessible, no_path,
  run_failed, malformed_metadata, wrong_name, existence_check_failed, existing_metadata_failed,
  compare_failed, downgrade, equal_version, clean_up_failed, copy_failed,
}

-- What `os.Stat` says of a path.
pub data FileStat : Type 0 where
  missing stat_failed regular directory irregular : FileStat

-- The results of `os.RemoveAll` and of copying come with the disk that they leave.
pub record ManagerEnv (Disk : Type 0) : Type 0 where
  pub stat : Disk → String → FileStat
  -- What the walk of a directory visits.
  pub entries : Disk → String → List Entry
  pub set_executable : Disk → String → Bool
  -- `isExecutableFile`.
  pub is_executable_file : Disk → String → Option Bool
  -- `filepath.Base`.
  pub base : String → String
  -- `run` for a plugin's name and path, with the request for its metadata.
  pub run : Disk → String → String → Option Metadata
  -- `SysPath` of the directory of a plugin, and of the executable file in it.
  pub plugin_dir : String → Option String
  pub plugin_file : String → Option String
  pub compare : String → String → Ordering
  pub remove_all : Disk → String → Bool × Disk
  pub copy_file : Disk → String → String → Bool × Disk
  pub copy_dir : Disk → String → String → Bool × Disk

-- `CLIInstallOptions`.
pub record CliInstallOptions : Type 0 where
  pub plugin_path : String
  pub overwrite : Bool

-- The executable file of the new plugin, its name, and whether the source is that file.
pub record Source : Type 0 where
  pub executable_file : String
  pub plugin_name : String
  pub from_file : Bool

-- `errors.Is(err, os.ErrNotExist)`.
unfoldable pub is_not_exist : ManagerError → Bool
is_not_exist not_found = true
is_not_exist _ = false

module _ {Disk : Type 0} (m : ManagerEnv Disk) where
  -- The branch for a source that is no directory.
  abbrev pub source_file : Disk → String → Result ManagerError Source
  source_file disk path = elim (parse_plugin_name (m.base path)) [
    | none ↦ err invalid_name
    | some name ↦ elim (m.is_executable_file disk path) [
      | none ↦ err read_failed
      | some false ↦ err not_executable
      | some true ↦ ok (record { executable_file = path; plugin_name = name; from_file = true })
    ]
  ]

  -- The first part of `Install`: `parsePluginFromDir`, and where it says that the path is no
  -- directory, the file itself.
  abbrev pub find_source : Disk → String → Result ManagerError Source
  find_source disk path = elim (m.stat disk path) [
    | missing ↦ err read_failed
    | stat_failed ↦ err read_failed
    | directory ↦ do
      file ← parse_plugin_from_dir (m.set_executable disk) (m.entries disk path)
      ok (record { executable_file = file.0; plugin_name = file.1; from_file = false })
    | regular ↦ source_file disk path
    | irregular ↦ source_file disk path
  ]

  -- `NewCLIPlugin`, for the path that it is given.
  abbrev pub new_cli_plugin : Disk → String → Result ManagerError String
  new_cli_plugin disk path = elim (m.stat disk path) [
    | missing ↦ err not_found
    | stat_failed ↦ err inaccessible
    | regular ↦ ok path
    | directory ↦ err not_regular_file
    | irregular ↦ err not_regular_file
  ]

  -- `GetMetadata` of a plugin with this name and path.
  unfoldable pub get_metadata : Disk → String → String → Result ManagerError Metadata
  get_metadata disk name path = elim (m.run disk name path) [
    | none ↦ err run_failed
    | some metadata ↦
        if not (validate metadata)
        then err malformed_metadata
        else if metadata.name == name
        then ok metadata
        else err wrong_name
  ]

  -- `Get`: the path of the plugin.
  abbrev pub get : Disk → String → Result ManagerError String
  get disk name = elim (m.plugin_file name) [
    | none ↦ err no_path
    | some path ↦ new_cli_plugin disk path
  ]

  -- The version check.
  abbrev pub check_version : Metadata → Metadata → Result ManagerError (Unit {0})
  check_version new existing =
      elim (compare_plugin_version m.compare new.version existing.version) [
        | err e ↦ err compare_failed
        | ok order ↦ elim order [ lt ↦ err downgrade | eq ↦ err equal_version | gt ↦ ok tt ]
      ]

  -- The branch for a plugin that exists, at this path: its metadata, if they can be read.
  abbrev pub check_plugin :
      Disk → Bool → String → Metadata → String → Result ManagerError (Option Metadata)
  check_plugin disk overwrite name new path = elim (get_metadata disk name path) [
    | err e ↦ if overwrite then ok none else err existing_metadata_failed
    | ok existing ↦
        if overwrite then ok (some existing) else do check_version new existing; ok (some existing)
  ]

  -- The check of the existing plugin.
  unfoldable pub check_existing :
      Disk → Bool → String → Metadata → Result ManagerError (Option Metadata)
  unfolding get_metadata is_not_exist
  check_existing disk overwrite name new = elim (get disk name) [
    | ok path ↦ check_plugin disk overwrite name new path
    | err e ↦ if not (is_not_exist e) && not overwrite then err existence_check_failed else ok none
  ]

  -- What `Install` does before it changes the installed plugins: the source, the metadata of the existing plugin
  -- and those of the new one.
  unfoldable pub prepare :
      Disk → CliInstallOptions → Result ManagerError (Source × Option Metadata × Metadata)
  unfolding check_existing
  prepare disk options = do
    guard (not (options.plugin_path == "")) empty_path
    source ← find_source disk options.plugin_path
    path ← new_cli_plugin disk source.executable_file
    new ← get_metadata disk source.plugin_name path
    existing ← check_existing disk options.overwrite source.plugin_name new
    ok (source, existing, new)

  -- `Uninstall`.
  unfoldable pub uninstall : Disk → String → Result ManagerError (Unit {0}) × Disk
  uninstall disk name = elim (m.plugin_dir name) [
    | none ↦ (err no_path, disk)
    | some path ↦ elim (m.stat disk path) [
      | missing ↦ (err not_found, disk)
      | stat_failed ↦ (err inaccessible, disk)
      | _ ↦ let (done, after) = m.remove_all disk path in (guard done clean_up_failed, after)
    ]
  ]

  -- The core process of `Install`.
  abbrev pub copy_plugin : Disk → String → Source → Result ManagerError (Unit {0}) × Disk
  copy_plugin disk path source = elim (m.plugin_dir source.plugin_name) [
    | none ↦ (err no_path, disk)
    | some target ↦
        let (done, after) =
          if source.from_file
          then m.copy_file disk source.executable_file target
          else m.copy_dir disk path target in
        (guard done copy_failed, after)
  ]

  -- The second part of `Install`, which changes the disk.
  unfoldable pub replace : Disk → String → Source → Result ManagerError (Unit {0}) × Disk
  unfolding uninstall is_not_exist
  replace disk path source =
      let (cleaned, after) = uninstall disk source.plugin_name in
      elim cleaned [
        | ok done ↦ copy_plugin after path source
        | err e ↦
            if not (is_not_exist e)
            then (err clean_up_failed, after)
            else copy_plugin after path source
      ]

  -- `Install`: the metadata of the existing plugin and of the new one, and the disk that is left.
  unfoldable pub install :
      Disk → CliInstallOptions → Result ManagerError (Option Metadata × Metadata) × Disk
  unfolding prepare replace
  install disk options = elim (prepare disk options) [
    | err e ↦ (err e, disk)
    | ok (source, existing, new) ↦
        let (copied, after) = replace disk options.plugin_path source in
        (copied >> ok (existing, new), after)
  ]
