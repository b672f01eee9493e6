-- ===== src/Manager/Laws.antt =====
-- plugin/manager.go: what `Install` installs.
use notation_go_lib.Base.{String, Bool, true, ◌≡◌, ◌⊎◌, some, if◌then◌else◌, Bool}
use notation_go_lib.Manager.{Metadata, validate}
use notation_go_lib.Manager.Install.{ManagerEnv, regular, missing, Source}

module _ {Disk : Type 0} (m : ManagerEnv Disk) where
  -- The new plugin's metadata are those that the file gives when it is run, valid and with its name.
  abbrev pub IsNew : Disk → Source → Metadata → Type 0
  IsNew disk source new =
      (m.stat disk source.executable_file ≡ regular)
      × (m.run disk source.plugin_name source.executable_file ≡ some new)
      × (validate new ≡ true)
      × (new.name ≡ source.plugin_name)

  -- The copy of a source, the file or the directory, to its place on a disk.
  abbrev pub copied : Disk → String → Source → String → Bool × Disk
  copied disk path source target =
      if source.from_file
      then m.copy_file disk source.executable_file target
      else m.copy_dir disk path target

  -- What is at a path is removed from a disk, or there is nothing.
  abbrev pub IsRemoved : Disk → String → Disk → Type 0
  IsRemoved disk target after =
      ((m.stat disk target ≡ missing) × (after ≡ disk)) ⊎ (m.remove_all disk target ≡ (true, after))

  -- The plugin's directory is removed, and then the source is copied there.
  abbrev pub IsReplaced : Disk → String → Source → Disk → Type 0
  IsReplaced disk path source after =
      (target : String) × (m.plugin_dir source.plugin_name ≡ some target)
      × ((between : Disk) × IsRemoved disk target between
          × (copied between path source target ≡ (true, after)))
