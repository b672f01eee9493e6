-- ===== src/Manager/Existing.antt =====
-- plugin/manager.go and plugin/plugin.go: what `Install` returns for the existing plugin.
use mathlib.Core.Path.{subst}
use Prim.Native.Nat.{lt, eq, gt}
use notation_go_lib.Base.{
  String, Bool, true, false, ◌==◌, ◌≡◌, ◌⊎◌, inl, inr, refl, ap, sym, ◌∙◌, Option, none, some, ok,
  err, >>=-eq-ok, Bool, ok_inj, Bool-cases, Result-cases, Option-cases, eq_iff, arith,
}
use notation_go_lib.Semver.{compare_plugin_version}
use notation_go_lib.Manager.{ManagerError, Metadata, validate, not_found}
use notation_go_lib.Manager.Install.{
  ManagerEnv, FileStat, regular, missing, stat_failed, directory, irregular, is_not_exist,
  new_cli_plugin, get_metadata, get, check_version, check_plugin, check_existing,
}

pub is_not_exist-not_found : (e : ManagerError) → is_not_exist e ≡ true → e ≡ not_found
unfolding is_not_exist
is_not_exist-not_found not_found h = refl
is_not_exist-not_found _ h = cc

module _ {Disk : Type 0} (m : ManagerEnv Disk) where
  pub get_metadata-valid :
      (disk : Disk) (name path : String) (metadata : Metadata)
      → get_metadata m disk name path ≡ ok metadata
      → (m.run disk name path ≡ some metadata) × (validate metadata ≡ true) × (metadata.name ≡ name)
  unfolding get_metadata
  get_metadata-valid disk name path metadata h = elim (Option-cases (m.run disk name path)) [
    | inl failed ↦ cc (rw (failed, get_metadata) at h)
    | inr (found, ran) ↦ elim (Bool-cases (validate found)) [
      | inr bad ↦ cc (rw (ran, bad, get_metadata) at h)
      | inl valid ↦ elim (Bool-cases (found.name == name)) [
        | inr other ↦ cc (rw (ran, valid, other, get_metadata) at h)
        | inl same ↦
            let is : found ≡ metadata = ok_inj (rw (ran, valid, same, get_metadata) at h) in
            subst
              (λ (x : Metadata).
                (m.run disk name path ≡ some x) × (validate x ≡ true) × (x.name ≡ name))
              is (ran, valid, ground (arith, eq_iff found.name name))
      ]
    ]
  ]

  check_version-gt :
      (new existing : Metadata) {u : Unit {0}}
      → check_version m new existing ≡ ok u
      → compare_plugin_version m.compare new.version existing.version ≡ ok gt
  check_version-gt new existing h =
      elim (Result-cases (compare_plugin_version m.compare new.version existing.version)) [
        | inl (e, failed) ↦ cc (rw (failed, check_version) at h)
        | inr (lt, order) ↦ cc (rw (order, check_version) at h)
        | inr (eq, order) ↦ cc (rw (order, check_version) at h)
        | inr (gt, order) ↦ order
      ]

  -- The plugin of the name that is installed, and the metadata that it gives when it is run.
  abbrev pub IsInstalled : Disk → String → Metadata → Type 0
  IsInstalled disk name old =
      (path : String) × (m.plugin_file name ≡ some path)
      × (m.stat disk path ≡ regular)
      × (m.run disk name path ≡ some old)
      × (validate old ≡ true)
      × (old.name ≡ name)

  pub new_cli_plugin-regular :
      (disk : Disk) (path path' : String)
      → new_cli_plugin m disk path ≡ ok path'
      → (path ≡ path') × (m.stat disk path ≡ regular)
  new_cli_plugin-regular disk path path' h = go (m.stat disk path) refl
    where
      go : (s : FileStat) → m.stat disk path ≡ s → (path ≡ path') × (m.stat disk path ≡ regular)
      go regular is = (ok_inj (rw (is, new_cli_plugin) at h), is)
      go missing is = cc (rw (is, new_cli_plugin) at h)
      go stat_failed is = cc (rw (is, new_cli_plugin) at h)
      go directory is = cc (rw (is, new_cli_plugin) at h)
      go irregular is = cc (rw (is, new_cli_plugin) at h)

  get-metadata-IsInstalled :
      (disk : Disk) (name path : String) (old : Metadata)
      → get m disk name ≡ ok path
      → get_metadata m disk name path ≡ ok old
      → IsInstalled disk name old
  get-metadata-IsInstalled disk name path old found read =
      elim (Option-cases (m.plugin_file name)) [
        | inl nowhere ↦ cc (rw (nowhere, get) at found)
        | inr (file, placed) ↦
            let (same, is) = new_cli_plugin-regular disk file path (rw (placed, get) at found) in
            let (ran, valid, named) = get_metadata-valid disk name path old read in
            (
              file,
              placed,
              is,
              subst (λ p. m.run disk name p ≡ some old) (sym same) ran,
              valid,
              named,
            )
      ]

  -- What is returned for the existing plugin is nothing, or the metadata of the installed one; and
  -- where overwriting was not asked for, there is no plugin of the name, or it is returned and its
  -- version is lower than the new one's.
  abbrev pub IsExisting : Disk → Bool → String → Metadata → Option Metadata → Type 0
  IsExisting disk overwrite name new existing =
      ((existing ≡ none) × ((get m disk name ≡ err not_found) ⊎ (overwrite ≡ true)))
      ⊎ ((old : Metadata) × (existing ≡ some old)
          × IsInstalled disk name old
          × (overwrite ≡ false → compare_plugin_version m.compare new.version old.version ≡ ok gt))

  check_plugin-IsExisting :
      (disk : Disk) (overwrite : Bool) (name : String) (new : Metadata) (path : String)
      (existing : Option Metadata)
      → get m disk name ≡ ok path
      → check_plugin m disk overwrite name new path ≡ ok existing
      → IsExisting disk overwrite name new existing
  check_plugin-IsExisting disk true name new path existing found h =
      elim (Result-cases (get_metadata m disk name path)) [
        | inl (e, failed) ↦ inl (sym (ok_inj (rw (failed, check_plugin) at h)), inr refl)
        | inr (old, read) ↦ inr (
          old,
          sym (ok_inj (rw (read, check_plugin) at h)),
          get-metadata-IsInstalled disk name path old found read,
          λ kept. cc,
        )
      ]
  check_plugin-IsExisting disk false name new path existing found h =
      elim (Result-cases (get_metadata m disk name path)) [
        | inl (e, failed) ↦ cc (rw (failed, check_plugin) at h)
        | inr (old, read) ↦
            let (u, checked, same) =
              >>=-eq-ok (check_version m new old) (λ done. ok (some old))
                (rw (read, check_plugin) at h) in
            inr (
              old,
              sym (ok_inj same),
              get-metadata-IsInstalled disk name path old found read,
              λ kept. check_version-gt new old checked,
            )
      ]

  pub check_existing-IsExisting :
      (disk : Disk) (overwrite : Bool) (name : String) (new : Metadata) (existing : Option Metadata)
      → check_existing m disk overwrite name new ≡ ok existing
      → IsExisting disk overwrite name new existing
  unfolding check_existing
  check_existing-IsExisting disk overwrite name new existing h =
      elim (Result-cases (get m disk name)) [
        | inr (path, found) ↦
            check_plugin-IsExisting disk overwrite name new path existing found
              (rw (found, check_existing) at h)
        | inl (e, failed) ↦ elim (Bool-cases (is_not_exist e)) [
          | inl absent ↦ inl (
            sym (ok_inj (rw (failed, absent, check_existing) at h)),
            inl (failed ∙ ap err (is_not_exist-not_found e absent)),
          )
          | inr present ↦ elim (Bool-cases overwrite) [
            | inr kept ↦ cc (rw (failed, present, kept, check_existing) at h)
            | inl anyway ↦
                inl (sym (ok_inj (rw (failed, present, anyway, check_existing) at h)), inr anyway)
          ]
        ]
      ]
