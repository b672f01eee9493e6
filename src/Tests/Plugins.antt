-- ===== src/Tests/Plugins.antt =====
-- Examples for the theorems on the limited writer and on the installation of plugins.
use notation_go_lib.Base.{
  ℕ, String, true, false, ◌+◌, ◌≡◌, ◌==◌, refl, none, some, List, [], ◌∷◌, length, arith, ok,
  if◌then◌else◌,
}
use Prim.Native.Nat.{gt}
use notation_go_lib.Manager.{Entry, Metadata, parse_plugin_name, parse_plugin_from_dir}
use notation_go_lib.Manager.Directory.{parse_plugin_from_dir-loses_name}
use notation_go_lib.Manager.Install.{ManagerEnv, CliInstallOptions, regular}
use notation_go_lib.Limited.{Writer, limit_writer, write_all}
use notation_go_lib.Limited.Laws.{TakesNoMore, write_all-limit}

-- A writer that counts the bytes it takes, and takes all that it is given.
abbrev counter : Writer ℕ
counter count p = ((length p, none), count + length p)

counter-TakesNoMore : TakesNoMore counter
counter-TakesNoMore w p = omega arith

abbrev two_writes : List (List ℕ)
two_writes = (1 ∷ 2 ∷ []) ∷ (3 ∷ 4 ∷ []) ∷ []

-- The second write is cut off after one byte.
two_writes-cut : (write_all counter (limit_writer 0 3) two_writes).0 ≡ 3
unfolding write_all
two_writes-cut = refl

write_all-limit_example :
    (write_all counter (limit_writer 0 3) two_writes).0
      + (write_all counter (limit_writer 0 3) two_writes).1.remaining
    ≡ 3
write_all-limit_example = write_all-limit counter (limit_writer 0 3) two_writes counter-TakesNoMore

abbrev candidate : Entry
candidate = record {
  path = "/d/notation-p";
  name = "notation-p";
  regular = some true;
  executable = some false;
}

abbrev readme : Entry
readme = record {
  path = "/d/readme.md";
  name = "readme.md";
  regular = some true;
  executable = some false;
}

-- In the other order the name is kept.
candidate-last :
    parse_plugin_from_dir (λ path. true) (readme ∷ candidate ∷ []) ≡ ok ("/d/notation-p", "p")
unfolding parse_plugin_from_dir
candidate-last = refl

parse_plugin_from_dir-loses_name_example :
    parse_plugin_from_dir (λ path. true) (candidate ∷ readme ∷ []) ≡ ok ("/d/notation-p", "")
unfolding parse_plugin_name
parse_plugin_from_dir-loses_name_example =
    parse_plugin_from_dir-loses_name (λ path. true) candidate readme [] "p" refl refl refl refl
      ((refl, refl), tt)

abbrev metadata : String → Metadata
metadata version = record {
  name = "p";
  description = "a plugin";
  version = version;
  url = "u";
  capabilities = "SIGNATURE_VERIFIER.TRUSTED_IDENTITY" ∷ [];
  supported_contract_versions = "1.0" ∷ [];
}

-- A disk on which version 1.0.0 is installed and a file has version 1.1.0; each change is logged.
abbrev manager_env : ManagerEnv (List String)
manager_env = record {
  stat = λ disk path. regular;
  entries = λ disk path. [];
  set_executable = λ disk path. true;
  is_executable_file = λ disk path. some true;
  base = λ path. "notation-p";
  run = λ disk name path. some (metadata (if path == "/new/notation-p" then "1.1.0" else "1.0.0"));
  plugin_dir = λ name. some "/plugins/p";
  plugin_file = λ name. some "/plugins/p/notation-p";
  compare = λ v w. gt;
  remove_all = λ disk path. (true, path ∷ disk);
  copy_file = λ disk from to. (true, to ∷ disk);
  copy_dir = λ disk from to. (true, to ∷ disk);
}

abbrev install_options : CliInstallOptions
install_options = record { plugin_path = "/new/notation-p"; overwrite = false }
