-- ===== src/Manager/Directory.antt =====
-- plugin/manager.go: `parsePluginFromDir`.
use notation_go_lib.Base.{
  String, ◌≡◌, refl, true, false, Bool, none, some, List, [], ◌∷◌, ◌++◌, ok, >>=-ok, All,
}
use notation_go_lib.Manager.{
  Entry, Walk, walk_start, visit, walk_dir, choose, parse_plugin_from_dir, parse_plugin_name,
}

-- A regular file whose name does not have the format of a plugin's.
abbrev pub IsOther : Entry → Type 0
IsOther e = (e.regular ≡ some true) × (parse_plugin_name e.name ≡ none)

visit-other : (w : Walk) (e : Entry) → IsOther e → visit w e ≡ ok (record w { candidate_name = "" })
unfolding visit
visit-other w e (regular, no_name) = rw (regular, no_name, visit) refl

-- The name that is kept is empty, and nothing else changes.
abbrev nameless : Walk → Walk
nameless w = record w { candidate_name = "" }

walk_dir-others :
    (w : Walk) (entries : List Entry)
    → All IsOther entries
    → walk_dir (nameless w) entries ≡ ok (nameless w)
unfolding walk_dir
walk_dir-others w [] others = refl
walk_dir-others w (e ∷ entries) (other, others) =
    >>=-ok (visit (nameless w) e) _ (visit-other (nameless w) e other)
      (walk_dir-others w entries others)

abbrev named_by : Walk → Entry → String → Walk
named_by w e name = record w { candidate_name = name; valid_files = w.valid_files ++ e.path ∷ [] }

visit-candidate :
    (w : Walk) (e : Entry) (name : String)
    → e.regular ≡ some true
    → parse_plugin_name e.name ≡ some name
    → e.executable ≡ some false
    → visit w e ≡ ok (named_by w e name)
unfolding visit
visit-candidate w e name regular named no_exec = rw (regular, named, visit, no_exec) refl

-- A directory whose walk visits one file that has the format of a plugin's name and is not
-- executable, and after it other regular files, at least one: the file is made executable and
-- chosen, and the name that is returned for the plugin is empty, whatever the name in the file's.
pub parse_plugin_from_dir-loses_name :
    (set_executable : String → Bool) (candidate other : Entry) (others : List Entry) (name : String)
    → candidate.regular ≡ some true
    → parse_plugin_name candidate.name ≡ some name
    → candidate.executable ≡ some false
    → set_executable candidate.path ≡ true
    → All IsOther (other ∷ others)
    → parse_plugin_from_dir set_executable (candidate ∷ other ∷ others) ≡ ok (candidate.path, "")
unfolding parse_plugin_from_dir walk_dir
parse_plugin_from_dir-loses_name set_executable candidate other others name regular named no_exec
      made (is_other, are_others) =
    >>=-ok (walk_dir walk_start (candidate ∷ other ∷ others)) _
      (>>=-ok (visit walk_start candidate) _
        (visit-candidate walk_start candidate name regular named no_exec)
        (>>=-ok (visit (named_by walk_start candidate name) other) _
          (visit-other (named_by walk_start candidate name) other is_other)
          (walk_dir-others (named_by walk_start candidate name) others are_others)))
      (rw (made, choose) refl)
