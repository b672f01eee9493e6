-- ===== src/FileName.antt =====
-- internal/file/file.go: the names that files of the store may have.
pub mod Laws
use Prim.Native.Char.{Char, code}
use Prim.Native.String
use notation_go_lib.Base.{
  String, Bool, false, ◌||◌, Option, none, some, List, [], ◌∷◌, ◌==◌, ◌&&◌, not, nat_eq,
  if◌then◌else◌,
}
use notation_go_lib.Regex.{Regex, cls, plus, matches}

-- [a-zA-Z0-9_.-]+
abbrev pub file_name_pattern : Regex
file_name_pattern = plus (
    cls (
      (b'a', b'z') ∷ (b'A', b'Z') ∷ (b'0', b'9') ∷ (b'_', b'_') ∷ (b'.', b'.') ∷ (b'-', b'-') ∷ []))

-- `IsValidFileName`.
unfoldable pub is_valid_file_name : String → Bool
unfolding matches
is_valid_file_name name = matches file_name_pattern name

has_slash : String → Bool
has_slash String.[] = false
has_slash (String.◌∷◌ c s) = nat_eq (code c) b'/' || has_slash s

-- The text before its last dot, where no slash follows that dot: what `filepath.Ext` looks for.
before_extension : String → Option String
unfolding has_slash
before_extension String.[] = none
before_extension (String.◌∷◌ c s) = elim (before_extension s) [
  | some t ↦ some (String.◌∷◌ c t)
  | none ↦ if nat_eq (code c) b'.' && not (has_slash s) then some String.[] else none
]

-- `TrimFileExtension`.
unfoldable pub trim_file_extension : String → String
unfolding before_extension
trim_file_extension name = elim (before_extension name) [ none ↦ name | some t ↦ t ]
