-- ===== src/FileName/Laws.antt =====
-- internal/file/file.go: the characters of a file name that `IsValidFileName` accepts.
use Prim.Native.String.{[], ◌∷◌}
use notation_go_lib.Base.{ℕ, String, ◌≡◌, ◌≢◌, Bool, true, ◌&&◌, ◌||◌, leb, nat_eq, arith}
use text.Mathlib.TextLemmas.{cons-ne-nil}
use notation_go_lib.Regex.Laws.{AllChars, matches-AllChars}
use notation_go_lib.FileName.{file_name_pattern, is_valid_file_name}

-- A letter, a digit, an underscore, a dot or a dash.
abbrev pub is_name_char : ℕ → Bool
is_name_char c =
    (leb b'a' c && leb c b'z')
    || (leb b'A' c && leb c b'Z')
    || (leb b'0' c && leb c b'9')
    || nat_eq c b'_'
    || nat_eq c b'.'
    || nat_eq c b'-'

-- A valid file name is not empty, and each of its characters is a letter, a digit, "_", "." or "-";
-- so it holds no path separator.
pub is_valid_file_name-AllChars :
    (name : String) → is_valid_file_name name ≡ true → (name ≢ []) × AllChars is_name_char name
unfolding is_valid_file_name
is_valid_file_name-AllChars [] h = cc
is_valid_file_name-AllChars (c ∷ s) h = (
  λ e. cons-ne-nil c s e,
  matches-AllChars is_name_char file_name_pattern (c ∷ s) (λ k m. ground arith, λ k m. ground arith)
      h,
)
