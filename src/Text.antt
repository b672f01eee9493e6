-- ===== src/Text.antt =====
-- The functions of Go's `strings` that the code calls, over the characters of a text.
use Prim.Native.Char.{Char, code}
use Prim.Native.String.{[], ◌∷◌}
use mathlib.Core.Option
use notation_go_lib.Base.{
  String, Bool, true, false, ◌&&◌, ◌||◌, Option, none, some, ◌==◌, nat_eq, leb, if◌then◌else◌,
}

-- `Cut(s, sep)` at a separator of one character, `none` where it is not found.
unfoldable pub cut : Char → String → Option (String × String)
cut sep [] = none
cut sep (c ∷ s) =
    if nat_eq (code c) (code sep)
    then some ([], s)
    else Option.map (λ p. (c ∷ p.0, p.1)) (cut sep s)

-- `s[:LastIndex(s, sep)]`, `none` where the separator is not found.
unfoldable pub before_last : Char → String → Option String
before_last sep [] = none
before_last sep (c ∷ s) = elim (before_last sep s) [
  | none ↦ if nat_eq (code c) (code sep) then some [] else none
  | some t ↦ some (c ∷ t)
]

-- `Contains(s, "c")`, for one character.
unfoldable pub has_char : Char → String → Bool
has_char d [] = false
has_char d (c ∷ s) = nat_eq (code c) (code d) || has_char d s

-- `HasPrefix(s, prefix)`.
unfoldable pub has_prefix : String → String → Bool
has_prefix s [] = true
has_prefix [] (d ∷ prefix) = false
has_prefix (c ∷ s) (d ∷ prefix) = nat_eq (code c) (code d) && has_prefix s prefix

-- `Contains(s, t)`.
unfoldable pub has_text : String → String → Bool
unfolding has_prefix
has_text [] t = has_prefix [] t
has_text (c ∷ s) t = has_prefix (c ∷ s) t || has_text s t

-- `unicode.IsSpace`.
is_space : Char → Bool
is_space c =
    let n = code c in
    (leb 9 n && leb n 13)
    || nat_eq n 32
    || nat_eq n 133
    || nat_eq n 160
    || nat_eq n 5760
    || (leb 8192 n && leb n 8202)
    || nat_eq n 8232
    || nat_eq n 8233
    || nat_eq n 8239
    || nat_eq n 8287
    || nat_eq n 12288

trim_left : String → String
trim_left [] = []
trim_left (c ∷ s) = if is_space c then trim_left s else c ∷ s

trim_right : String → String
trim_right [] = []
trim_right (c ∷ s) = let rest = trim_right s in if is_space c && rest == [] then [] else c ∷ rest

-- `TrimSpace`.
unfoldable pub trim_space : String → String
unfolding is_space trim_left trim_right
trim_space s = trim_right (trim_left s)
