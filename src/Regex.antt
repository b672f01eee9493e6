-- ===== src/Regex.antt =====
-- Anchored matching by Go's `regexp`, for the operators that the repository's patterns use, by
-- derivatives: `matches r s` says whether the whole text fits `^r$`. A character class is a list of
-- ranges of code points.
pub mod Laws
use Prim.Native.Char.{code}
use Prim.Native.String.{[], ◌∷◌}
use notation_go_lib.Base.{ℕ, String, Bool, true, false, ◌&&◌, ◌||◌, leb, if◌then◌else◌}
use mathlib.Core.List.{List}
use mathlib.Core.List

pub data Regex : Type 0 where
  void : Regex
  eps : Regex
  cls : List (ℕ × ℕ) → Regex
  seq : Regex → Regex → Regex
  alt : Regex → Regex → Regex
  star : Regex → Regex

pub in_class : List (ℕ × ℕ) → ℕ → Bool
in_class List.[] c = false
in_class (List.◌∷◌ (lo, hi) k) c = (leb lo c && leb c hi) || in_class k c

pub nullable : Regex → Bool
nullable void = false
nullable eps = true
nullable (cls k) = false
nullable (seq a b) = nullable a && nullable b
nullable (alt a b) = nullable a || nullable b
nullable (star a) = true

-- `seq` and `alt` that drop what matches nothing.
pub seq_of : Regex → Regex → Regex
seq_of void b = void
seq_of eps b = b
seq_of a b = seq a b

pub alt_of : Regex → Regex → Regex
alt_of void b = b
alt_of a void = a
alt_of a b = alt a b

-- What is left to match after the character `c`.
pub deriv : ℕ → Regex → Regex
deriv c void = void
deriv c eps = void
deriv c (cls k) = if in_class k c then eps else void
deriv c (seq a b) =
    let first = seq_of (deriv c a) b in
    let second = deriv c b in if nullable a then alt_of first second else first
deriv c (alt a b) = alt_of (deriv c a) (deriv c b)
deriv c (star a) = seq_of (deriv c a) (star a)

unfoldable pub matches : Regex → String → Bool
unfolding in_class nullable seq_of alt_of deriv
matches r [] = nullable r
matches r (c ∷ s) = matches (deriv (code c) r) s

-- `r+` and `r?`.
abbrev pub plus : Regex → Regex
plus r = seq r (star r)

abbrev pub optional : Regex → Regex
optional r = alt eps r
