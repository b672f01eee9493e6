-- ===== src/Semver.antt =====
-- internal/semver/semver.go. `Compare` of golang.org/x/mod/semver is a parameter: it takes two
-- versions, here without the leading "v" that the code adds, and returns their order.
use Prim.Native.Nat.{Ordering}
use notation_go_lib.Base.{ℕ, String, ◌≡◌, refl, Bool, true, false, [], ◌∷◌, Result, ok, ◌>>◌, guard}
use notation_go_lib.Regex.{Regex, cls, seq, alt, star, plus, optional, matches}

abbrev digit : Regex
digit = cls ((b'0', b'9') ∷ [])

abbrev chr : ℕ → Regex
chr c = cls ((c, c) ∷ [])

-- 0|[1-9]\d*
abbrev numeric : Regex
numeric = alt (chr b'0') (seq (cls ((b'1', b'9') ∷ [])) (star digit))

-- [0-9a-zA-Z-]
abbrev word : Regex
word = cls ((b'0', b'9') ∷ (b'a', b'z') ∷ (b'A', b'Z') ∷ (b'-', b'-') ∷ [])

-- 0|[1-9]\d*|\d*[a-zA-Z-][0-9a-zA-Z-]*
abbrev pre_part : Regex
pre_part =
    alt numeric
      (seq (star digit) (seq (cls ((b'a', b'z') ∷ (b'A', b'Z') ∷ (b'-', b'-') ∷ [])) (star word)))

-- r(\.r)*
abbrev dotted : Regex → Regex
dotted r = seq r (star (seq (chr b'.') r))

abbrev pub semver_pattern : Regex
semver_pattern = seq numeric (
    seq (chr b'.') (
      seq numeric (
        seq (chr b'.') (
          seq numeric (
            seq (optional (seq (chr b'-') (dotted pre_part)))
              (optional (seq (chr b'+') (dotted (plus word)))))))))

-- `IsValid`.
unfoldable pub is_valid : String → Bool
unfolding matches
is_valid version = matches semver_pattern version

pub data SemverError : Type 0 where
  not_semver : String → SemverError

-- `ComparePluginVersion`.
unfoldable pub compare_plugin_version :
    (String → String → Ordering) → String → String → Result SemverError Ordering
compare_plugin_version compare v w = do
  guard (is_valid v) (not_semver v)
  guard (is_valid w) (not_semver w)
  ok (compare v w)

semver_tests :
    (is_valid "1.0.10-rc.1+b7" ≡ true) × (is_valid "01.0.0" ≡ false) × (is_valid "1.0" ≡ false)
unfolding is_valid
semver_tests = (refl, refl, refl)
