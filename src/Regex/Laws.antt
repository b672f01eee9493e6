-- ===== src/Regex/Laws.antt =====
-- The characters of a text that matches a pattern.
use Prim.Native.Char.{code}
use Prim.Native.String.{[], ◌∷◌}
use notation_go_lib.Base.{
  inl, inr, ℕ, String, ◌≡◌, refl, Bool, true, false, if◌then◌else◌, Bool-cases, arith,
}
use notation_go_lib.Regex.{
  Regex, void, eps, cls, seq, alt, star, in_class, nullable, seq_of, alt_of, deriv, matches,
}

-- Every character of the text passes the test `p`.
abbrev pub AllChars : (ℕ → Bool) → String → Type 0
AllChars p [] = Unit
AllChars p (c ∷ s) = (p (code c) ≡ true) × AllChars p s

-- Every character that a class of the pattern has passes the test `p`.
abbrev pub Within : (ℕ → Bool) → Regex → Type 0
Within p void = Unit
Within p eps = Unit
Within p (cls k) = (c : ℕ) → in_class k c ≡ true → p c ≡ true
Within p (seq a b) = Within p a × Within p b
Within p (alt a b) = Within p a × Within p b
Within p (star a) = Within p a

module _ (p : ℕ → Bool) where
  Within-seq_of : (a b : Regex) → Within p a → Within p b → Within p (seq_of a b)
  unfolding seq_of
  Within-seq_of void b h k = tt
  Within-seq_of eps b h k = k
  Within-seq_of (cls c) b h k = (h, k)
  Within-seq_of _ b h k = (h, k)

  Within-alt_of : (a b : Regex) → Within p a → Within p b → Within p (alt_of a b)
  unfolding alt_of
  Within-alt_of void b h k = k
  Within-alt_of eps void h k = h
  Within-alt_of eps eps h k = (h, k)
  Within-alt_of eps _ h k = (h, k)
  Within-alt_of (cls c) void h k = h
  Within-alt_of (cls c) eps h k = (h, k)
  Within-alt_of (cls c) _ h k = (h, k)
  Within-alt_of (seq a a') void h k = h
  Within-alt_of (seq a a') eps h k = (h, k)
  Within-alt_of (seq a a') _ h k = (h, k)
  Within-alt_of (alt a a') void h k = h
  Within-alt_of (alt a a') eps h k = (h, k)
  Within-alt_of (alt a a') _ h k = (h, k)
  Within-alt_of (star a) void h k = h
  Within-alt_of (star a) eps h k = (h, k)
  Within-alt_of (star a) _ h k = (h, k)

  Within-if : (b : Bool) (x y : Regex) → Within p x → Within p y → Within p (if b then x else y)
  Within-if true x y h k = h
  Within-if false x y h k = k

  Within-deriv : (c : ℕ) (r : Regex) → Within p r → Within p (deriv c r)
  unfolding deriv
  Within-deriv c void h = tt
  Within-deriv c eps h = tt
  Within-deriv c (cls k) h = Within-if (in_class k c) eps void tt tt
  Within-deriv c (seq a b) h =
      let first = Within-seq_of (deriv c a) b (Within-deriv c a h.0) h.1 in
      Within-if (nullable a) _ _ (Within-alt_of _ (deriv c b) first (Within-deriv c b h.1)) first
  Within-deriv c (alt a b) h = Within-alt_of _ _ (Within-deriv c a h.0) (Within-deriv c b h.1)
  Within-deriv c (star a) h = Within-seq_of (deriv c a) (star a) (Within-deriv c a h) h

  -- After a character outside the pattern nothing matches.
  deriv-eq-void : (c : ℕ) (r : Regex) → p c ≡ false → Within p r → deriv c r ≡ void
  unfolding deriv seq_of alt_of
  deriv-eq-void c void e h = refl
  deriv-eq-void c eps e h = refl
  deriv-eq-void c (cls k) e h = ground (arith, h c)
  deriv-eq-void c (seq a b) e h = ground (arith, deriv-eq-void c a e h.0, deriv-eq-void c b e h.1)
  deriv-eq-void c (alt a b) e h = ground (arith, deriv-eq-void c a e h.0, deriv-eq-void c b e h.1)
  deriv-eq-void c (star a) e h = ground (arith, deriv-eq-void c a e h)

matches-void : (s : String) → matches void s ≡ false
unfolding matches
matches-void [] = refl
matches-void (c ∷ s) = matches-void s

pub matches-AllChars :
    (p : ℕ → Bool) (r : Regex) (s : String) → Within p r → matches r s ≡ true → AllChars p s
unfolding matches
matches-AllChars p r [] h m = tt
matches-AllChars p r (c ∷ s) h m = elim (Bool-cases (p (code c))) [
  | inl inside ↦ (inside, matches-AllChars p (deriv (code c) r) s (Within-deriv p (code c) r h) m)
  | inr outside ↦ cc (matches-void s, rw (deriv-eq-void p (code c) r outside h) at m)
]
