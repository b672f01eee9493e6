-- ===== src/Slices/Laws.antt =====
-- internal/slices/slices.go: membership, and lists without repetition.
use notation_go_lib.Base.{
  String, ◌≡◌, ◌↔◌, inl, inr, refl, true, false, ◌||◌, List, [], ◌∷◌, ◌++◌, arith, eq_iff, Any,
  Bool-cases,
}
use notation_go_lib.Slices.{contains}

pub contains_iff : (s : List String) (v : String) → (contains s v ≡ true) ↔ Any (λ vs. v ≡ vs) s
unfolding contains
contains_iff [] v = ground arith
contains_iff (vs ∷ s) v = ground (arith, contains_iff s v, eq_iff v vs)

pub contains-append :
    (s t : List String) (v : String) → contains (s ++ t) v ≡ (contains s v || contains t v)
unfolding contains
contains-append [] t v = refl
contains-append (x ∷ s) t v = ground (arith, contains-append s t v)

-- No text stands twice in the list.
abbrev pub Distinct : List String → Type 0
Distinct [] = Unit
Distinct (x ∷ xs) = (contains xs x ≡ false) × Distinct xs

-- A text of the first list does not stand in the second.
pub Distinct-append_disjoint :
    (s t : List String) (v : String)
    → Distinct (s ++ t)
    → contains s v ≡ true
    → contains t v ≡ false
unfolding contains
Distinct-append_disjoint [] t v d h = cc
Distinct-append_disjoint (x ∷ s) t v d h = elim (Bool-cases (contains s v)) [
  | inl later ↦ Distinct-append_disjoint s t v d.1 later
  | inr here ↦ ground (arith, eq_iff v x, contains-append s t v)
]

pub Distinct-append_right : (s t : List String) → Distinct (s ++ t) → Distinct t
Distinct-append_right [] t d = d
Distinct-append_right (x ∷ s) t d = Distinct-append_right s t d.1
