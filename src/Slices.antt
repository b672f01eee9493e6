-- ===== src/Slices.antt =====
-- internal/slices/slices.go and internal/container/set.go, over lists.
pub mod Laws
use notation_go_lib.Base.{
  ℕ, zero, suc, String, ◌≡◌, Bool, true, false, ◌||◌, Option, none, some, List, [], ◌∷◌, arith,
  ◌==◌, eq_iff, if◌then◌else◌, Any, ◌↔◌,
}
use mathlib.Core.Option

-- `Contains`, at strings.
unfoldable pub contains : List String → String → Bool
contains [] v = false
contains (vs ∷ s) v = v == vs || contains s v

module _ {ℓ} {E : Type ℓ} where
  -- `Delete`: the elements before index `i`, then those after it; an index past the end panics in
  -- Go, and its only caller passes an index of `index_isser`.
  unfoldable pub delete : List E → ℕ → List E
  delete [] i = []
  delete (x ∷ xs) zero = xs
  delete (x ∷ xs) (suc i) = x ∷ delete xs i

  -- `IndexIsser`, with `none` for -1; `is` is the element's method `Is`.
  unfoldable pub index_isser : (E → String → Bool) → List E → String → Option ℕ
  index_isser is [] name = none
  index_isser is (v ∷ s) name = if is v name then some 0 else Option.map suc (index_isser is s name)

-- `ContainsIsser`: the index is not negative.
unfoldable pub contains_isser {ℓ} : {E : Type ℓ} → (E → String → Bool) → List E → String → Bool
unfolding index_isser
contains_isser is s name = elim (index_isser is s name) [ none ↦ false | some i ↦ true ]
