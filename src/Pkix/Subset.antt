-- ===== src/Pkix/Subset.antt =====
-- internal/pkix/pkix.go: `IsSubsetDN` on parsed names, by their pairs of keys and values.
use notation_go_lib.Base.{
  String, ◌≡◌, ◌≢◌, ◌↔◌, ◌⊎◌, inl, inr, refl, sym, ◌∙◌, Bool, true, Option, List, [], ◌∷◌, ◌==◌, ok,
  all, Any, All, arith, eq_iff, Bool-cases,
}
use mathlib.Core.Path.{subst}
use notation_go_lib.Pkix.{
  StringMap, Rdn, value_at, mandatory_fields, parse_distinguished_name, is_subset_dn,
}
use notation_go_lib.Pkix.Laws.{parse_distinguished_name_sound}

-- The map has an entry for the key.
abbrev pub HasKey : String → StringMap → Type 0
HasKey key m = Any (λ entry. entry.0 ≡ key) m

module _ (dn1 dn2 : StringMap) where
  abbrev agrees : String × String → Bool
  agrees entry = value_at dn1 entry.0 == value_at dn2 entry.0

  agrees_at :
      (k v key : String) → agrees (k, v) ≡ true → k ≡ key → value_at dn1 key ≡ value_at dn2 key
  agrees_at k v key h e =
      subst (λ j. value_at dn1 j ≡ value_at dn2 j) e
        ((eq_iff (value_at dn1 k) (value_at dn2 k)).0 h)

  agree-all_to :
      (m : StringMap) (key : String)
      → all agrees m ≡ true
      → HasKey key m
      → value_at dn1 key ≡ value_at dn2 key
  agree-all_to [] key h has = absurd has
  agree-all_to ((k, v) ∷ m) key h (inl e) = agrees_at k v key (ground arith) e
  agree-all_to ((k, v) ∷ m) key h (inr has) = agree-all_to m key (ground arith) has

  agree-all_from :
      (m : StringMap)
      → ((key : String) → HasKey key m → value_at dn1 key ≡ value_at dn2 key)
      → all agrees m ≡ true
  agree-all_from [] h = refl
  agree-all_from ((k, v) ∷ m) h = rw (
    (eq_iff (value_at dn1 k) (value_at dn2 k)).1 (h k (inl refl)),
    agree-all_from m (λ key has. h key (inr has)),
  )

-- The map has the key, with the value that it reads as.
abbrev pub HasPair : StringMap → String → String → Type 0
HasPair m key value = HasKey key m × (value_at m key ≡ value)

HasKey-cases :
    (key : String) (m : StringMap) → HasKey key m ⊎ ((HasKey key m → ⊥) × (value_at m key ≡ ""))
unfolding value_at
HasKey-cases key [] = inr ((λ h. h), refl)
HasKey-cases key ((k, v) ∷ m) = elim (Bool-cases (k == key)) [
  | inl here ↦ inl (inl ((eq_iff k key).0 here))
  | inr other ↦ elim (HasKey-cases key m) [
    | inl has ↦ inl (inr has)
    | inr (lacks, empty) ↦ inr (
      (λ h. elim h [ inl e ↦ ground (arith, eq_iff k key) | inr has ↦ lacks has ]),
      rw (other, value_at) empty,
    )
  ]
]

-- Every pair of the first name is one of the second, but a pair without a value may also have a
-- key that the second lacks.
abbrev pub IsMatched : StringMap → StringMap → Type 0
IsMatched dn1 dn2 =
    (key value : String)
    → HasPair dn1 key value
    → HasPair dn2 key value ⊎ ((value ≡ "") × (HasKey key dn2 → ⊥))

subset-IsMatched : (dn1 dn2 : StringMap) → is_subset_dn dn1 dn2 ≡ true → IsMatched dn1 dn2
unfolding is_subset_dn
subset-IsMatched dn1 dn2 h key value (has, reads) =
    let same = agree-all_to dn1 dn2 dn1 key h has in
    elim (HasKey-cases key dn2) [
      | inl there ↦ inl (there, sym same ∙ reads)
      | inr (lacks, empty) ↦ inr (sym reads ∙ same ∙ empty, lacks)
    ]

IsMatched-subset : (dn1 dn2 : StringMap) → IsMatched dn1 dn2 → is_subset_dn dn1 dn2 ≡ true
unfolding is_subset_dn
IsMatched-subset dn1 dn2 matched = agree-all_from dn1 dn2 dn1 (λ key has.
    elim (matched key (value_at dn1 key) (has, refl)) [
      | inl (there, reads) ↦ sym reads
      | inr (empty, lacks) ↦ elim (HasKey-cases key dn2) [
        | inl there ↦ absurd (lacks there)
        | inr (_, missing) ↦ empty ∙ sym missing
      ]
    ])

-- The second name has a value for the field, which is that of the first.
abbrev pub Shares : StringMap → StringMap → String → Type 0
Shares dn1 dn2 field = (value_at dn2 field ≢ "") × (value_at dn1 field ≡ value_at dn2 field)

subset-Shares :
    (dn1 dn2 : StringMap) (fields : List String)
    → is_subset_dn dn1 dn2 ≡ true
    → All (λ field. value_at dn1 field ≢ "") fields
    → All (Shares dn1 dn2) fields
unfolding is_subset_dn
subset-Shares dn1 dn2 [] h given = tt
subset-Shares dn1 dn2 (field ∷ fields) h (some_value, given) = elim (HasKey-cases field dn1) [
  | inr (_, empty) ↦ absurd (some_value empty)
  | inl has ↦
      let same = agree-all_to dn1 dn2 dn1 field h has in
      (((λ e. some_value (same ∙ e)), same), subset-Shares dn1 dn2 fields h given)
]

-- A name that parses is a subset of another exactly when each of its pairs of a key and a value is
-- one of the other's, or has an empty value and a key that the other lacks; and then the two have the
-- same country, state and organization, none of them empty.
pub is_subset_dn-parsed :
    (parse_dn : String → Option (List Rdn)) (identity : String) (dn1 dn2 : StringMap)
    → parse_distinguished_name parse_dn identity ≡ ok dn1
    → ((is_subset_dn dn1 dn2 ≡ true) ↔ IsMatched dn1 dn2)
      × (is_subset_dn dn1 dn2 ≡ true → All (Shares dn1 dn2) mandatory_fields)
is_subset_dn-parsed parse_dn identity dn1 dn2 parsed =
    let (given, _) = parse_distinguished_name_sound parse_dn identity dn1 parsed in
    (
      (subset-IsMatched dn1 dn2, IsMatched-subset dn1 dn2),
      λ h. subset-Shares dn1 dn2 mandatory_fields h given,
    )
