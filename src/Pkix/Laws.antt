-- ===== src/Pkix/Laws.antt =====
-- internal/pkix/pkix.go: the entries of a parsed name.
use notation_go_lib.Base.{
  String, ◌≡◌, ◌≢◌, inl, inr, Option, List, [], ◌∷◌, ◌==◌, if◌then◌else◌, ok, err, All, arith,
  eq_iff, Result-cases, Option-cases, Bool-cases, ok_inj,
}
use mathlib.Core.Path.{subst}
use notation_go_lib.Pkix.{
  StringMap, Rdn, PkixError, value_at, add_attribute, add_rdns, check_fields, mandatory_fields,
  parse_distinguished_name,
}

check_fields_sound :
    (name : String) (m m' : StringMap) (fields : List String)
    → check_fields name m fields ≡ ok m'
    → (m ≡ m') × All (λ field. value_at m field ≢ "") fields
unfolding check_fields
check_fields_sound name m m' [] h = (ok_inj h, tt)
check_fields_sound name m m' (field ∷ rest) h = elim (Bool-cases (value_at m field == "")) [
  | inl empty ↦ ground arith
  | inr given ↦
      let (same, more) = check_fields_sound name m m' rest (rw (given, check_fields) at h) in
      (same, (λ e. ground (arith, eq_iff (value_at m field) ""), more))
]

abbrev pub HasNoAlias : StringMap → Type 0
HasNoAlias m = All (λ entry. entry.0 ≢ "S") m

add_attribute-HasNoAlias :
    (name : String) (a : String × String) (m m' : StringMap)
    → HasNoAlias m
    → add_attribute name a m ≡ ok m'
    → HasNoAlias m'
unfolding add_attribute
add_attribute-HasNoAlias name (type, value) m m' g h = elim (Bool-cases (type == "S")) [
  | inl alias ↦ added "ST" (λ e. cc) (ground arith)
  | inr other ↦ added type (λ e. ground (arith, eq_iff type "S")) (ground arith)
]
  where
    added :
        (key : String)
        → key ≢ "S"
        → (if value_at m key == ""
            then ok ((key, value) ∷ m)
            else err (PkixError.duplicate name key))
          ≡ ok m'
        → HasNoAlias m'
    added key plain e = elim (Bool-cases (value_at m key == "")) [
      | inl new ↦
          let same : (key, value) ∷ m ≡ m' = ground arith in subst HasNoAlias same (plain, g)
      | inr old ↦ ground arith
    ]

-- The alias "S" is never a key.
add_rdns-HasNoAlias :
    (name : String) (rdns : List Rdn) (m m' : StringMap)
    → HasNoAlias m
    → add_rdns name rdns m ≡ ok m'
    → HasNoAlias m'
unfolding add_rdns
add_rdns-HasNoAlias name [] m m' g h = subst HasNoAlias (ok_inj h) g
add_rdns-HasNoAlias name ([] ∷ rest) m m' g h = add_rdns-HasNoAlias name rest m m' g h
add_rdns-HasNoAlias name ((a ∷ []) ∷ rest) m m' g h = elim (Result-cases (add_attribute name a m)) [
  | inl (e, refused) ↦ cc (rw (refused, add_rdns) at h)
  | inr (m'', added) ↦
      add_rdns-HasNoAlias name rest m'' m' (add_attribute-HasNoAlias name a m m'' g added)
        (rw (added, add_rdns) at h)
]
add_rdns-HasNoAlias name ((a ∷ b ∷ more) ∷ rest) m m' g h = cc

-- A parsed name has the mandatory attributes, and the alias "S" is never one of its keys.
pub parse_distinguished_name_sound :
    (parse_dn : String → Option (List Rdn)) (name : String) (m : StringMap)
    → parse_distinguished_name parse_dn name ≡ ok m
    → All (λ field. value_at m field ≢ "") mandatory_fields × HasNoAlias m
unfolding parse_distinguished_name
parse_distinguished_name_sound parse_dn name m h = elim (Option-cases (parse_dn name)) [
  | inl bad ↦ ground arith
  | inr (rdns, good) ↦ elim (Result-cases (add_rdns name rdns [])) [
    | inl (e, refused) ↦ ground arith
    | inr (m', added) ↦
        let (same, fields) = check_fields_sound name m' m mandatory_fields (ground arith) in
        subst (λ k. All (λ field. value_at k field ≢ "") mandatory_fields × HasNoAlias k) same
          (fields, add_rdns-HasNoAlias name rdns [] m' tt added)
  ]
]
