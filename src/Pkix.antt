-- ===== src/Pkix.antt =====
-- internal/pkix/pkix.go: distinguished names. `ParseDN` of go-ldap is the parameter `parse_dn`: the
-- relative names of a DN, each the list of its attributes' types and values; `none` is an error.
-- A Go map of strings is the list of its entries, newest first; a missing key reads as "".
pub mod Laws
pub mod Subset
use notation_go_lib.Base.{
  String, Bool, true, false, ◌&&◌, Option, none, some, List, [], ◌∷◌, ◌==◌, if◌then◌else◌, Result,
  ok, err, ◌>>=◌, ◌>>◌, guard, not, all,
}
use notation_go_lib.Text.{has_text}

abbrev pub StringMap : Type 0
StringMap = List (String × String)

abbrev pub Rdn : Type 0
Rdn = List (String × String)

-- `m[key]`.
unfoldable pub value_at : StringMap → String → String
value_at [] key = ""
value_at ((k, v) ∷ m) key = if k == key then v else value_at m key

pub data PkixError : Type 0 where
  unsupported unparsable multi_valued : String → PkixError
  duplicate missing : String → String → PkixError

-- One attribute: "S" is an alias for "ST".
add_attribute : String → String × String → StringMap → Result PkixError StringMap
unfolding value_at
add_attribute name (type, value) m =
    let key = if type == "S" then "ST" else type in
    if value_at m key == "" then ok ((key, value) ∷ m) else err (duplicate name key)

-- The loop over the relative names.
add_rdns : String → List Rdn → StringMap → Result PkixError StringMap
add_rdns name [] m = ok m
add_rdns name ([] ∷ rest) m = add_rdns name rest m
add_rdns name ((a ∷ []) ∷ rest) m = elim (add_attribute name a m) [
  | err e ↦ err e
  | ok m' ↦ add_rdns name rest m'
]
add_rdns name ((a ∷ b ∷ more) ∷ rest) m = err (multi_valued name)

abbrev pub mandatory_fields : List String
mandatory_fields = "C" ∷ "ST" ∷ "O" ∷ []

-- The loop over the mandatory fields.
check_fields : String → StringMap → List String → Result PkixError StringMap
unfolding value_at
check_fields name m [] = ok m
check_fields name m (field ∷ rest) =
    if value_at m field == "" then err (missing name field) else check_fields name m rest

abbrev parsed : Option (List Rdn) → String → Result PkixError (List Rdn)
parsed none name = err (unparsable name)
parsed (some rdns) name = ok rdns

-- `ParseDistinguishedName`.
unfoldable pub parse_distinguished_name :
    (String → Option (List Rdn)) → String → Result PkixError StringMap
unfolding add_attribute add_rdns check_fields has_text
parse_distinguished_name parse_dn name = do
  guard (not (has_text name "=#")) (unsupported name)
  rdns ← parsed (parse_dn name) name
  m ← add_rdns name rdns []
  check_fields name m mandatory_fields

-- `IsSubsetDN`.
unfoldable pub is_subset_dn : StringMap → StringMap → Bool
unfolding value_at
is_subset_dn dn1 dn2 = all (λ entry. value_at dn1 entry.0 == value_at dn2 entry.0) dn1
