-- ===== src/Keys/Laws.antt =====
-- config/keys.go: the names of the keys, and `validateKeys`.
use mathlib.Core.Path.{subst}
use notation_go_lib.Base.{
  String, ◌≡◌, ◌≢◌, ◌↔◌, inl, inr, refl, ◌∙◌, true, false, ◌||◌, Option, none, some, List, [], ◌∷◌,
  ◌==◌, ok, All, arith, eq_iff, eq_refl, Bool-cases, ok_inj, >>=-eq-ok,
}
use notation_go_lib.Slices.{contains}
use notation_go_lib.Slices.Laws.{Distinct}
use notation_go_lib.Keys.{KeySuite, SigningKeys, validate_names, validate_default, validate_keys}

abbrev pub names_of : List KeySuite → List String
names_of [] = []
names_of (k ∷ ks) = k.name ∷ names_of ks

-- Every key has a name, no name stands twice, and the default is the name of a key.
pub record AreKeys (s : SigningKeys) : Type 0 where
  pub named : All (λ k. k.name ≢ "") s.keys
  pub distinct : Distinct (names_of s.keys)
  pub default_there : (d : String) → s.default ≡ some d → contains (names_of s.keys) d ≡ true

-- What the loop over the keys has found.
record Checked (keys : List KeySuite) (names out : List String) : Type 0 where
  named : All (λ k. k.name ≢ "") keys
  distinct : Distinct (names_of keys)
  new : (n : String) → contains (names_of keys) n ≡ true → contains names n ≡ false
  result : (n : String) → contains out n ≡ (contains (names_of keys) n || contains names n)

validate_names-Checked :
    (keys : List KeySuite) (names out : List String)
    → validate_names keys names ≡ ok out
    → Checked keys names out
unfolding validate_names contains
validate_names-Checked [] names out h = record {
  named = tt;
  distinct = tt;
  new = λ n k. cc;
  result = λ n. subst (λ o. contains o n ≡ contains names n) (ok_inj h) refl;
}
validate_names-Checked (key ∷ rest) names out h = elim (Bool-cases (key.name == "")) [
  | inl blank ↦ cc (rw (blank, validate_names) at h)
  | inr named ↦ elim (Bool-cases (contains names key.name)) [
    | inl again ↦ cc (rw (named, again, validate_names) at h)
    | inr fresh ↦
        let c =
          validate_names-Checked rest (key.name ∷ names) out
            (rw (named, fresh, validate_names) at h) in
        record {
          named = (ground (arith, eq_iff key.name ""), c.named);
          distinct = (
            elim (Bool-cases (contains (names_of rest) key.name)) [
              | inl twice ↦ absurd (ground (arith, c.new key.name twice, eq_refl key.name))
              | inr once ↦ once
            ],
            c.distinct,
          );
          new = λ n k. elim (Bool-cases (contains (names_of rest) n)) [
            | inl later ↦ ground (arith, c.new n later)
            | inr other ↦ ground (arith, eq_iff n key.name)
          ];
          result = λ n. ground (arith, c.result n);
        }
  ]
]

validate_names_complete :
    (keys : List KeySuite) (names : List String)
    → All (λ k. k.name ≢ "") keys
    → Distinct (names_of keys)
    → ((n : String) → contains (names_of keys) n ≡ true → contains names n ≡ false)
    → (out : List String) × (validate_names keys names ≡ ok out)
unfolding validate_names contains
validate_names_complete [] names named distinct new = (names, refl)
validate_names_complete (key ∷ rest) names (n, named) (d, distinct) new =
    let blank : (key.name == "") ≡ false = ground (arith, eq_iff key.name "") in
    let fresh : contains names key.name ≡ false = new key.name (ground (arith, eq_refl key.name)) in
    let (out, good) =
      validate_names_complete rest (key.name ∷ names) named distinct
        (λ m k. ground (arith, new m, eq_iff m key.name)) in
    (out, rw (blank, fresh, validate_names) good)

member_named :
    (keys : List KeySuite) (d : String)
    → All (λ k. k.name ≢ "") keys
    → contains (names_of keys) d ≡ true
    → d ≢ ""
unfolding contains
member_named [] d h k = cc
member_named (key ∷ rest) d (n, h) k = elim (Bool-cases (contains (names_of rest) d)) [
  | inl later ↦ member_named rest d h later
  | inr here ↦ λ e. n (ground (arith, eq_iff d key.name))
]

-- `validateKeys` accepts a configuration exactly when every key has a name, no name stands twice
-- and the default, if there is one, is the name of a key.
pub validate_keys_iff : (s : SigningKeys) → (validate_keys s ≡ ok tt) ↔ AreKeys s
unfolding validate_keys contains
validate_keys_iff s = (to, from)
  where
    to : validate_keys s ≡ ok tt → AreKeys s
    to h =
        let (out, good, h1) = >>=-eq-ok (validate_names s.keys []) _ h in
        let c = validate_names-Checked s.keys [] out good in
        record {
          named = c.named;
          distinct = c.distinct;
          default_there = λ d e. default_in out s.default d h1 e (c.result d);
        }
      where
        default_in :
            (out : List String) (default : Option String) (d : String)
            → validate_default default out ≡ ok tt
            → default ≡ some d
            → contains out d ≡ (contains (names_of s.keys) d || false)
            → contains (names_of s.keys) d ≡ true
        default_in out none d k e r = cc
        default_in out (some x) d k e r =
            let same : x ≡ d = cc in
            let there : contains out d ≡ true =
              subst (λ y. contains out y ≡ true) same (ground arith) in
            ground arith

    from : AreKeys s → validate_keys s ≡ ok tt
    from k =
        let (out, good) = validate_names_complete s.keys [] k.named k.distinct (λ n e. refl) in
        rw (good, validate_keys)
          (default_ok out s.default
            (λ d e.
              (validate_names-Checked s.keys [] out good).result d
              ∙ ground (arith, k.default_there d e))
            (λ d e. d_named d (k.default_there d e)))
      where
        d_named : (d : String) → contains (names_of s.keys) d ≡ true → d ≢ ""
        d_named d there = member_named s.keys d k.named there

        default_ok :
            (out : List String) (default : Option String)
            → ((d : String) → default ≡ some d → contains out d ≡ true)
            → ((d : String) → default ≡ some d → d ≢ "")
            → validate_default default out ≡ ok tt
        default_ok out none there full = refl
        default_ok out (some d) there full = ground (arith, there d refl, full d refl, eq_iff d "")
