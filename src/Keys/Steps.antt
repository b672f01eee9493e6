-- ===== src/Keys/Steps.antt =====
-- config/keys.go: the operations that change the keys, under the conditions of `validateKeys`.
use mathlib.Core.Path.{subst}
use notation_go_lib.Base.{
  ℕ, zero, suc, String, ◌≡◌, ◌≢◌, inl, inr, refl, sym, ◌∙◌, ap, Bool, true, false, not, Option,
  none, some, List, [], ◌∷◌, ◌++◌, ◌==◌, ok, All, All-append, arith, eq_iff, Bool-cases,
  Option-cases, Result-cases, ok_inj, some_inj, >>=-eq-ok, guard, guard-eq-ok,
}
use notation_go_lib.Slices.{contains, delete, index_isser, contains_isser}
use notation_go_lib.Slices.Laws.{Distinct, contains-append}
use notation_go_lib.Keys.Laws.{names_of, AreKeys}
use notation_go_lib.Keys.{
  remove, KeySuite, SigningKeys, is, add_key, remove_one, drop_default, update_default,
  already_exists, name_empty, no_key,
}

names_of-append : (a b : List KeySuite) → names_of (a ++ b) ≡ names_of a ++ names_of b
names_of-append [] b = refl
names_of-append (k ∷ a) b = ap (λ x. k.name ∷ x) (names_of-append a b)

-- The test on the keys is a test on their names.
contains_isser-names :
    (keys : List KeySuite) (name : String)
    → contains_isser is keys name ≡ contains (names_of keys) name
unfolding contains_isser contains index_isser
contains_isser-names [] name = refl
contains_isser-names (k ∷ ks) name =
    ground (arith, contains_isser-names ks name, eq_iff k.name name, eq_iff name k.name)

Distinct-snoc :
    (names : List String) (n : String)
    → Distinct names
    → contains names n ≡ false
    → Distinct (names ++ n ∷ [])
unfolding contains
Distinct-snoc [] n d new = (refl, tt)
Distinct-snoc (x ∷ names) n (f, d) new = (
  ground (arith, contains-append names (n ∷ []) x, eq_iff n x, eq_iff x n),
  Distinct-snoc names n d (ground arith),
)

pub add_key-AreKeys :
    (s s' : SigningKeys) (key : KeySuite) (mark : Bool)
    → AreKeys s
    → key.name ≢ ""
    → add_key s key mark ≡ ok s'
    → AreKeys s'
unfolding add_key contains
add_key-AreKeys s s' key mark k named h =
    let (u, new, h1) =
      >>=-eq-ok (guard (not (contains_isser is s.keys key.name)) (already_exists key.name)) _ h in
    subst AreKeys (ok_inj h1) (record {
      named = All-append _ s.keys (key ∷ []) k.named (named, tt);
      distinct =
          subst Distinct (sym (names_of-append s.keys (key ∷ [])))
            (Distinct-snoc (names_of s.keys) key.name k.distinct (free new));
      default_there = λ d e. elim (Bool-cases mark) [
        | inl marked ↦ ground (
          arith,
          names_of-append s.keys (key ∷ []),
          contains-append (names_of s.keys) (key.name ∷ []) d,
          eq_iff d key.name,
        )
        | inr kept ↦
            let old = k.default_there d (rw kept at e) in
            subst (λ ns. contains ns d ≡ true) (sym (names_of-append s.keys (key ∷ [])))
              (ground (arith, contains-append (names_of s.keys) (key.name ∷ []) d))
      ];
    })
  where
    free :
        guard (not (contains_isser is s.keys key.name)) (already_exists key.name) ≡ ok tt
        → contains (names_of s.keys) key.name ≡ false
    free g = ground (
      arith,
      guard-eq-ok (not (contains_isser is s.keys key.name)) _ g,
      contains_isser-names s.keys key.name,
    )

delete-All :
    (P : KeySuite → Type 0) (keys : List KeySuite) (i : ℕ) → All P keys → All P (delete keys i)
unfolding delete
delete-All P [] i h = tt
delete-All P (k ∷ keys) zero h = h.1
delete-All P (k ∷ keys) (suc i) h = (h.0, delete-All P keys i h.1)

delete_within :
    (keys : List KeySuite) (i : ℕ) (n : String)
    → contains (names_of (delete keys i)) n ≡ true
    → contains (names_of keys) n ≡ true
unfolding delete contains
delete_within [] i n h = h
delete_within (k ∷ keys) zero n h = ground arith
delete_within (k ∷ keys) (suc i) n h = ground (arith, delete_within keys i n)

delete-Distinct :
    (keys : List KeySuite) (i : ℕ) → Distinct (names_of keys) → Distinct (names_of (delete keys i))
unfolding delete contains
delete-Distinct [] i d = tt
delete-Distinct (k ∷ keys) zero d = d.1
delete-Distinct (k ∷ keys) (suc i) d =
    (ground (arith, delete_within keys i k.name), delete-Distinct keys i d.1)

-- Only the key that was looked for is deleted.
delete_keeps :
    (keys : List KeySuite) (name n : String) (i : ℕ)
    → index_isser is keys name ≡ some i
    → n ≢ name
    → contains (names_of keys) n ≡ true
    → contains (names_of (delete keys i)) n ≡ true
unfolding delete contains index_isser
delete_keeps [] name n i h ne there = cc
delete_keeps (k ∷ keys) name n i h ne there = elim (Bool-cases (k.name == name)) [
  | inl here ↦
      let at : i ≡ 0 = ground arith in
      subst (λ j. contains (names_of (delete (k ∷ keys) j)) n ≡ true) (sym at)
        (ground (arith, eq_iff k.name name, eq_iff n k.name))
  | inr apart ↦ elim (Option-cases (index_isser is keys name)) [
    | inl missing ↦ ground arith
    | inr (j, found) ↦
        let at : i ≡ suc j = ground arith in
        subst (λ j. contains (names_of (delete (k ∷ keys) j)) n ≡ true) (sym at)
          (ground (arith, delete_keeps keys name n j found ne))
  ]
]

-- The key that was looked for is gone.
delete_gone :
    (keys : List KeySuite) (name : String) (i : ℕ)
    → index_isser is keys name ≡ some i
    → Distinct (names_of keys)
    → contains (names_of (delete keys i)) name ≡ false
unfolding delete contains index_isser
delete_gone [] name i h d = cc
delete_gone (k ∷ keys) name i h d = elim (Bool-cases (k.name == name)) [
  | inl here ↦
      let at : i ≡ 0 = ground arith in
      subst (λ j. contains (names_of (delete (k ∷ keys) j)) name ≡ false) (sym at)
        (subst (λ n. contains (names_of keys) n ≡ false) ((eq_iff k.name name).0 here) d.0)
  | inr apart ↦ elim (Option-cases (index_isser is keys name)) [
    | inl missing ↦ ground arith
    | inr (j, found) ↦
        let at : i ≡ suc j = ground arith in
        subst (λ j. contains (names_of (delete (k ∷ keys) j)) name ≡ false) (sym at)
          (ground
            (arith, delete_gone keys name j found d.1, eq_iff k.name name, eq_iff name k.name))
  ]
]

drop_default_other :
    (default : Option String) (name d : String)
    → drop_default default name ≡ some d
    → (default ≡ some d) × (d ≢ name)
drop_default_other none name d h = cc
drop_default_other (some x) name d h = ground (arith, eq_iff x name)

-- A removal that succeeds deletes exactly the key of that name, and the default if it was that key;
-- the configuration stays valid.
pub remove_one_sound :
    (s s' : SigningKeys) (name : String)
    → AreKeys s
    → remove_one s name ≡ ok s'
    → AreKeys s'
      × (contains (names_of s'.keys) name ≡ false)
      × (s'.default ≢ some name)
      × ((n : String) → n ≢ name → contains (names_of s'.keys) n ≡ contains (names_of s.keys) n)
unfolding remove_one
remove_one_sound s s' name k h = elim (Bool-cases (name == "")) [
  | inl blank ↦ cc (rw (blank, remove_one) at h)
  | inr named ↦ elim (Option-cases (index_isser is s.keys name)) [
    | inl missing ↦ cc (rw (named, missing, remove_one) at h)
    | inr (i, found) ↦
        subst
          (λ (s' : SigningKeys).
            AreKeys s'
            × (contains (names_of s'.keys) name ≡ false)
            × (s'.default ≢ some name)
            × ((n : String)
                → n ≢ name
                → contains (names_of s'.keys) n ≡ contains (names_of s.keys) n))
          (ok_inj (rw (named, found, remove_one) at h))
          (
            record {
              named = delete-All _ s.keys i k.named;
              distinct = delete-Distinct s.keys i k.distinct;
              default_there = λ d e.
                  let (old, other) = drop_default_other s.default name d e in
                  delete_keeps s.keys name d i found other (k.default_there d old);
            },
            delete_gone s.keys name i found k.distinct,
            (λ e. (drop_default_other s.default name name e).1 refl),
            λ n ne. elim (Bool-cases (contains (names_of s.keys) n)) [
              | inl there ↦ delete_keeps s.keys name n i found ne there ∙ sym there
              | inr missing ↦ ground (arith, delete_within s.keys i n)
            ],
          )
  ]
]

pub remove-AreKeys :
    (names deleted : List String) (s : SigningKeys) → AreKeys s → AreKeys (remove s names deleted).2
unfolding remove
remove-AreKeys [] deleted s k = k
remove-AreKeys (name ∷ names) deleted s k = elim (Result-cases (remove_one s name)) [
  | inl (e, refused) ↦ rw (refused, remove) k
  | inr (s', removed) ↦
      rw (removed, remove)
        (remove-AreKeys names (deleted ++ name ∷ []) s' (remove_one_sound s s' name k removed).0)
]

pub update_default-AreKeys :
    (s s' : SigningKeys) (name : String) → AreKeys s → update_default s name ≡ ok s' → AreKeys s'
unfolding update_default
update_default-AreKeys s s' name k h =
    let (u, named, h1) = >>=-eq-ok (guard (not (name == "")) name_empty) _ h in
    let (w, there, h2) = >>=-eq-ok (guard (contains_isser is s.keys name) (no_key name)) _ h1 in
    subst AreKeys (ok_inj h2) (record {
      named = k.named;
      distinct = k.distinct;
      default_there = λ d e.
          subst (λ n. contains (names_of s.keys) n ≡ true) (some_inj e)
            (sym (contains_isser-names s.keys name)
              ∙ guard-eq-ok (contains_isser is s.keys name) _ there);
    })
