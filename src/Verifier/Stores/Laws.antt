-- ===== src/Verifier/Stores/Laws.antt =====
-- verifier/helpers.go: where the certificates of a policy's trust stores come from.
use mathlib.Core.Path.{subst}
use notation_go_lib.Base.{
  String, ◌≡◌, ◌⊎◌, inl, inr, refl, true, Option, none, some, List, [], ◌∷◌, ◌++◌, ◌==◌, ok, Any,
  Any-append_left, Any-append_right, All, All-append, arith, eq_iff, Bool-cases, Result-cases,
  Option-cases, ok_inj,
}
use notation_go_lib.Text.{cut}
use notation_go_lib.Slices.{contains}
use notation_go_lib.Verifier.Types.{
  Certificate, SigningScheme, x509, signing_authority, other_scheme, Collaborators,
}
use notation_go_lib.Verifier.Stores.{
  load_stores, load_x509_trust_stores_with_type, load_x509_trust_stores,
}

module _ (c : Collaborators) where
  -- The certificate is one that a store of the type, named by the policy, returned.
  pub record IsFrom (type : String) (stores : List String) (cert : Certificate) : Type 0 where
    pub store : String
    pub name : String
    pub found : List Certificate
    pub listed : contains stores store ≡ true
    pub separated : cut ":" store ≡ some (type, name)
    pub returned : c.get_certificates type name ≡ ok found
    pub member : Any (λ x. x ≡ cert) found

  All-from :
      {P : Certificate → Type 0} (xs : List Certificate)
      → ((x : Certificate) → Any (λ y. y ≡ x) xs → P x)
      → All P xs
  All-from [] f = tt
  All-from (x ∷ xs) f = (f x (inl refl), All-from xs (λ y h. f y (inr h)))

  load_stores-IsFrom :
      (type : String) (all rest loaded : List String) (before certs : List Certificate)
      → ((s : String) → contains rest s ≡ true → contains all s ≡ true)
      → All (IsFrom type all) before
      → load_stores c type rest loaded before ≡ ok certs
      → All (IsFrom type all) certs
  unfolding load_stores contains
  load_stores-IsFrom type all [] loaded before certs within old h =
      subst (All (IsFrom type all)) (ok_inj h) old
  load_stores-IsFrom type all (store ∷ rest) loaded before certs within old h =
      elim (Bool-cases (contains loaded store)) [
        | inl again ↦
            load_stores-IsFrom type all rest loaded before certs (λ s k. within s (ground arith))
              old (rw (again, load_stores) at h)
        | inr new ↦ elim (Option-cases (cut ":" store)) [
          | inl bad ↦ cc (rw (new, bad, load_stores) at h)
          | inr ((kind, name), separated) ↦ elim (Bool-cases (type == kind)) [
            | inr other ↦
                load_stores-IsFrom type all rest loaded before certs
                  (λ s k. within s (ground arith)) old
                  (rw (new, separated, other, load_stores) at h)
            | inl same ↦ elim (Result-cases (c.get_certificates type name)) [
              | inl (e, failed) ↦ cc (rw (new, separated, same, failed, load_stores) at h)
              | inr (found, returned) ↦
                  load_stores-IsFrom type all rest (store ∷ loaded) (before ++ found) certs
                    (λ s k. within s (ground arith))
                    (All-append _ before found old (
                      All-from found (λ x m. record {
                        store = store;
                        name = name;
                        found = found;
                        listed = within store (ground (arith, eq_iff store store));
                        separated = ground (arith, eq_iff type kind);
                        returned = returned;
                        member = m;
                      })))
                    (rw (new, separated, same, returned, load_stores) at h)
            ]
          ]
        ]
      ]

  -- The certificates of the store, if it has the type, are all among those given.
  abbrev pub Covers : String → List Certificate → String → Type 0
  Covers type certs store =
      (name : String)
      → cut ":" store ≡ some (type, name)
      → (found : List Certificate) × (c.get_certificates type name ≡ ok found)
        × All (λ x. Any (λ y. y ≡ x) certs) found

  All-weaken :
      {P Q : Certificate → Type 0} (xs : List Certificate)
      → ((x : Certificate) → P x → Q x)
      → All P xs
      → All Q xs
  All-weaken [] f h = tt
  All-weaken (x ∷ xs) f (p, h) = (f x p, All-weaken xs f h)

  Covers-append :
      (type store : String) (certs more : List Certificate)
      → Covers type certs store
      → Covers type (certs ++ more) store
  Covers-append type store certs more k name separated =
      let (found, returned, within) = k name separated in
      (found, returned, All-weaken found (λ x. Any-append_left _ certs more) within)

  load_stores-Covers :
      (type s : String) (rest loaded : List String) (before certs : List Certificate)
      → ((l : String) → contains loaded l ≡ true → Covers type before l)
      → load_stores c type rest loaded before ≡ ok certs
      → (contains loaded s ≡ true) ⊎ (contains rest s ≡ true)
      → Covers type certs s
  unfolding load_stores contains
  load_stores-Covers type s [] loaded before certs old h (inl there) =
      subst (λ x. Covers type x s) (ok_inj h) (old s there)
  load_stores-Covers type s [] loaded before certs old h (inr there) = cc
  load_stores-Covers type s (store ∷ rest) loaded before certs old h there =
      elim (Bool-cases (contains loaded store)) [
        | inl again ↦
            load_stores-Covers type s rest loaded before certs old (rw (again, load_stores) at h)
              (ground (arith, eq_iff s store))
        | inr new ↦ elim (Option-cases (cut ":" store)) [
          | inl bad ↦ cc (rw (new, bad, load_stores) at h)
          | inr ((kind, name), separated) ↦ elim (Bool-cases (type == kind)) [
            | inr other ↦ elim (Bool-cases (s == store)) [
              | inl here ↦ λ n e. absurd (ground (arith, eq_iff s store, eq_iff type kind))
              | inr apart ↦
                  load_stores-Covers type s rest loaded before certs old
                    (rw (new, separated, other, load_stores) at h) (ground arith)
            ]
            | inl same ↦ elim (Result-cases (c.get_certificates type name)) [
              | inl (e, failed) ↦ cc (rw (new, separated, same, failed, load_stores) at h)
              | inr (found, returned) ↦
                  load_stores-Covers type s rest (store ∷ loaded) (before ++ found) certs
                    (covered kind name found separated same returned)
                    (rw (new, separated, same, returned, load_stores) at h) (ground arith)
            ]
          ]
        ]
      ]
    where
      covered :
          (kind name : String) (found : List Certificate)
          → cut ":" store ≡ some (kind, name)
          → (type == kind) ≡ true
          → c.get_certificates type name ≡ ok found
          → (l : String) → contains (store ∷ loaded) l ≡ true
          → Covers type (before ++ found) l
      covered kind name found separated same returned l k = elim (Bool-cases (contains loaded l)) [
        | inl earlier ↦ Covers-append type l before found (old l earlier)
        | inr now ↦ λ n e.
            let named : name ≡ n = ground (arith, eq_iff l store) in
            (
              found,
              subst (λ n. c.get_certificates type n ≡ ok found) named returned,
              All-from found (λ x m. Any-append_right _ before found m),
            )
      ]

  -- The type of the stores that a scheme reads.
  abbrev pub store_type : SigningScheme → Option String
  store_type x509 = some "ca"
  store_type signing_authority = some "signingAuthority"
  store_type (other_scheme s) = none

  -- The certificates that are loaded under a scheme are exactly those of the stores of the policy
  -- that have the scheme's type: each is returned by such a store, and no such store is left out.
  pub load_x509_trust_stores_exact :
      (scheme : SigningScheme) (stores : List String) (certs : List Certificate)
      → load_x509_trust_stores c scheme stores ≡ ok certs
      → (type : String) × (store_type scheme ≡ some type)
        × All (IsFrom type stores) certs
        × ((s : String) → contains stores s ≡ true → Covers type certs s)
  unfolding load_x509_trust_stores load_x509_trust_stores_with_type
  load_x509_trust_stores_exact x509 stores certs h = (
    "ca",
    refl,
    load_stores-IsFrom "ca" stores stores [] [] certs (λ s k. k) tt h,
    λ s k. load_stores-Covers "ca" s stores [] [] certs (λ l e. cc) h (inr k),
  )
  load_x509_trust_stores_exact signing_authority stores certs h = (
    "signingAuthority",
    refl,
    load_stores-IsFrom "signingAuthority" stores stores [] [] certs (λ s k. k) tt h,
    λ s k. load_stores-Covers "signingAuthority" s stores [] [] certs (λ l e. cc) h (inr k),
  )
  load_x509_trust_stores_exact (other_scheme s) stores certs h = cc
