-- ===== src/TrustPolicy/Level/Laws.antt =====
-- verifier/trustpolicy/trustpolicy.go: what the levels of `GetVerificationLevel` enforce.
use notation_go_lib.Base.{
  String, ◌≡◌, refl, ◌≢◌, ◌⊎◌, inl, inr, Option, none, some, List, [], ◌∷◌, arith, ◌==◌, ok, ok_inj,
  some_inj, Result-cases, All, if◌then◌else◌, Bool-cases, Option-cases,
}
use mathlib.Core.Path.{subst}
use notation_go_lib.TrustPolicy.Level.{
  ValidationType, integrity, authenticity, authentic_timestamp, expiry, revocation,
  ValidationAction, enforce, skip, VerificationLevel, level_skip, verification_levels,
  SignatureVerification, set_action, pick_level, check_override, apply_overrides, customize,
  get_verification_level,
}

-- What no override may change: integrity is enforced, and of the other types only revocation may
-- be skipped.
pub record IsGuarded (m : ValidationType → ValidationAction) : Type 0 where
  pub integrity_enforced : m integrity ≡ enforce
  pub authenticity_kept : m authenticity ≢ skip
  pub timestamp_kept : m authentic_timestamp ≢ skip
  pub expiry_kept : m expiry ≢ skip

-- An accepted override does not concern integrity, and skips nothing but revocation.
check_override_sound :
    (key value : String) (t : ValidationType) (a : ValidationAction)
    → check_override key value ≡ ok (t, a)
    → (t ≢ integrity) × ((t ≡ revocation) ⊎ (a ≢ skip))
unfolding check_override
check_override_sound key value t a h = ground arith

set_action-IsGuarded :
    (t : ValidationType) (a : ValidationAction) (m : ValidationType → ValidationAction)
    → (t ≢ integrity) × ((t ≡ revocation) ⊎ (a ≢ skip))
    → IsGuarded m
    → IsGuarded (set_action t a m)
set_action-IsGuarded integrity a m h g = absurd (h.0 refl)
set_action-IsGuarded _ a m h g = ground arith

apply_overrides-IsGuarded :
    (os : List (String × String)) (m m' : ValidationType → ValidationAction)
    → IsGuarded m
    → apply_overrides os m ≡ ok m'
    → IsGuarded m'
unfolding apply_overrides
apply_overrides-IsGuarded [] m m' g h = subst IsGuarded (ok_inj h) g
apply_overrides-IsGuarded ((key, value) ∷ rest) m m' g h =
    elim (Result-cases (check_override key value)) [
      | inl (e, refused) ↦ cc (rw (refused, apply_overrides) at h)
      | inr (p, allowed) ↦
          apply_overrides-IsGuarded rest (set_action p.0 p.1 m) m'
            (set_action-IsGuarded p.0 p.1 m (check_override_sound key value p.0 p.1 allowed) g)
            (rw (allowed, apply_overrides) at h)
    ]

-- A level that is found is one of the list, or the one found before.
module _ (P : VerificationLevel → Type 0) where
  pick_level-All :
      (name : String) (found : Option VerificationLevel) (ls : List VerificationLevel)
      (l : VerificationLevel)
      → ((k : VerificationLevel) → found ≡ some k → P k)
      → All P ls
      → pick_level name found ls ≡ some l
      → P l
  unfolding pick_level
  pick_level-All name found [] l old all h = old l h
  pick_level-All name found (k ∷ ls) l old (p, all) h =
      pick_level-All name (if k.name == name then some k else found) ls l
        (λ j e. elim (Bool-cases (k.name == name)) [
          | inl same ↦ subst P (some_inj (rw same at e)) p
          | inr other ↦ old j (rw other at e)
        ])
        all h

-- Each of the four levels is "skip", or guarded.
pick_level-IsGuarded :
    (name : String) (l : VerificationLevel)
    → pick_level name none verification_levels ≡ some l
    → (l ≡ level_skip) ⊎ IsGuarded l.enforcement
pick_level-IsGuarded name l h =
    pick_level-All (λ k. (k ≡ level_skip) ⊎ IsGuarded k.enforcement) name none verification_levels l
      (λ k e. cc) (inr (ground arith), (inr (ground arith), (inr (ground arith), (inl refl, tt)))) h

customize-IsGuarded :
    (base l : VerificationLevel) (os : List (String × String))
    → (base ≡ level_skip) ⊎ IsGuarded base.enforcement
    → customize base os ≡ ok l
    → (l ≡ level_skip) ⊎ IsGuarded l.enforcement
unfolding customize
customize-IsGuarded base l [] g h = ground arith
customize-IsGuarded base l (o ∷ rest) (inl e) h =
    let refused = subst (λ k. customize k (o ∷ rest) ≡ ok l) e h in cc
customize-IsGuarded base l (o ∷ rest) (inr g) h =
    elim (Result-cases (apply_overrides (o ∷ rest) base.enforcement)) [
      | inl (e, refused) ↦ ground arith
      | inr (m, applied) ↦
          let same : m ≡ l.enforcement = ground arith in
          inr (
            subst IsGuarded same
              (apply_overrides-IsGuarded (o ∷ rest) base.enforcement m g applied))
    ]

-- A level that `get_verification_level` returns is "skip", or it enforces integrity and skips no
-- type but revocation, whatever the statement's overrides.
pub get_verification_level-IsGuarded :
    (sv : SignatureVerification) (l : VerificationLevel)
    → get_verification_level sv ≡ ok l
    → (l ≡ level_skip) ⊎ IsGuarded l.enforcement
unfolding get_verification_level
get_verification_level-IsGuarded sv l h =
    elim (Option-cases (pick_level sv.level none verification_levels)) [
      | inl missing ↦ ground arith
      | inr (base, found) ↦
          customize-IsGuarded base l sv.override (pick_level-IsGuarded sv.level base found)
            (ground arith)
    ]
