-- ===== src/TrustPolicy/Level.antt =====
-- verifier/trustpolicy/trustpolicy.go: validation types and actions, the four verification levels,
-- and `GetVerificationLevel`. A Go map is the list of its entries in the order of one iteration.
pub mod Laws
use notation_go_lib.Base.{
  String, Bool, true, false, ◌&&◌, ◌||◌, Option, none, some, List, [], ◌∷◌, ◌==◌, if◌then◌else◌,
  all, Result, ok, err, ◌>>=◌, ◌>>◌, guard, not,
}

pub data ValidationType : Type 0 where
  integrity authenticity authentic_timestamp expiry revocation : ValidationType

pub data ValidationAction : Type 0 where
  enforce log skip : ValidationAction

-- The string values of the constants.
abbrev pub type_name : ValidationType → String
type_name integrity = "integrity"
type_name authenticity = "authenticity"
type_name authentic_timestamp = "authenticTimestamp"
type_name expiry = "expiry"
type_name revocation = "revocation"

abbrev pub action_name : ValidationAction → String
action_name enforce = "enforce"
action_name log = "log"
action_name skip = "skip"

abbrev pub action_eq : ValidationAction → ValidationAction → Bool
action_eq enforce enforce = true
action_eq log log = true
action_eq skip skip = true
action_eq _ _ = false

abbrev pub type_eq : ValidationType → ValidationType → Bool
type_eq integrity integrity = true
type_eq authenticity authenticity = true
type_eq authentic_timestamp authentic_timestamp = true
type_eq expiry expiry = true
type_eq revocation revocation = true
type_eq _ _ = false

-- The map has an entry for each type on every level, so it is a function.
pub record VerificationLevel : Type 0 where
  pub name : String
  pub enforcement : ValidationType → ValidationAction

abbrev pub strict_actions : ValidationType → ValidationAction
strict_actions t = enforce

abbrev pub permissive_actions : ValidationType → ValidationAction
permissive_actions integrity = enforce
permissive_actions authenticity = enforce
permissive_actions _ = log

abbrev pub audit_actions : ValidationType → ValidationAction
audit_actions integrity = enforce
audit_actions _ = log

abbrev pub skip_actions : ValidationType → ValidationAction
skip_actions t = skip

abbrev pub level_strict : VerificationLevel
level_strict = record { name = "strict"; enforcement = strict_actions }

abbrev pub level_permissive : VerificationLevel
level_permissive = record { name = "permissive"; enforcement = permissive_actions }

abbrev pub level_audit : VerificationLevel
level_audit = record { name = "audit"; enforcement = audit_actions }

abbrev pub level_skip : VerificationLevel
level_skip = record { name = "skip"; enforcement = skip_actions }

abbrev pub validation_types : List ValidationType
validation_types = integrity ∷ authenticity ∷ authentic_timestamp ∷ expiry ∷ revocation ∷ []

abbrev pub validation_actions : List ValidationAction
validation_actions = enforce ∷ log ∷ skip ∷ []

abbrev pub verification_levels : List VerificationLevel
verification_levels = level_strict ∷ level_permissive ∷ level_audit ∷ level_skip ∷ []

-- `VerifyTimestamp` holds "", "always" or "afterCertExpiry" in a valid statement.
pub record SignatureVerification : Type 0 where
  pub level : String
  pub override : List (String × String)
  pub verify_timestamp : String

pub data LevelError : Type 0 where
  level_empty : LevelError
  level_invalid level_not_customizable : String → LevelError
  type_unsupported action_unsupported : String → LevelError
  integrity_overridden not_skippable : String → LevelError

-- The loop that looks for the base level: the last level of that name.
pick_level : String → Option VerificationLevel → List VerificationLevel → Option VerificationLevel
pick_level wanted found [] = found
pick_level wanted found (l ∷ rest) =
    pick_level wanted (if l.name == wanted then some l else found) rest

-- The loops that look for the validation type and action: the first one of that name.
find_type : String → List ValidationType → Option ValidationType
find_type key [] = none
find_type key (t ∷ rest) = if type_name t == key then some t else find_type key rest

find_action : String → List ValidationAction → Option ValidationAction
find_action value [] = none
find_action value (a ∷ rest) = if action_name a == value then some a else find_action value rest

abbrev pub required : {A : Type 0} → Option A → LevelError → Result LevelError A
required none e = err e
required (some a) e = ok a

-- The tests on one override, in order; the type and the action that it sets.
check_override : String → String → Result LevelError (ValidationType × ValidationAction)
unfolding find_type find_action
check_override key value = do
  t ← required (find_type key validation_types) (type_unsupported key)
  a ← required (find_action value validation_actions) (action_unsupported value)
  guard (not (type_eq t integrity)) (integrity_overridden key)
  guard (type_eq t revocation || not (action_eq a skip)) (not_skippable key)
  ok (t, a)

abbrev pub set_action :
    ValidationType
    → ValidationAction
    → (ValidationType → ValidationAction)
    → ValidationType
    → ValidationAction
set_action t a m u = if type_eq t u then a else m u

-- The loop over the map of overrides.
apply_overrides :
    List (String × String)
    → (ValidationType → ValidationAction)
    → Result LevelError (ValidationType → ValidationAction)
apply_overrides [] m = ok m
apply_overrides ((key, value) ∷ rest) m = elim (check_override key value) [
  | err e ↦ err e
  | ok p ↦ apply_overrides rest (set_action p.0 p.1 m)
]

-- What follows once the base level is found. `baseLevel == LevelSkip` compares pointers into the
-- four levels, whose names differ.
customize : VerificationLevel → List (String × String) → Result LevelError VerificationLevel
unfolding apply_overrides
customize base [] = ok base
customize base (o ∷ rest) = do
  guard (not (base.name == level_skip.name)) (level_not_customizable base.name)
  m ← apply_overrides (o ∷ rest) base.enforcement
  ok (record { name = "custom"; enforcement = m })

-- `GetVerificationLevel`.
unfoldable pub get_verification_level : SignatureVerification → Result LevelError VerificationLevel
unfolding pick_level customize check_override
get_verification_level sv = do
  guard (not (sv.level == "")) level_empty
  base ← required (pick_level sv.level none verification_levels) (level_invalid sv.level)
  customize base sv.override

-- `reflect.DeepEqual(level, LevelSkip)`: the same name and the same action for every type.
unfoldable pub is_level_skip : VerificationLevel → Bool
is_level_skip l =
    l.name == level_skip.name
    && all (λ t. action_eq (l.enforcement t) (level_skip.enforcement t)) validation_types
