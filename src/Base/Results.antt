-- ===== src/Base/Results.antt =====
-- Results of Go functions that return a value and an error: the value where the error is nil.
use mathlib.Core.Path.{◌≡◌, refl, ap, ◌∙◌}
use mathlib.Core.Option.{some}
use mathlib.Core.Logic.{◌⊎◌, inl, inr}
use mathlib.Core.Bool.{Bool, true, false}

pub data Result (E A : Type 0) : Type 0 where
  err : E → Result E A
  ok : A → Result E A

-- `if err != nil { return wrap(err) }`
abbrev pub wrap_err : {E F A : Type 0} → (E → F) → Result E A → Result F A
wrap_err wrap (err failure) = err (wrap failure)
wrap_err wrap (ok value) = ok value

-- `if err != nil { return err }`, and what follows with the value.
infixl 5 ◌>>=◌ ◌>>◌
abbrev pub ◌>>=◌ : {E A B : Type 0} → Result E A → (A → Result E B) → Result E B
err failure >>= follow = err failure
ok value >>= follow = follow value

-- `if !b { return e }`
abbrev pub guard : {E : Type 0} → Bool → E → Result E (Unit {0})
guard false failure = err failure
guard true failure = ok tt

abbrev pub ◌>>◌ : {E B : Type 0} → Result E (Unit {0}) → Result E B → Result E B
first >> second = first >>= λ done. second

pub >>=-eq-ok :
    {E A B : Type 0} (first : Result E A) (follow : A → Result E B) {result : B}
    → first >>= follow ≡ ok result
    → (value : A) × (first ≡ ok value) × (follow value ≡ ok result)
>>=-eq-ok (err failure) follow h = cc
>>=-eq-ok (ok value) follow h = (value, refl, h)

pub ok_inj : {E A : Type 0} {a b : A} → ◌≡◌ {A = Result E A} (ok a) (ok b) → a ≡ b
ok_inj h = cc

pub >>=-ok :
    {E A B : Type 0} (first : Result E A) (follow : A → Result E B) {value : A}
    {result : Result E B}
    → first ≡ ok value
    → follow value ≡ result
    → first >>= follow ≡ result
>>=-ok (ok a) follow h k = ap follow (ok_inj h) ∙ k
>>=-ok (err e) follow h k = cc

pub guard-ok : {E : Type 0} (b : Bool) (e : E) → b ≡ true → guard b e ≡ ok tt
guard-ok true e h = refl
guard-ok false e h = cc

pub guard-eq-ok : {E : Type 0} (b : Bool) (e : E) {u : Unit {0}} → guard b e ≡ ok u → b ≡ true
guard-eq-ok true e h = refl
guard-eq-ok false e h = cc

pub wrap_err-eq-ok :
    {E F A : Type 0} (w : E → F) (m : Result E A) {a : A} → wrap_err w m ≡ ok a → m ≡ ok a
wrap_err-eq-ok w (ok a) h = cc
wrap_err-eq-ok w (err e) h = cc

pub Result-cases :
    {E A : Type 0} (r : Result E A) → ((e : E) × (r ≡ err e)) ⊎ ((a : A) × (r ≡ ok a))
Result-cases (err e) = inl (e, refl)
Result-cases (ok a) = inr (a, refl)

pub some_inj {ℓ} : {A : Type ℓ} {a b : A} → some a ≡ some b → a ≡ b
some_inj h = cc
