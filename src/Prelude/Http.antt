-- ===== src/Prelude/Http.antt =====
-- The result of a request: a value, or one of the framework's exceptions. The texts of the
-- messages carry no logic and are left out.
use mathlib.Core.Bool.{Bool, true, false}
use mathlib.Core.Path.{◌≡◌, refl}
use mathlib.Core.Logic.{◌⊎◌, inl, inr}
use coffee_shop_be.Prelude.Tests.{if◌then◌else◌}
use mathlib.Core.Option.{Option, none, some}

pub data HttpError : Type 0 where
  unauthorized bad_request forbidden not_found conflict internal : HttpError

pub data Result {ℓ} (A : Type ℓ) : Type ℓ where
  ok : A → Result A
  err : HttpError → Result A

infixl 5 ◌>>=◌ ◌>>◌
abbrev pub ◌>>=◌ {ℓ κ} : {A : Type ℓ} {B : Type κ} → Result A → (A → Result B) → Result B
err thrown >>= next = err thrown
ok value >>= next = next value

abbrev pub ◌>>◌ {ℓ} : {B : Type ℓ} → Result (Unit {0}) → Result B → Result B
check >> next = check >>= λ _. next

-- `if (!test) throw e`.
abbrev pub guard : Bool → HttpError → Result (Unit {0})
guard false thrown = err thrown
guard true thrown = ok tt

-- `if (test) throw e`.
abbrev pub throw_if : Bool → HttpError → Result (Unit {0})
throw_if true e = err e
throw_if false e = ok tt

abbrev pub or_throw : {A : Type 0} → Option A → HttpError → Result A
or_throw none e = err e
or_throw (some a) e = ok a

-- Inversion of a successful step, where the later steps stay shut.
pub >>=-eq_ok :
    {A B : Type 0} (step : Result A) (next : A → Result B) {last : B}
    → (step >>= next) ≡ ok last
    → (value : A) × (step ≡ ok value) × (next value ≡ ok last)
>>=-eq_ok (err thrown) next e = cc
>>=-eq_ok (ok value) next e = (value, refl, e)

pub or_throw-eq_ok :
    {A B : Type 0} (o : Option A) (e : HttpError) (k : A → Result B) {b : B}
    → (or_throw o e >>= k) ≡ ok b
    → (a : A) × (o ≡ some a) × (k a ≡ ok b)
or_throw-eq_ok none e k h = cc
or_throw-eq_ok (some a) e k h = (a, refl, h)

pub or_throw-some :
    {A : Type 0} (o : Option A) (e : HttpError) {a : A} → or_throw o e ≡ ok a → o ≡ some a
or_throw-some none e h = cc
or_throw-some (some a) e h = cc

pub guard-eq_ok :
    {B : Type 0} (test : Bool) (e : HttpError) (k : Result B) {b : B}
    → (guard test e >> k) ≡ ok b
    → (test ≡ true) × (k ≡ ok b)
guard-eq_ok true e k h = (refl, h)
guard-eq_ok false e k h = cc

pub throw_if-eq_ok :
    {B : Type 0} (test : Bool) (e : HttpError) (k : Result B) {b : B}
    → (throw_if test e >> k) ≡ ok b
    → (test ≡ false) × (k ≡ ok b)
throw_if-eq_ok true e k h = cc
throw_if-eq_ok false e k h = (refl, h)

-- The branch that a result comes from.
pub if-eq_ok :
    {A : Type 0} (test : Bool) (yes_branch no_branch : Result A) {a : A}
    → (if test then yes_branch else no_branch) ≡ ok a
    → ((test ≡ true) × (yes_branch ≡ ok a)) ⊎ ((test ≡ false) × (no_branch ≡ ok a))
if-eq_ok true yes_branch no_branch e = inl (refl, e)
if-eq_ok false yes_branch no_branch e = inr (refl, e)

pub ok_injective : {A : Type 0} {a b : A} → ok a ≡ ok b → a ≡ b
ok_injective e = cc

pub Result-cases :
    {A : Type 0} (r : Result A) → ((e : HttpError) × (r ≡ err e)) ⊎ ((a : A) × (r ≡ ok a))
Result-cases (ok a) = inr (a, refl)
Result-cases (err e) = inl (e, refl)
