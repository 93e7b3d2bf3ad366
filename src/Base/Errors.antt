-- ===== src/Base/Errors.antt =====
-- A call that returns or raises. The constructors of `Exception` are the exceptions of Python that
-- the modelled code raises, and `out_of_fuel` for a loop that was cut off.
use mathlib.Core.Path.{◌≡◌, refl, ap}
use mathlib.Core.Logic.{◌≢◌}
use mathlib.Core.Bool.{Bool, true, false}
use mathlib.Core.Option.{Option, none, some}
use native.Mathlib.Omega.{arith}

pub data Exception : Type 0 where
  value_error key_error index_error assertion_error zero_division_error type_error out_of_fuel :
      Exception

pub data Result {ℓ} (V : Type ℓ) : Type ℓ where
  err : Exception → Result V
  ok : V → Result V

-- A call whose value the rest of the code goes on with.
infixl 5 ◌>>=◌ ◌>>◌
abbrev pub ◌>>=◌ {ℓ κ} : {V : Type ℓ} {W : Type κ} → Result V → (V → Result W) → Result W
err raised >>= rest = err raised
ok value >>= rest = rest value

-- `if not b: raise e`
abbrev pub require : Bool → Exception → Result (Unit {0})
require true e = ok tt
require false e = err e

-- `if b: raise e`
abbrev pub raise_if : Bool → Exception → Result (Unit {0})
raise_if true e = err e
raise_if false e = ok tt

-- A check whose value is not used.
abbrev pub ◌>>◌ {ℓ} : {W : Type ℓ} → Result (Unit {0}) → Result W → Result W
check >> rest = check >>= λ unused. rest

-- A value that is missing raises.
abbrev pub or_raise {ℓ} : {A : Type ℓ} → Option A → Exception → Result A
or_raise none e = err e
or_raise (some a) e = ok a

-- The call returns, and its value satisfies `P`.
abbrev pub Returns {ℓ} : {A : Type ℓ} → Result A → (A → Type 0) → Type 0
Returns (ok a) P = P a
Returns (err e) P = ⊥

-- Inversion of a successful bind, for proofs where the parts stay shut.
pub >>=-eq-ok {ℓ κ} :
    {V : Type ℓ} {W : Type κ} (call : Result V) (rest : V → Result W) {w : W}
    → (call >>= rest) ≡ ok w
    → (v : V) × (call ≡ ok v) × (rest v ≡ ok w)
>>=-eq-ok (err raised) rest h = cc
>>=-eq-ok (ok value) rest h = (value, refl, h)

pub or_raise-eq-ok {ℓ} :
    {A : Type ℓ} (o : Option A) (e : Exception) {a : A} → or_raise o e ≡ ok a → o ≡ some a
or_raise-eq-ok none e h = cc
or_raise-eq-ok (some a) e h = ground arith

pub require-eq-ok : (b : Bool) (e : Exception) {u : Unit {0}} → require b e ≡ ok u → b ≡ true
require-eq-ok true e h = refl
require-eq-ok false e h = cc

abbrev value_or {ℓ} : {A : Type ℓ} → A → Result A → A
value_or d (ok a) = a
value_or d (err e) = d

pub ok-injective {ℓ} : {A : Type ℓ} {a b : A} → ok a ≡ ok b → a ≡ b
ok-injective {a = a} h = ap (value_or a) h

abbrev error_or {ℓ} : {V : Type ℓ} → Exception → Result V → Exception
error_or d (err raised) = raised
error_or d (ok value) = d

pub err-injective {ℓ} : {V : Type ℓ} {e f : Exception} → ◌≡◌ {A = Result V} (err e) (err f) → e ≡ f
err-injective {e = e} h = ap (error_or e) h

-- A lookup of its own never runs out of fuel, so what comes after it decides.
pub or_raise-in_time {ℓ κ} :
    {V : Type ℓ} {W : Type κ} (found : Option V) (e : Exception) (rest : V → Result W)
    → e ≢ out_of_fuel
    → ((v : V) → found ≡ some v → rest v ≢ err out_of_fuel)
    → (or_raise found e >>= rest) ≢ err out_of_fuel
or_raise-in_time none e rest other h = λ p. other (err-injective p)
or_raise-in_time (some v) e rest other h = h v refl

pub >>=-in_time {ℓ κ} :
    {V : Type ℓ} {W : Type κ} (call : Result V) (rest : V → Result W)
    → call ≢ err out_of_fuel
    → ((v : V) → rest v ≢ err out_of_fuel)
    → (call >>= rest) ≢ err out_of_fuel
>>=-in_time (err raised) rest h k = λ p. h (ap err (err-injective p))
>>=-in_time (ok value) rest h k = k value
