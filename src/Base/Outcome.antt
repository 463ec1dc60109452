-- ===== src/Base/Outcome.antt =====
-- The outcome of code that can throw: a value, a thrown error, or an access out of range, which
-- C++ leaves undefined.
use mathlib.Core.Path.{◌≡◌, refl}
use mathlib.Core.Bool.{Bool, true, false}
use mathlib.Core.Logic.{◌⊎◌, inl, inr}
use Prim.Native.String.{String}
use exasol_gateway_sdk.Errors.{Error, ErrorCategory, protocol_error, text}

pub data Result {ℓ} (A : Type ℓ) : Type ℓ where
  fault : Result A
  err : Error → Result A
  ok : A → Result A

-- What is done with a value; an error goes on to the caller.
abbrev pub followed_by {κ ℓ} : {B : Type κ} {A : Type ℓ} → (A → Result B) → Result A → Result B
followed_by next fault = fault
followed_by next (err thrown) = err thrown
followed_by next (ok value) = next value

infixl 5 ◌>>=◌ ◌>>◌
abbrev pub ◌>>=◌ {κ ℓ} : {B : Type κ} {A : Type ℓ} → Result A → (A → Result B) → Result B
code >>= next = followed_by next code

abbrev pub ◌>>◌ {κ} : {B : Type κ} → Result (Unit {0}) → Result B → Result B
first >> second = followed_by (λ _. second) first

abbrev pub throw {ℓ} : {A : Type ℓ} → ErrorCategory → String → Result A
throw c s = err (record { category = c; message = text s })

-- `require` of src/session.cpp and src/c_api.cpp.
abbrev pub require : Bool → String → Result (Unit {0})
require true s = ok tt
require false s = throw protocol_error s

-- The code did not leave its data.
abbrev pub IsSafe {ℓ} : {A : Type ℓ} → Result A → Type 0
IsSafe (ok a) = Unit {0}
IsSafe (err e) = Unit {0}
IsSafe fault = ⊥

pub >>=-eq-ok {κ ℓ} :
    {B : Type κ} {A : Type ℓ} {result : B} (code : Result A) (next : A → Result B)
    → (code >>= next) ≡ ok result
    → (value : A) × (code ≡ ok value) × (next value ≡ ok result)
>>=-eq-ok (ok value) next returned = (value, refl, returned)
>>=-eq-ok (err thrown) next returned = cc
>>=-eq-ok fault next returned = cc

pub >>=-IsSafe {κ ℓ} :
    {B : Type κ} {A : Type ℓ} (code : Result A) (next : A → Result B)
    → IsSafe code
    → ((value : A) → code ≡ ok value → IsSafe (next value))
    → IsSafe (code >>= next)
>>=-IsSafe (ok value) next safe later = later value refl
>>=-IsSafe (err thrown) next safe later = tt
>>=-IsSafe fault next safe later = absurd safe

pub require-IsSafe : (b : Bool) (s : String) → IsSafe (require b s)
require-IsSafe true s = tt
require-IsSafe false s = tt

pub require-eq-ok : (b : Bool) (s : String) {u : Unit {0}} → require b s ≡ ok u → b ≡ true
require-eq-ok true s h = refl
require-eq-ok false s h = cc

pub Result-cases {ℓ} :
    {A : Type ℓ} (r : Result A) → ((a : A) × (r ≡ ok a)) ⊎ ((e : Error) × (r ≡ err e)) ⊎ (r ≡ fault)
Result-cases (ok a) = inl (a, refl)
Result-cases (err e) = inr (inl (e, refl))
Result-cases fault = inr (inr refl)
