-- ===== src/Base/State.antt =====
-- Code that changes an object and can throw: what it throws leaves the changes made so far.
use Prim.Native.String.{String}
use mathlib.Core.Path.{◌≡◌, refl, ap, fun_ext}
use mathlib.Core.Bool.{Bool, true, false}
use exasol_gateway_sdk.Errors.{ErrorCategory, protocol_error}
use exasol_gateway_sdk.Base.Outcome.{Result, ok, err, fault}
use exasol_gateway_sdk.Base.Outcome

abbrev pub Action {ℓ} : Type 0 → Type ℓ → Type ℓ
Action S A = S → Result A × S

abbrev pub pure {ℓ} : {S : Type 0} {A : Type ℓ} → A → Action S A
pure a s = (ok a, s)

-- What follows an action, given its outcome and the object that it left.
abbrev pub and_then {ℓ κ} :
    {S : Type 0} {A : Type ℓ} {B : Type κ} → Result A × S → (A → Action S B) → Result B × S
and_then (ok a, s) f = f a s
and_then (err e, s) f = (err e, s)
and_then (fault, s) f = (fault, s)

infixl 5 ◌>>=◌ ◌>>◌
abbrev pub ◌>>=◌ {ℓ κ} :
    {S : Type 0} {A : Type ℓ} {B : Type κ} → Action S A → (A → Action S B) → Action S B
◌>>=◌ m f s = and_then (m s) f

abbrev pub ◌>>◌ {ℓ} : {S : Type 0} {B : Type ℓ} → Action S (Unit {0}) → Action S B → Action S B
m >> k = m >>= λ _. k

abbrev pub get : {S : Type 0} → Action S S
get s = (ok s, s)

abbrev pub put : {S : Type 0} → S → Action S (Unit {0})
put t s = (ok tt, t)

abbrev pub modify : {S : Type 0} → (S → S) → Action S (Unit {0})
modify f s = (ok tt, f s)

-- Code that does not touch the object.
abbrev pub lift {ℓ} : {S : Type 0} {A : Type ℓ} → Result A → Action S A
lift r s = (r, s)

abbrev pub throw {ℓ} : {S : Type 0} {A : Type ℓ} → ErrorCategory → String → Action S A
throw c t = lift (Outcome.throw c t)

abbrev pub require : {S : Type 0} → Bool → String → Action S (Unit {0})
require b t = lift (Outcome.require b t)

-- The laws of actions, at the outcome of the first.
pub and_then_assoc {ℓ κ μ} :
    {S : Type 0} {A : Type ℓ} {B : Type κ} {C : Type μ} (r : Result A × S) (f : A → Action S B)
    (g : B → Action S C)
    → and_then (and_then r f) g ≡ and_then r (λ a s. and_then (f a s) g)
and_then_assoc (ok a, s) f g = refl
and_then_assoc (err e, s) f g = refl
and_then_assoc (fault, s) f g = refl

pub and_then-pure : {S : Type 0} (r : Result (Unit {0}) × S) → and_then r (λ _. pure tt) ≡ r
and_then-pure (ok tt, s) = refl
and_then-pure (err e, s) = refl
and_then-pure (fault, s) = refl

pub and_then_ext {ℓ κ} :
    {S : Type 0} {A : Type ℓ} {B : Type κ} (r : Result A × S) {f g : A → Action S B}
    → ((a : A) (s : S) → f a s ≡ g a s)
    → and_then r f ≡ and_then r g
and_then_ext r h = ap (and_then r) (fun_ext λ a. fun_ext λ s. h a s)

-- A test that fails, and one that holds.
pub refused_lem {κ} :
    {S : Type 0} {B : Type κ} (b : Bool) (t : String) (s : S) (f : Unit {0} → Action S B)
    → b ≡ false
    → and_then (Outcome.require b t, s) f ≡ (Outcome.throw protocol_error t, s)
refused_lem true t s f h = cc
refused_lem false t s f h = refl

pub passed_lem {κ} :
    {S : Type 0} {B : Type κ} (b : Bool) (t : String) (s : S) (f : Unit {0} → Action S B)
    → b ≡ true
    → and_then (Outcome.require b t, s) f ≡ f tt s
passed_lem true t s f h = refl
passed_lem false t s f h = cc
