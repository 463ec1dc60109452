-- ===== src/Base/Judged.antt =====
-- Outcomes whose errors have a category that a server may send, and which never leave the data of
-- the code.
use mathlib.Core.Path.{◌≡◌, refl}
use mathlib.Core.Bool.{Bool, true, false}
use Prim.Native.String.{String}
use exasol_gateway_sdk.Errors.{ErrorCategory, outcome_unknown}
use exasol_gateway_sdk.Base.Outcome.{Result, ok, err, fault}
use exasol_gateway_sdk.Base.Outcome
use exasol_gateway_sdk.Base.Outcome.{◌>>=◌, throw}
use exasol_gateway_sdk.Base.Tests.{if◌then◌else◌}
use exasol_gateway_sdk.Base.State.{Action, and_then}

-- Any category but the client's own `OUTCOME_UNKNOWN`.
abbrev pub is_wire : ErrorCategory → Bool
is_wire outcome_unknown = false
is_wire _ = true

-- The code returns, or throws an error of such a category; it reads nothing out of range.
abbrev pub IsJudged {ℓ} : {A : Type ℓ} → Result A → Type 0
IsJudged (ok a) = Unit {0}
IsJudged (err e) = is_wire e.category ≡ true
IsJudged fault = ⊥

module _ {ℓ κ} {S : Type 0} {A : Type ℓ} {B : Type κ} where
  pub and_then-IsJudged :
      (r : Result A × S) (f : A → Action S B)
      → IsJudged r.0
      → ((a : A) (s : S) → r ≡ (ok a, s) → IsJudged (f a s).0)
      → IsJudged (and_then r f).0
  and_then-IsJudged (ok a, s) f h k = k a s refl
  and_then-IsJudged (err e, s) f h k = h
  and_then-IsJudged (fault, s) f h k = absurd h

  -- The same after code that does not touch the object.
  pub lifted-IsJudged :
      (r : Result A) (s : S) (f : A → Action S B)
      → IsJudged r
      → ((a : A) → r ≡ ok a → IsJudged (f a s).0)
      → IsJudged (and_then (r, s) f).0
  lifted-IsJudged (ok a) s f h k = k a refl
  lifted-IsJudged (err e) s f h k = h
  lifted-IsJudged fault s f h k = absurd h

pub require-IsJudged : (b : Bool) (t : String) → IsJudged (Outcome.require b t)
require-IsJudged true t = tt
require-IsJudged false t = refl

-- After a test, the test holds.
pub checked-IsJudged {κ} :
    {S : Type 0} {B : Type κ} (b : Bool) (t : String) (s : S) (f : Unit {0} → Action S B)
    → (b ≡ true → IsJudged (f tt s).0)
    → IsJudged (and_then (Outcome.require b t, s) f).0
checked-IsJudged true t s f k = k refl
checked-IsJudged false t s f k = refl

-- What an action returned, its first part returned.
pub and_then-eq-ok {ℓ κ} :
    {S : Type 0} {A : Type ℓ} {B : Type κ} (r : Result A × S) (f : A → Action S B) {b : B} {t : S}
    → and_then r f ≡ (ok b, t)
    → (a : A) × (s : S) × (r ≡ (ok a, s)) × (f a s ≡ (ok b, t))
and_then-eq-ok (ok a, s) f h = (a, s, refl, h)
and_then-eq-ok (err e, s) f h = cc
and_then-eq-ok (fault, s) f h = cc

pub checked-eq-ok {κ} :
    {S : Type 0} {B : Type κ} (b : Bool) (text : String) (s : S) (f : Unit {0} → Action S B) {v : B}
    {t : S}
    → and_then (Outcome.require b text, s) f ≡ (ok v, t)
    → (b ≡ true) × (f tt s ≡ (ok v, t))
checked-eq-ok true text s f h = (refl, h)
checked-eq-ok false text s f h = cc

-- The same for code without an object.
pub followed_by-IsJudged {ℓ κ} :
    {A : Type ℓ} {B : Type κ} (r : Result A) (f : A → Result B)
    → IsJudged r
    → ((a : A) → IsJudged (f a))
    → IsJudged (r >>= f)
followed_by-IsJudged (ok a) f h k = k a
followed_by-IsJudged (err e) f h k = h
followed_by-IsJudged fault f h k = h

pub if-IsJudged {ℓ} :
    {A : Type ℓ} (b : Bool) (c : ErrorCategory) (message : String) (y : Result A)
    → is_wire c ≡ true
    → (b ≡ false → IsJudged y)
    → IsJudged (if b then throw c message else y)
if-IsJudged true c message y h k = h
if-IsJudged false c message y h k = k refl
