-- ===== src/Base/Ensures.antt =====
-- What an action ends with: a predicate for its value and one for its error, and no fault.
use mathlib.Core.Path.{◌≡◌, refl}
use mathlib.Core.Bool.{Bool, true, false}
use exasol_gateway_sdk.Base.Tests.{if◌then◌else◌}
use exasol_gateway_sdk.Errors.{Error, protocol_error, text}
use Prim.Native.String.{String}
use exasol_gateway_sdk.Base.Outcome
use exasol_gateway_sdk.Base.Outcome.{Result, ok, err, fault}
use exasol_gateway_sdk.Base.State.{Action, and_then}

abbrev pub Ensures {ℓ} :
    {S : Type 0} {A : Type ℓ} → (A → S → Type 0) → (Error → S → Type 0) → Result A × S → Type 0
Ensures P E (ok a, s) = P a s
Ensures P E (err e, s) = E e s
Ensures P E (fault, s) = ⊥

module _ {ℓ κ} {S : Type 0} {A : Type ℓ} {B : Type κ} where
  -- The rule of a sequence: `P` and `E` for its first part, `Q` and `F` for the whole.
  pub and_then-Ensures :
      (P : A → S → Type 0) (E : Error → S → Type 0) (Q : B → S → Type 0) (F : Error → S → Type 0)
      (r : Result A × S) (f : A → Action S B)
      → Ensures P E r
      → ((e : Error) (s : S) → E e s → F e s)
      → ((a : A) (s : S) → P a s → Ensures Q F (f a s))
      → Ensures Q F (and_then r f)
  and_then-Ensures P E Q F (ok a, s) f h thrown rest = rest a s h
  and_then-Ensures P E Q F (err e, s) f h thrown rest = thrown e s h
  and_then-Ensures P E Q F (fault, s) f h thrown rest = absurd h

module _ {ℓ} {S : Type 0} {A : Type ℓ} where
  pub Ensures-mono :
      (P Q : A → S → Type 0) (E F : Error → S → Type 0) (r : Result A × S)
      → Ensures P E r
      → ((e : Error) (s : S) → E e s → F e s)
      → ((a : A) (s : S) → P a s → Q a s)
      → Ensures Q F r
  Ensures-mono P Q E F (ok a, s) h thrown rest = rest a s h
  Ensures-mono P Q E F (err e, s) h thrown rest = thrown e s h
  Ensures-mono P Q E F (fault, s) h thrown rest = absurd h

  pub if-Ensures :
      (P : A → S → Type 0) (E : Error → S → Type 0) (b : Bool) (x y : Result A × S)
      → (b ≡ true → Ensures P E x)
      → (b ≡ false → Ensures P E y)
      → Ensures P E (if b then x else y)
  if-Ensures P E true x y h k = h refl
  if-Ensures P E false x y h k = k refl

  -- The same for two actions.
  pub branch-Ensures :
      (P : A → S → Type 0) (E : Error → S → Type 0) (b : Bool) (f g : Action S A) (s : S)
      → (b ≡ true → Ensures P E (f s))
      → (b ≡ false → Ensures P E (g s))
      → Ensures P E ((if b then f else g) s)
  branch-Ensures P E true f g s h k = h refl
  branch-Ensures P E false f g s h k = k refl

-- A test, and what follows if it holds.
pub require-Ensures {κ} :
    {S : Type 0} {B : Type κ} (Q : B → S → Type 0) (F : Error → S → Type 0) (b : Bool) (t : String)
    (s : S) (f : Unit {0} → Action S B)
    → (b ≡ false → F (record { category = protocol_error; message = text t }) s)
    → (b ≡ true → Ensures Q F (f tt s))
    → Ensures Q F (and_then (Outcome.require b t, s) f)
require-Ensures Q F true t s f failed rest = rest refl
require-Ensures Q F false t s f failed rest = failed refl

module _ {κ} {S : Type 0} {A : Type 0} {B : Type κ} where
  -- Code that does not touch the object.
  pub lifted-Ensures :
      (Q : B → S → Type 0) (F : Error → S → Type 0) (r : Result A) (s : S) (f : A → Action S B)
      → Ensures (λ (a : A) (_ : S). r ≡ ok a) F (r, s)
      → ((a : A) → r ≡ ok a → Ensures Q F (f a s))
      → Ensures Q F (and_then (r, s) f)
  lifted-Ensures Q F (ok a) s f h rest = rest a refl
  lifted-Ensures Q F (err e) s f h rest = h
  lifted-Ensures Q F fault s f h rest = absurd h
