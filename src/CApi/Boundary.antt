-- ===== src/CApi/Boundary.antt =====
-- src/c_api.cpp: no exported function lets an exception out or follows a null pointer, and one that
-- fails stores nothing.
use Prim.Native.String.{String}
use exasol_gateway_sdk.Base.{
  Option, none, some, Bool, true, false, not, ◌&&◌, ◌≡◌, refl, ap, ◌∙◌, Result, ok, err, fault,
  IsSafe,
}
use exasol_gateway_sdk.Base.Outcome
use exasol_gateway_sdk.Base.State.{Action, and_then}
use exasol_gateway_sdk.Base.Ensures.{Ensures}
use exasol_gateway_sdk.Session.Request.{Impl, Requesting}
use exasol_gateway_sdk.Session.Calls.{forget}
use exasol_gateway_sdk.CApi.Arguments.{is_null}
use exasol_gateway_sdk.CApi.Functions.{arguments, session_argument}
use exasol_gateway_sdk.CApi.Handles.{Objects, back, through, on_session, stored, store, pointee}

pub forget-IsSafe {ℓ} : {A : Type ℓ} (r : Result A) → IsSafe (forget r) → IsSafe r
forget-IsSafe (ok a) h = tt
forget-IsSafe (err e) h = tt
forget-IsSafe fault h = h

module _ {C O : Type 0} (o : Objects C O) where
  -- It fails with what stands at `out` as it was, and returns only if there is a session.
  abbrev pub IsDone {ℓ} : {A : Type ℓ} → Result A × Objects C O → Type 0
  IsDone = Ensures (λ _ _. is_null o.session ≡ false) (λ _ s. s.out ≡ o.out)

  -- The pointers were tested, and nothing was stored yet.
  pub record Ready (s : Objects C O) : Type 0 where
    pub same : s.out ≡ o.out
    pub still : is_null s.session ≡ false
    pub opened : is_null o.session ≡ false

  pub lifted-IsDone {ℓ κ} :
      {A : Type ℓ} {B : Type κ} (r : Result A) (s : Objects C O) (f : A → Action (Objects C O) B)
      → Ready s
      → IsSafe r
      → ((a : A) → IsDone (f a s))
      → IsDone (and_then (r, s) f)
  lifted-IsDone (ok a) s f ready h k = k a
  lifted-IsDone (err e) s f ready h k = ready.same
  lifted-IsDone fault s f ready h k = absurd h

  pub on_session-IsDone {ℓ κ} :
      {A : Type ℓ} {B : Type κ} (m : Requesting C A) (s : Objects C O)
      (f : A → Action (Objects C O) B)
      → Ready s
      → ((t : Impl C) → IsSafe (m t).0)
      → ((a : A) (s : Objects C O) → Ready s → IsDone (f a s))
      → IsDone (and_then (on_session m s) f)
  unfolding on_session
  on_session-IsDone {A} {B} m s f ready h k = through_done s.session ready.still
    where
      back_done : (r : Result A × Impl C) → IsSafe r.0 → IsDone (and_then (back s r) f)
      back_done (ok a, t) h =
          k a _ (record { same = ready.same; still = refl; opened = ready.opened })
      back_done (err e, t) h = ready.same
      back_done (fault, t) h = h

      through_done :
          (session : Option (Impl C))
          → is_null session ≡ false
          → IsDone (and_then (through s session m) f)
      through_done none there = cc
      through_done (some t) there = back_done (m t) (h t)

  pub store-IsDone :
      (value : O) (s : Objects C O) → Ready s → is_null o.out ≡ false → IsDone (store value s)
  unfolding store
  store-IsDone value s ready there = stored_done s.out (ap is_null ready.same ∙ there)
    where
      stored_done : (old : Option O) → is_null old ≡ false → IsDone (stored s old value)
      stored_done none there = cc
      stored_done (some old) there = ready.opened

  -- The tests of the pointers.
  pub arguments-IsDone :
      (others : Bool) (message : String) (f : Unit {0} → Action (Objects C O) (Unit {0}))
      → (Ready o → is_null o.out ≡ false → others ≡ true → IsDone (f tt o))
      → IsDone (and_then (arguments others message o) f)
  unfolding arguments
  arguments-IsDone others message f k =
      tested (is_null o.session) (is_null o.out) others
        λ a b. k (record { same = refl; still = a; opened = a }) b
    where
      tested :
          (a b c : Bool)
          → (a ≡ false → b ≡ false → c ≡ true → IsDone (f tt o))
          → IsDone (and_then (Outcome.require (not a && (not b && c)) message, o) f)
      tested false false true k = k refl refl refl
      tested false false false k = refl
      tested false true c k = refl
      tested true b c k = refl

  pub session_argument-IsDone :
      (message : String) (f : Unit {0} → Action (Objects C O) (Unit {0}))
      → (Ready o → IsDone (f tt o))
      → IsDone (and_then (session_argument message o) f)
  unfolding session_argument
  session_argument-IsDone message f k =
      tested (is_null o.session) λ a. k (record { same = refl; still = a; opened = a })
    where
      tested :
          (a : Bool)
          → (a ≡ false → IsDone (f tt o))
          → IsDone (and_then (Outcome.require (not a) message, o) f)
      tested false k = k refl
      tested true k = refl

  -- What the session returns is stored.
  pub asked-IsDone {ℓ} :
      {A : Type ℓ} (m : Requesting C A) (value : A → O)
      → Ready o
      → is_null o.out ≡ false
      → ((t : Impl C) → IsSafe (forget (m t).0))
      → IsDone (and_then (on_session m o) (λ a. store (value a)))
  asked-IsDone m value ready there safe =
      on_session-IsDone m o _ ready (λ t. forget-IsSafe (m t).0 (safe t))
        λ a s kept. store-IsDone (value a) s kept there

  pub session_last-IsDone :
      (m : Requesting C (Unit {0}))
      → Ready o
      → ((t : Impl C) → IsSafe (m t).0)
      → IsDone (on_session m o)
  unfolding on_session
  session_last-IsDone m ready h = through_done o.session ready.still
    where
      back_done : (r : Result (Unit {0}) × Impl C) → IsSafe r.0 → IsDone (back o r)
      back_done (ok a, t) h = ready.opened
      back_done (err e, t) h = refl
      back_done (fault, t) h = h

      through_done :
          (session : Option (Impl C)) → is_null session ≡ false → IsDone (through o session m)
      through_done none there = cc
      through_done (some t) there = back_done (m t) (h t)

pub pointee-IsSafe {ℓ} : {A : Type ℓ} (p : Option A) → is_null p ≡ false → IsSafe (pointee p)
pointee-IsSafe none h = cc
pointee-IsSafe (some a) h = tt
