-- ===== src/Session/Ids.antt =====
-- The ids of the requests, as a connection sees them.
use exasol_gateway_sdk.Errors.{Error}
use mathlib.Core.Path.{subst}
use exasol_gateway_sdk.Base.{
  ℕ, zero, suc, ◌+◌, ◌%◌, ◌^◌, List, [], ◌∷◌, ◌++◌, Bool, true, false, ◌≡◌, refl, ap, ap₂, ◌∙◌,
  arith, Bool-cases, inl, inr, Result,
}
use exasol_gateway_sdk.Base.Outcome.{ok, err, fault}
use exasol_gateway_sdk.Base.State.{Action, and_then}
use exasol_gateway_sdk.Frame.{Frame}
use exasol_gateway_sdk.Frame.Message.{MessageType}
use exasol_gateway_sdk.Frame.Message
use exasol_gateway_sdk.Session.{Arrow}
use exasol_gateway_sdk.Session.Request.{
  Connection, Impl, onto, on_connection, rethrown, uncertain_outcome, exchange, request,
  close_session, hello_capabilities, greet, connect, connected, reading,
}
use exasol_gateway_sdk.Capabilities.{empty}
use exasol_gateway_sdk.Session.Calls.{Call, run_all}
use exasol_gateway_sdk.Session.Traverse.{Told, Contract}
use exasol_gateway_sdk.Session.Traverse.Run.{run-Ends}
use exasol_gateway_sdk.Session.Closed.{
  request-closed, request-exchange, close_session-closed, close_session-request,
}

-- An outcome next to a log.
abbrev pub beside {ℓ} : {C : Type 0} {A : Type ℓ} → List ℕ → Result A × C → Result A × (C × List ℕ)
beside log (r, c) = (r, (c, log))

-- A connection that keeps a log of the ids that frames are sent with.
unfoldable pub logged : {C : Type 0} → Connection C → Connection (C × List ℕ)
logged net = record {
  enter_session_gateway = λ s. beside s.1 (net.enter_session_gateway s.0);
  send_frame = λ type id payload s. beside (s.1 ++ id ∷ []) (net.send_frame type id payload s.0);
  receive_frame = λ id s. beside s.1 (net.receive_frame id s.0);
  close = λ s. beside s.1 (net.close s.0);
}

-- The ids of the first `count` requests, on 64 bits.
unfoldable pub ids : ℕ → List ℕ
ids zero = []
ids (suc count) = ids count ++ (suc count % 2 ^ 64) ∷ []

module _ {C : Type 0} where
  -- The log and the id to come, after `count` requests.
  abbrev pub IsNumbered : Impl (C × List ℕ) → Type 0
  IsNumbered s =
      (count : ℕ) × (s.connection.1 ≡ ids count) × (s.next_request_id ≡ (count + 1) % 2 ^ 64)

  Logs : List ℕ → ℕ → Impl (C × List ℕ) → Type 0
  Logs log next s = (s.connection.1 ≡ log) × (s.next_request_id ≡ next)

  and_then-kept {ℓ κ} :
      {A : Type ℓ} {B : Type κ} (log : List ℕ) (next : ℕ) (r : Result A × Impl (C × List ℕ))
      (f : A → Action (Impl (C × List ℕ)) B)
      → Logs log next r.1
      → ((a : A) (s : Impl (C × List ℕ)) → Logs log next s → Logs log next (f a s).1)
      → Logs log next (and_then r f).1
  and_then-kept log next (ok a, s) f h k = k a s h
  and_then-kept log next (err e, s) f h k = h
  and_then-kept log next (fault, s) f h k = h

  rethrown-kept {ℓ} :
      {A : Type ℓ} (log : List ℕ) (next : ℕ) (handler : Error → Error)
      (r : Result A × Impl (C × List ℕ))
      → Logs log next r.1
      → Logs log next (rethrown handler r).1
  rethrown-kept log next handler (ok a, s) h = h
  rethrown-kept log next handler (err e, s) h = h
  rethrown-kept log next handler (fault, s) h = h

  module _ (net : Connection C) where
    exchange-logged :
        (type : MessageType) (id : ℕ) (payload : List ℕ) (expected : MessageType)
        (s : Impl (C × List ℕ))
        → Logs
            (s.connection.1 ++ id ∷ [])
            s.next_request_id
            (exchange (logged net) type id payload expected s).1
    unfolding exchange logged Logs
    exchange-logged type id payload expected s =
        and_then-kept _ _ (onto s (beside _ (net.send_frame type id payload s.connection.0))) _
          (refl, refl)
          λ _ t h.
            and_then-kept _ _ (onto t (beside _ (net.receive_frame id t.connection.0))) _ h
              λ _ v k. k

    request-IsNumbered :
        (type : MessageType) (payload : List ℕ) (expected : MessageType) (u : Bool)
        (s : Impl (C × List ℕ))
        → IsNumbered s
        → IsNumbered (request (logged net) type payload expected u s).1
    unfolding ids Logs
    request-IsNumbered type payload expected u s (count, log, next) = elim (Bool-cases s.closed) [
      | inl closed ↦
          rw (request-closed (logged net) type payload expected u s closed) (count, log, next)
      | inr opened ↦ rw (request-exchange (logged net) type payload expected u s opened) (
          let (sent, then) = rethrown-kept _ _ (uncertain_outcome u s.next_request_id) _ (
            exchange-logged type s.next_request_id payload expected
              (record s { next_request_id = (s.next_request_id + 1) % 2 ^ 64 })) in
          (
            suc count,
            sent ∙ ap₂ (λ (t : List ℕ) (n : ℕ). t ++ n ∷ []) log (next ∙ counted),
            then ∙ ap (λ (n : ℕ). (n + 1) % 2 ^ 64) next ∙ wrapped,
          ))
    ]
      where
        counted : (count + 1) % 2 ^ 64 ≡ suc count % 2 ^ 64
        counted = omega arith

        wrapped : ((count + 1) % 2 ^ 64 + 1) % 2 ^ 64 ≡ (suc count + 1) % 2 ^ 64
        wrapped = omega arith

    close-IsNumbered :
        (s : Impl (C × List ℕ)) → IsNumbered s → IsNumbered (close_session (logged net) s).1
    unfolding logged
    close-IsNumbered s h = elim (Bool-cases s.closed) [
      | inl closed ↦ rw (close_session-closed (logged net) s closed) h
      | inr opened ↦ rw (close_session-request (logged net) s opened) (
          disconnected (request (logged net) Message.close [] Message.ok false s)
            (request-IsNumbered Message.close [] Message.ok false s h))
    ]
      where
        disconnected :
            (r : Result Frame × Impl (C × List ℕ))
            → IsNumbered r.1
            → IsNumbered
                (and_then r
                  (λ _ t. on_connection ((logged net).close) (record t { closed = true }))).1
        disconnected (ok a, t) k = k
        disconnected (err e, t) k = k
        disconnected (fault, t) k = k

    and_then-IsNumbered {ℓ κ} :
        {A : Type ℓ} {B : Type κ} (r : Result A × Impl (C × List ℕ))
        (f : A → Action (Impl (C × List ℕ)) B)
        → IsNumbered r.1
        → ((a : A) (s : Impl (C × List ℕ)) → IsNumbered s → IsNumbered (f a s).1)
        → IsNumbered (and_then r f).1
    and_then-IsNumbered (ok a, s) f h k = k a s h
    and_then-IsNumbered (err e, s) f h k = h
    and_then-IsNumbered (fault, s) f h k = h

    greet-IsNumbered : (s : Impl (C × List ℕ)) → IsNumbered s → IsNumbered (greet (logged net) s).1
    unfolding greet logged
    greet-IsNumbered s h =
        and_then-IsNumbered (onto s (beside _ (net.enter_session_gateway s.connection.0))) _ h
          λ _ t h.
            and_then-IsNumbered (request (logged net) Message.hello [] Message.hello_ok false t) _
              (request-IsNumbered Message.hello [] Message.hello_ok false t h)
              λ hello v h.
                and_then-IsNumbered (reading (hello_capabilities hello.payload v.capabilities) v) _
                  h λ _ w h. h

    -- What a session is before HELLO, and what `connect` returns.
    abbrev started : C → Impl (C × List ℕ)
    started c = record {
      connection = (c, []);
      capabilities = empty;
      next_request_id = 1;
      closed = false;
    }

    connected-IsNumbered :
        (r : Result (Unit {0}) × Impl (C × List ℕ)) (s : Impl (C × List ℕ))
        → IsNumbered r.1
        → connected (logged net) r ≡ ok s
        → IsNumbered s
    connected-IsNumbered (ok u, t) s h e = subst IsNumbered (returned e) h
      where
        returned : ◌≡◌ {A = Result (Impl (C × List ℕ))} (ok t) (ok s) → t ≡ s
        returned same = cc
    connected-IsNumbered (err x, t) s h e = cc
    connected-IsNumbered (fault, t) s h e = cc

    told {ℓ} :
        {A : Type ℓ} (u : Bool) (r : Result A) → Told IsNumbered (λ _ _. Unit {0}) (Unit {0}) u r
    told u (ok a) = tt
    told u (err e) = tt
    told u fault = tt

    module _ {Schema RecordBatch : Type 0} (arrow : Arrow Schema RecordBatch) where
      numbering : Contract IsNumbered (λ _ _. Unit {0}) (Unit {0}) (logged net)
      numbering = record {
        own = λ u e h. tt;
        asked = λ type payload expected u s h. (
          request-IsNumbered type payload expected u s h,
          told u (request (logged net) type payload expected u s).0,
        );
        closing = λ s h. (close-IsNumbered s h, told false (close_session (logged net) s).0);
      }

      run_all-IsNumbered :
          (calls : List (Call Schema)) (s : Impl (C × List ℕ))
          → IsNumbered s
          → IsNumbered (run_all (logged net) arrow calls s)
      unfolding run_all
      run_all-IsNumbered [] s h = h
      run_all-IsNumbered (call ∷ calls) s h =
          run_all-IsNumbered calls _ (run-Ends _ _ _ (logged net) arrow numbering call s h).0

      -- The frames of a session are sent with the ids 1, 2, 3 and so on, modulo 2 ^ 64: from the
      -- session that `connect` returns over a connection that sent nothing yet, any sequence of calls,
      -- whatever each returns or throws, leaves a log of the first `count` ids, of HELLO and of the
      -- calls, for some `count`, and the id to come is the next one.
      pub run_all-ids :
          (calls : List (Call Schema)) (c : C) (s : Impl (C × List ℕ))
          → connect (logged net) (ok (c, [])) ≡ ok s
          → (count : ℕ) × ((run_all (logged net) arrow calls s).connection.1 ≡ ids count)
            × ((run_all (logged net) arrow calls s).next_request_id ≡ (count + 1) % 2 ^ 64)
      unfolding ids connect
      run_all-ids calls c s opened = run_all-IsNumbered calls s (
          connected-IsNumbered (greet (logged net) (started c)) s
            (greet-IsNumbered (started c) (0, refl, omega arith)) opened)
