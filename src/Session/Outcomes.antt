-- ===== src/Session/Outcomes.antt =====
-- Which errors the operations of a session throw, and that they read nothing out of range.
use exasol_gateway_sdk.Errors.{Error, outcome_unknown}
use exasol_gateway_sdk.Base.{
  ℕ, List, [], Bool, true, false, ◌==◌, ◌≡◌, refl, ap, sym, ◌⊎◌, arith, Bool-cases, inl, inr,
  Result, IsSafe,
}
use exasol_gateway_sdk.Base.Outcome.{ok, err, fault}
use exasol_gateway_sdk.Base.State.{and_then}
use exasol_gateway_sdk.Base.Judged.{IsJudged, is_wire, and_then-IsJudged, checked-IsJudged}
use exasol_gateway_sdk.Frame.{Frame}
use exasol_gateway_sdk.Frame.Message.{MessageType}
use exasol_gateway_sdk.Frame.Message
use exasol_gateway_sdk.Session.{Arrow}
use exasol_gateway_sdk.Session.Codec.{decode_error_category}
use exasol_gateway_sdk.Session.Reads.{
  read_u16-IsJudged, read_string16-IsJudged, ensure_consumed-IsJudged,
}
use exasol_gateway_sdk.Session.Request.{
  Connection, Impl, onto, on_connection, rethrown, uncertain_outcome, server_error, check_response,
  exchange, request, close_session,
}
use exasol_gateway_sdk.Session.Calls.{Call, run}
use exasol_gateway_sdk.Session.Traverse.{Told, Contract, is_completion}
use exasol_gateway_sdk.Session.Traverse.Run.{run-Ends}
use exasol_gateway_sdk.Session.Closed.{
  request-closed, request-exchange, close_session-closed, close_session-request,
}

decode_error_category-is_wire : (v : ℕ) → is_wire (decode_error_category v) ≡ true
unfolding decode_error_category
decode_error_category-is_wire v = ground arith

server_error-IsJudged : (payload : List ℕ) (o : ℕ) → IsJudged (server_error payload o).0
unfolding server_error
server_error-IsJudged payload o =
    and_then-IsJudged _ _ (read_u16-IsJudged payload o) λ category a _.
      and_then-IsJudged _ _ (read_string16-IsJudged payload a) λ message b _.
        and_then-IsJudged _ _ (ensure_consumed-IsJudged payload b)
          λ _ c _. decode_error_category-is_wire category

check_response-IsJudged :
    (response : Frame) (expected : MessageType) (o : ℕ)
    → IsJudged (check_response response expected o).0
unfolding check_response
check_response-IsJudged response expected o =
    elim (Bool-cases (response.header.message_type == Message.error)) [
      | inl failed ↦ rw failed (server_error-IsJudged response.payload o)
      | inr answered ↦
          rw answered (checked-IsJudged (response.header.message_type == expected) _ o _ λ _. tt)
    ]

module _ {C : Type 0} (net : Connection C) where
  -- What the operations of a connection do, whatever its state: they return or throw an error of a
  -- category of the protocol.
  pub record IsTransport : Type 0 where
    pub sends :
        (type : MessageType) (id : ℕ) (payload : List ℕ) (c : C)
        → IsJudged (net.send_frame type id payload c).0
    pub receives : (id : ℕ) (c : C) → IsJudged (net.receive_frame id c).0
    pub disconnects : (c : C) → IsJudged (net.close c).0

  module _ (transport : IsTransport) where
    exchange-IsJudged :
        (type : MessageType) (id : ℕ) (payload : List ℕ) (expected : MessageType) (s : Impl C)
        → IsJudged (exchange net type id payload expected s).0
    unfolding exchange
    exchange-IsJudged type id payload expected s =
        and_then-IsJudged (onto s (net.send_frame type id payload s.connection)) _
          (transport.sends type id payload s.connection)
          λ _ t _.
            and_then-IsJudged (onto t (net.receive_frame id t.connection)) _
              (transport.receives id t.connection)
              λ response v _. check_response-IsJudged response expected 0

    -- A completion request may also throw `OUTCOME_UNKNOWN`.
    abbrev IsExpected : Bool → Error → Type 0
    IsExpected u e = (is_wire e.category ≡ true) ⊎ (u ≡ true)

    Told-wire {ℓ} :
        {A : Type ℓ} (u : Bool) (r : Result A)
        → IsJudged r
        → Told (λ (s : Impl C). Unit {0}) IsExpected ⊥ u r
    Told-wire u (ok a) h = tt
    Told-wire u (err e) h = inl h
    Told-wire u fault h = h

    rethrown_wire :
        (u : Bool) (id : ℕ) (r : Result Frame × Impl C)
        → IsJudged r.0
        → Told (λ (s : Impl C). Unit {0}) IsExpected ⊥ u (rethrown (uncertain_outcome u id) r).0
    unfolding uncertain_outcome
    rethrown_wire u id (ok a, s) h = tt
    rethrown_wire true id (err e, s) h = inr refl
    rethrown_wire false id (err e, s) h = inl h
    rethrown_wire u id (fault, s) h = h

    request_wire :
        (type : MessageType) (payload : List ℕ) (expected : MessageType) (u : Bool) (s : Impl C)
        → Told (λ (t : Impl C). Unit {0}) IsExpected ⊥ u (request net type payload expected u s).0
    request_wire type payload expected u s = elim (Bool-cases s.closed) [
      | inl closed ↦ rw (request-closed net type payload expected u s closed) (inl refl)
      | inr opened ↦ rw (request-exchange net type payload expected u s opened) (
          rethrown_wire u s.next_request_id _
            (exchange-IsJudged type s.next_request_id payload expected _))
    ]

    close_wire :
        (s : Impl C) → Told (λ (t : Impl C). Unit {0}) IsExpected ⊥ false (close_session net s).0
    close_wire s = elim (Bool-cases s.closed) [
      | inl closed ↦ rw (close_session-closed net s closed) tt
      | inr opened ↦ rw (close_session-request net s opened) (
          disconnected (request net Message.close [] Message.ok false s)
            (request_wire Message.close [] Message.ok false s))
    ]
      where
        disconnected :
            (r : Result Frame × Impl C)
            → Told (λ (t : Impl C). Unit {0}) IsExpected ⊥ false r.0
            → Told
                (λ (t : Impl C). Unit {0})
                IsExpected
                ⊥
                false
                (and_then r (λ _ t. on_connection net.close (record t { closed = true }))).0
        disconnected (ok a, t) h = Told-wire false _ (transport.disconnects t.connection)
        disconnected (err e, t) h = h
        disconnected (fault, t) h = h

    module _ {Schema RecordBatch : Type 0} (arrow : Arrow Schema RecordBatch) where
      reporting : Contract (λ (t : Impl C). Unit {0}) IsExpected ⊥ net
      reporting = record {
        own = λ u e h. inl h;
        asked = λ type payload expected u s _. (tt, request_wire type payload expected u s);
        closing = λ s _. (tt, close_wire s);
      }

      -- No operation of a session reads out of range or leaves a payload, whatever the server sends,
      -- if the operations of the connection do not: it returns or throws.
      pub run-IsSafe : (call : Call Schema) (s : Impl C) → IsSafe (run net arrow call s).0
      run-IsSafe call s =
          safe (is_completion call) (run net arrow call s).0
            (run-Ends _ _ _ net arrow reporting call s tt).1
        where
          safe :
              (u : Bool) (r : Result (Unit {0}))
              → Told (λ (t : Impl C). Unit {0}) IsExpected ⊥ u r
              → IsSafe r
          safe u (ok a) h = tt
          safe u (err e) h = tt
          safe u fault h = h

      -- Only a commit or the closing of a table operation throws `OUTCOME_UNKNOWN`: another call
      -- does not, whatever the server sends, if the operations of the connection do not.
      pub run_unknown :
          (call : Call Schema) (s : Impl C) (e : Error)
          → (run net arrow call s).0 ≡ err e
          → e.category ≡ outcome_unknown
          → is_completion call ≡ true
      run_unknown call s e thrown unknown =
          completed (is_completion call) (run net arrow call s).0
            (run-Ends _ _ _ net arrow reporting call s tt).1 thrown
        where
          thrown_same : (d : Error) → ◌≡◌ {A = Result (Unit {0})} (err d) (err e) → d ≡ e
          thrown_same d same = cc

          wire_not : is_wire e.category ≡ true → ⊥
          wire_not h = ground (arith, h, ap is_wire unknown)

          completed :
              (u : Bool) (r : Result (Unit {0}))
              → Told (λ (t : Impl C). Unit {0}) IsExpected ⊥ u r
              → r ≡ err e
              → u ≡ true
          completed u (ok a) h same = cc
          completed u (err d) (inr completion) same = completion
          completed u (err d) (inl h) same = absurd (wire_not (rw (sym (thrown_same d same)) h))
          completed u fault h same = cc
