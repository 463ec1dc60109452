-- ===== src/Session/Closed.antt =====
-- A session that was closed.
use exasol_gateway_sdk.Errors.{Error, protocol_error, text}
use exasol_gateway_sdk.Base.{
  ℕ, ◌+◌, ◌%◌, ◌^◌, if_true, if_false, not-true, not-false, List, [], ◌∷◌, Bool, true, false, not,
  ◌≡◌, refl, ap, ◌∙◌,
}
use exasol_gateway_sdk.Base.Outcome.{ok, err}
use exasol_gateway_sdk.Base.State.{and_then, refused_lem, passed_lem}
use exasol_gateway_sdk.Frame.Message.{MessageType}
use exasol_gateway_sdk.Frame.Message
use exasol_gateway_sdk.Session.{Arrow}
use exasol_gateway_sdk.Session.Request.{
  Connection, Impl, request, close_session, exchange, rethrown, uncertain_outcome, on_connection,
}
use exasol_gateway_sdk.Session.Calls.{Call, run_all}
use exasol_gateway_sdk.Session.Traverse.{Contract}
use exasol_gateway_sdk.Session.Traverse.Run.{run-Ends}

abbrev pub session_closed : Error
session_closed = record { category = protocol_error; message = text "SessionGW session is closed" }

module _ {C : Type 0} (net : Connection C) where
  pub request-closed :
      (type : MessageType) (payload : List ℕ) (expected : MessageType) (u : Bool) (s : Impl C)
      → s.closed ≡ true
      → request net type payload expected u s ≡ (err session_closed, s)
  unfolding request
  request-closed type payload expected u s closed =
      refused_lem (not s.closed) "SessionGW session is closed" s _ (not-true s.closed closed)

  -- On an open session, the id is taken and the exchange is made.
  pub request-exchange :
      (type : MessageType) (payload : List ℕ) (expected : MessageType) (u : Bool) (s : Impl C)
      → s.closed ≡ false
      → request net type payload expected u s
        ≡ rethrown (uncertain_outcome u s.next_request_id) (
            exchange net type s.next_request_id payload expected
              (record s { next_request_id = (s.next_request_id + 1) % 2 ^ 64 }))
  unfolding request
  request-exchange type payload expected u s opened =
      passed_lem (not s.closed) "SessionGW session is closed" s _ (not-false s.closed opened)

  pub close_session-closed : (s : Impl C) → s.closed ≡ true → close_session net s ≡ (ok tt, s)
  unfolding close_session
  close_session-closed s closed = if_true s.closed (ok tt, s) _ closed

  -- `close` on an open session: the request, and if it succeeds, the flag and the connection.
  pub close_session-request :
      (s : Impl C)
      → s.closed ≡ false
      → close_session net s
        ≡ and_then
            (request net Message.close [] Message.ok false s)
            (λ _ t. on_connection net.close (record t { closed = true }))
  unfolding close_session
  close_session-request s opened = if_false s.closed (ok tt, s) _ opened

  module _ {Schema RecordBatch : Type 0} (arrow : Arrow Schema RecordBatch) where
    stays : (z : Impl C) → z.closed ≡ true → Contract (λ s. s ≡ z) (λ _ _. Unit {0}) (Unit {0}) net
    stays z closed = record {
      own = λ u e h. tt;
      asked = λ type payload expected u s same.
          rw same (rw (request-closed type payload expected u z closed) (refl, tt));
      closing = λ s same. rw same (rw (close_session-closed z closed) (refl, tt));
    }

    -- Once a session is closed, no call changes anything: the session and its connection, to which
    -- nothing is sent, are as they were, whatever the calls.
    pub run_all-closed :
        (calls : List (Call Schema)) (s : Impl C) → s.closed ≡ true → run_all net arrow calls s ≡ s
    unfolding run_all
    run_all-closed [] s closed = refl
    run_all-closed (call ∷ calls) s closed =
        ap (run_all net arrow calls) (run-Ends _ _ _ net arrow (stays s closed) call s refl).0
        ∙ run_all-closed calls s closed
