-- ===== src/Session/Request.antt =====
-- src/session.cpp: `Session::Impl`, the requests. The connection is an interface, which the class
-- `WebSocketConnection` implements: an object of some type and three operations on it.
use exasol_gateway_sdk.Errors.{
  Error, transport_error, outcome_unknown, underlying, received, outcome_of_request,
}
use exasol_gateway_sdk.Base.{
  ℕ, zero, suc, ◌+◌, ◌%◌, ◌^◌, List, [], Bool, true, false, ◌&&◌, not, Result, err, fault, ◌==◌,
  if◌then◌else◌,
}
use exasol_gateway_sdk.Base.Outcome.{ok}
use exasol_gateway_sdk.Base.State.{Action, pure, ◌>>=◌, ◌>>◌, get, put, modify, lift, require}
use exasol_gateway_sdk.Capabilities.{Capabilities, add, empty}
use exasol_gateway_sdk.Frame.{Frame, protocol_version_v1}
use exasol_gateway_sdk.Frame.Message.{MessageType}
use exasol_gateway_sdk.Frame.Message
use exasol_gateway_sdk.Session.Codec.{
  Reading, Writing, read_u16, read_string16, ensure_consumed, decode_error_category,
}

pub record Connection (C : Type 0) : Type 0 where
  pub enter_session_gateway : Action C (Unit {0})
  pub send_frame : MessageType → ℕ → List ℕ → Action C (Unit {0})
  pub receive_frame : ℕ → Action C Frame
  pub close : Action C (Unit {0})

pub record Impl (C : Type 0) : Type 0 where
  pub connection : C
  pub capabilities : Capabilities
  pub next_request_id : ℕ
  pub closed : Bool

abbrev pub Requesting {ℓ} : Type 0 → Type ℓ → Type ℓ
Requesting C A = Action (Impl C) A

-- A payload is read from its start, and written into an empty vector.
abbrev pub reading {ℓ} : {S : Type 0} {A : Type ℓ} → Reading A → Action S A
reading read = lift (read 0).0

abbrev pub written : Result (Unit {0}) × List ℕ → Result (List ℕ)
written (ok u, out) = ok out
written (err e, out) = err e
written (fault, out) = fault

abbrev pub writing : {S : Type 0} → Writing → Action S (List ℕ)
writing write = lift (written (write []))

-- `catch (const Error&)` of a block that rethrows.
abbrev pub rethrown {ℓ} : {S : Type 0} {A : Type ℓ} → (Error → Error) → Result A × S → Result A × S
rethrown handler (ok a, s) = (ok a, s)
rethrown handler (err e, s) = (err (handler e), s)
rethrown handler (fault, s) = (fault, s)

-- The handler: with `uncertain_on_transport`, a transport error means that the outcome is unknown.
unfoldable pub uncertain_outcome : Bool → ℕ → Error → Error
uncertain_outcome uncertain_on_transport request_id error =
    if uncertain_on_transport && underlying error.category == underlying transport_error
    then record { category = outcome_unknown; message = outcome_of_request request_id }
    else error

-- An error that the server reports.
unfoldable pub server_error : List ℕ → Reading Frame
server_error payload = do
  category ← read_u16 payload
  message ← read_string16 payload
  ensure_consumed payload
  lift (err (record { category = decode_error_category category; message = received message }))

module _ {C : Type 0} where
  abbrev pub onto {ℓ} : {A : Type ℓ} → Impl C → Result A × C → Result A × Impl C
  onto s (r, c) = (r, record s { connection = c })

  abbrev pub on_connection {ℓ} : {A : Type ℓ} → Action C A → Requesting C A
  on_connection m s = onto s (m s.connection)

-- What is made of a response: the reading of an error payload, or the test of the type.
unfoldable pub check_response : Frame → MessageType → Reading Frame
check_response response expected =
    if response.header.message_type == Message.error then server_error response.payload else (do
      require (response.header.message_type == expected) "unexpected SessionGW response type"
      pure response)

-- The loop over the capabilities of HELLO_OK.
unfoldable pub add_read : ℕ → List ℕ → Capabilities → Reading Capabilities
add_read zero payload self = pure self
add_read (suc count) payload self = do
  capability ← read_u16 payload
  add_read count payload (add capability self)

-- The payload of HELLO_OK: the version and the capabilities of the server.
unfoldable pub hello_capabilities : List ℕ → Capabilities → Reading Capabilities
hello_capabilities payload self = do
  version ← read_u16 payload
  require (version == protocol_version_v1) "unsupported SessionGW protocol version"
  count ← read_u16 payload
  capabilities ← add_read count payload self
  ensure_consumed payload
  pure capabilities

module _ {C : Type 0} (net : Connection C) where
  -- The block under `try`.
  unfoldable pub exchange : MessageType → ℕ → List ℕ → MessageType → Requesting C Frame
  exchange type request_id payload expected = do
    on_connection (net.send_frame type request_id payload)
    response ← on_connection (net.receive_frame request_id)
    reading (check_response response expected)

  unfoldable pub request : MessageType → List ℕ → MessageType → Bool → Requesting C Frame
  request type payload expected uncertain_on_transport = do
    self ← get
    require (not self.closed) "SessionGW session is closed"
    put (record self { next_request_id = (self.next_request_id + 1) % 2 ^ 64 })
    λ s.
        rethrown (uncertain_outcome uncertain_on_transport self.next_request_id)
          (exchange type self.next_request_id payload expected s)

  -- `Session::connect` from the connection on that the log-in returned.
  unfoldable pub greet : Requesting C (Unit {0})
  greet = do
    on_connection net.enter_session_gateway
    hello ← request Message.hello [] Message.hello_ok false
    self ← get
    capabilities ← reading (hello_capabilities hello.payload self.capabilities)
    modify (λ (s : Impl C). record s { capabilities = capabilities })

  abbrev pub connected : Result (Unit {0}) × Impl C → Result (Impl C)
  connected (fault, s) = fault
  connected (err e, s) = err e
  connected (ok u, s) = ok s

  unfoldable pub connect : Result C → Result (Impl C)
  connect logged_in = elim logged_in [
    | fault ↦ fault
    | err e ↦ err e
    | ok c ↦ connected (
        greet
          (record { connection = c; capabilities = empty; next_request_id = 1; closed = false }))
  ]

  -- `Session::close`.
  unfoldable pub close_session : Requesting C (Unit {0})
  close_session s =
      if s.closed
      then (ok tt, s)
      else (do
        _ ← request Message.close [] Message.ok false
        modify (λ (t : Impl C). record t { closed = true })
        on_connection net.close)
          s

  -- `catch (...)` around the connection's `close`.
  abbrev pub swallowed {ℓ} : {S : Type 0} {A : Type ℓ} → Result A × S → Result (Unit {0}) × S
  swallowed (ok a, s) = (ok tt, s)
  swallowed (err e, s) = (ok tt, s)
  swallowed (fault, s) = (fault, s)

  abbrev pub or_disconnect : Result (Unit {0}) × Impl C → Result (Unit {0}) × Impl C
  or_disconnect (ok u, s) = (ok u, s)
  or_disconnect (err e, s) = swallowed (on_connection net.close s)
  or_disconnect (fault, s) = (fault, s)

  -- The destructor of `Session`.
  unfoldable pub destroy : Requesting C (Unit {0})
  destroy s = if s.closed then (ok tt, s) else or_disconnect (close_session s)
