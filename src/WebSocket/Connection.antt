-- ===== src/WebSocket/Connection.antt =====
-- src/websocket.cpp: the operations on a connection that `Session` uses, which fill its interface.
use exasol_gateway_sdk.Errors.{Error, protocol_error, ids_differ}
use exasol_gateway_sdk.Base.{ℕ, List, ◌==◌, length, if◌then◌else◌, Result, err, fault}
use exasol_gateway_sdk.Base.Outcome.{ok}
use exasol_gateway_sdk.Base.Texts.{codes}
use exasol_gateway_sdk.Base.State.{Action, pure, ◌>>=◌, ◌>>◌, lift}
use exasol_gateway_sdk.Frame.{Frame}
use exasol_gateway_sdk.Frame.Decode.{decode_frame}
use exasol_gateway_sdk.Session.Request.{Connection}
use exasol_gateway_sdk.WebSocket.{WebSocketConnection, Platform}
use exasol_gateway_sdk.WebSocket.Json.{require_status_ok}
use exasol_gateway_sdk.WebSocket.Transport.{plus, started, count_since, close}
use exasol_gateway_sdk.WebSocket.Send.{send_text, send_frame}
use exasol_gateway_sdk.WebSocket.Receive.{receive_binary}

module _ {W : Type 0} (os : Platform W) where
  -- `catch (...)` of a block that closes the connection and throws the same error again.
  abbrev pub thrown_again {ℓ} :
      {A : Type ℓ}
      → Error
      → Result (Unit {0}) × WebSocketConnection W
      → Result A × WebSocketConnection W
  thrown_again e (ok u, s) = (err e, s)
  thrown_again e (err e', s) = (err e', s)
  thrown_again e (fault, s) = (fault, s)

  abbrev pub or_close {ℓ} :
      {A : Type ℓ} → Result A × WebSocketConnection W → Result A × WebSocketConnection W
  or_close (ok a, s) = (ok a, s)
  or_close (err e, s) = thrown_again e (close os s)
  or_close (fault, s) = (fault, s)

  unfoldable pub receive_text : Action (WebSocketConnection W) (List ℕ)
  receive_text self = or_close (receive_binary os 0x01 self)

  unfoldable pub decode_received : Action (WebSocketConnection W) Frame
  decode_received = do
    bytes ← receive_binary os 0x02
    start ← started os
    frame ← lift (decode_frame bytes)
    count_since os start (λ ns s. record s {
      sessiongw_frame_decode_nanoseconds = plus (s.sessiongw_frame_decode_nanoseconds) ns;
      sessiongw_frames_received = plus (s.sessiongw_frames_received) 1;
      sessiongw_payload_bytes_received =
          plus (s.sessiongw_payload_bytes_received) (length (frame.payload));
    })
    pure frame

  -- `receiveFrame()`.
  unfoldable pub receive_any_frame : Action (WebSocketConnection W) Frame
  receive_any_frame self = or_close (decode_received self)

  -- `receiveFrame(expected_request_id)`.
  unfoldable pub receive_frame : ℕ → Action (WebSocketConnection W) Frame
  receive_frame expected_request_id = do
    frame ← receive_any_frame
    if frame.header.request_id == expected_request_id then pure frame else (do
      close os
      lift (
          err (record {
            category = protocol_error;
            message = ids_differ (frame.header.request_id) expected_request_id;
          })))

  unfoldable pub send_json_command : List ℕ → Action (WebSocketConnection W) (List ℕ)
  send_json_command json = do send_text os json; receive_text

  unfoldable pub enter_session_gateway : Action (WebSocketConnection W) (Unit {0})
  enter_session_gateway = do
    response ←
        send_json_command (codes "{\"command\":\"enterSessionGateway\",\"protocolVersion\":1}")
    lift (require_status_ok response)

  -- What a session takes for its connection.
  unfoldable pub web_socket : Connection (WebSocketConnection W)
  web_socket = record {
    enter_session_gateway = enter_session_gateway;
    send_frame = send_frame os;
    receive_frame = receive_frame;
    close = close os;
  }
