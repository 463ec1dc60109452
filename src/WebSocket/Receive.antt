-- ===== src/WebSocket/Receive.antt =====
-- src/websocket.cpp: `receiveBinary`, the loop over the frames of a message.
use exasol_gateway_sdk.Errors.{transport_error, resource_limit}
use exasol_gateway_sdk.Base.{
  ℕ, zero, suc, ◌-◌, bit_and, List, [], Bool, false, ltb, leb, ◌==◌, not, ◌&&◌, ◌||◌, length,
  if◌then◌else◌, Result, err, fault,
}
use exasol_gateway_sdk.Base.Outcome.{ok}
use exasol_gateway_sdk.Base.Bytes.{at}
use exasol_gateway_sdk.Base.State.{Action, pure, ◌>>=◌, ◌>>◌, lift, throw, require}
use exasol_gateway_sdk.WebSocket.{WebSocketConnection, Platform}
use exasol_gateway_sdk.WebSocket.Masking.{read_big_endian}
use exasol_gateway_sdk.WebSocket.Transport.{plus, started, count_since, transport_read, close}
use exasol_gateway_sdk.WebSocket.Turns.{Received, Turn, returned, next, handle_data}
use exasol_gateway_sdk.WebSocket.Send.{send_control}

abbrev pub max_websocket_message_size : ℕ
max_websocket_message_size = 16777216

-- `control && (!fin || payloadLength > 125U)`
abbrev pub is_bad_control : Bool → ℕ → ℕ → Bool
is_bad_control fin opcode payload_length = leb 8 opcode && (not fin || ltb 125 payload_length)

-- `received` bytes of the message are there.
abbrev pub is_too_large : ℕ → ℕ → Bool
is_too_large received payload_length =
    ltb max_websocket_message_size payload_length
    || ltb (max_websocket_message_size - payload_length) received

module _ {W : Type 0} (os : Platform W) where
  unfoldable pub read_header_bytes : ℕ → Action (WebSocketConnection W) (List ℕ)
  read_header_bytes size = do
    start ← started os
    bytes ← transport_read os size
    count_since os start (λ ns s. record s {
      websocket_header_read_calls = plus (s.websocket_header_read_calls) 1;
      websocket_header_read_bytes = plus (s.websocket_header_read_bytes) size;
      websocket_header_read_nanoseconds = plus (s.websocket_header_read_nanoseconds) ns;
    })
    pure bytes

  unfoldable pub read_length_16 : Action (WebSocketConnection W) ℕ
  read_length_16 = do
    extended ← read_header_bytes 2
    let payload_length = read_big_endian extended 0
    require (not (ltb payload_length 126)) "WebSocket payload uses non-minimal length encoding"
    pure payload_length

  unfoldable pub read_length_64 : Action (WebSocketConnection W) ℕ
  read_length_64 = do
    extended ← read_header_bytes 8
    highest ← lift (at extended 0)
    require (bit_and highest 0x80 == 0) "WebSocket payload length has its high bit set"
    let payload_length = read_big_endian extended 0
    require (not (leb payload_length 0xffff)) "WebSocket payload uses non-minimal length encoding"
    pure payload_length

  unfoldable pub read_length : ℕ → Action (WebSocketConnection W) ℕ
  read_length short =
      if short == 126 then read_length_16 else if short == 127 then read_length_64 else pure short

  unfoldable pub read_payload : ℕ → Action (WebSocketConnection W) (List ℕ)
  read_payload zero = pure []
  read_payload (suc n) = do
    start ← started os
    payload ← transport_read os (suc n)
    count_since os start (λ ns s. record s {
      websocket_payload_read_calls = plus (s.websocket_payload_read_calls) 1;
      websocket_payload_read_bytes = plus (s.websocket_payload_read_bytes) (suc n);
      websocket_payload_read_nanoseconds = plus (s.websocket_payload_read_nanoseconds) ns;
    })
    pure payload

  -- The data of a frame whose length is known, if the message has room for them.
  unfoldable pub read_data : ℕ → Bool → ℕ → ℕ → Action (WebSocketConnection W) Received
  read_data received fin opcode payload_length =
      if is_too_large received payload_length
      then throw resource_limit "WebSocket message is too large"
      else (do
        payload ← read_payload payload_length
        pure (record { fin = fin; opcode = opcode; payload = payload }))

  -- A frame whose header starts with these two bytes.
  unfoldable pub read_behind : ℕ → ℕ → ℕ → Action (WebSocketConnection W) Received
  read_behind received first second = do
    let fin = not (bit_and first 0x80 == 0)
    let opcode = bit_and first 0x0f
    require (bit_and first 0x70 == 0) "WebSocket RSV bits are not negotiated"
    require (bit_and second 0x80 == 0) "WebSocket server frame must not be masked"
    payload_length ← read_length (bit_and second 0x7f)
    require (not (is_bad_control fin opcode payload_length))
        "Invalid fragmented or oversized WebSocket control frame"
    read_data received fin opcode payload_length

  -- The body of the loop up to the data of the frame.
  unfoldable pub read_frame : ℕ → Action (WebSocketConnection W) Received
  read_frame received = do
    header ← read_header_bytes 2
    first ← lift (at header 0)
    second ← lift (at header 1)
    read_behind received first second

  -- `catch (...) {}`
  abbrev pub swallowed :
      Result (Unit {0}) × WebSocketConnection W → Result (Unit {0}) × WebSocketConnection W
  swallowed (ok u, s) = (ok tt, s)
  swallowed (err e, s) = (ok tt, s)
  swallowed (fault, s) = (fault, s)

  -- A close frame is answered, and the connection closed.
  unfoldable pub peer_closed {ℓ} : {A : Type ℓ} → List ℕ → Action (WebSocketConnection W) A
  peer_closed payload = do
    λ s. swallowed (send_control os 0x08 payload s)
    close os
    throw transport_error "WebSocket close received"

  -- The rest of the body, which ends it or goes on to the next frame.
  unfoldable pub handle : ℕ → Received → Bool → List ℕ → Action (WebSocketConnection W) Turn
  handle expected_opcode frame fragmented message =
      if frame.opcode == 0x9
      then (do send_control os 0x0a frame.payload; pure (next fragmented message))
      else if frame.opcode == 0x0a
      then pure (next fragmented message)
      else if frame.opcode == 0x8
      then peer_closed frame.payload
      else lift (handle_data expected_opcode frame fragmented message)

  -- The end of a round: the function returns, or the next round starts.
  unfoldable pub proceed :
      (Bool → List ℕ → Action (WebSocketConnection W) (List ℕ))
      → Turn
      → Action (WebSocketConnection W) (List ℕ)
  proceed again (returned m) = pure m
  proceed again (next fragmented message) = again fragmented message

  -- `for (;;)`, with as many rounds as `fuel`.
  unfoldable pub receive_loop : ℕ → ℕ → Bool → List ℕ → Action (WebSocketConnection W) (List ℕ)
  receive_loop zero expected_opcode fragmented message = lift fault
  receive_loop (suc fuel) expected_opcode fragmented message = do
    frame ← read_frame (length message)
    turn ← handle expected_opcode frame fragmented message
    proceed (receive_loop fuel expected_opcode) turn

  -- A round takes two bytes at least of what the peer will send.
  unfoldable pub receive_binary : ℕ → Action (WebSocketConnection W) (List ℕ)
  receive_binary expected_opcode self =
      receive_loop (suc (length (os.incoming (self.world)))) expected_opcode false [] self
