-- ===== src/WebSocket/Send.antt =====
-- src/websocket.cpp: what a client sends. The frame is built in the buffer of the connection.
use exasol_gateway_sdk.Errors.{protocol_error, resource_limit}
use exasol_gateway_sdk.Base.{
  ℕ, zero, suc, ◌+◌, ◌%◌, ◌^◌, bit_or, List, [], ◌∷◌, ◌++◌, ltb, length, if◌then◌else◌,
}
use exasol_gateway_sdk.Base.Outcome.{ok}
use exasol_gateway_sdk.Base.State.{Action, pure, ◌>>=◌, ◌>>◌, get, throw}
use exasol_gateway_sdk.Frame.{Frame, frame_header_size}
use exasol_gateway_sdk.Frame.Message.{MessageType}
use exasol_gateway_sdk.Frame.Encode.{u32_max}
use exasol_gateway_sdk.WebSocket.{WebSocketConnection, WebSocketStatistics, Platform}
use exasol_gateway_sdk.WebSocket.Masking.{
  frame_start, append_masked_payload_with_mask, append_masked_session_gateway_frame,
}
use exasol_gateway_sdk.WebSocket.Transport.{plus, on_world, count, transport_write}

abbrev pub frame_sent : ℕ → WebSocketStatistics → WebSocketStatistics
frame_sent size s = record s {
  sessiongw_frames_sent = plus (s.sessiongw_frames_sent) 1;
  sessiongw_payload_bytes_sent = plus (s.sessiongw_payload_bytes_sent) size;
  websocket_mask_copy_bytes = plus (s.websocket_mask_copy_bytes) (frame_header_size + size);
}

module _ {W : Type 0} where
  abbrev pub buffer : (List ℕ → List ℕ) → Action (WebSocketConnection W) (Unit {0})
  buffer f self =
      (ok tt, record self { web_socket_frame_buffer = f (self.web_socket_frame_buffer) })

module _ {W : Type 0} (os : Platform W) where
  -- The loop of `appendMask`, with `left` bytes of the mask to go.
  unfoldable pub append_mask : ℕ → Action (WebSocketConnection W) (List ℕ)
  append_mask zero = pure []
  append_mask (suc left) = do
    drawn ← on_world os.random
    let byte = drawn % 2 ^ 8
    buffer (λ out. out ++ byte ∷ [])
    mask ← append_mask left
    pure (byte ∷ mask)

  unfoldable pub append_masked_payload : List ℕ → Action (WebSocketConnection W) (Unit {0})
  append_masked_payload payload = do
    mask ← append_mask 4
    buffer (λ out. (append_masked_payload_with_mask mask payload (out, 0)).0)

  -- The part that `sendText` and `sendBinary` have in common: they differ in the first byte.
  unfoldable pub send_data : ℕ → List ℕ → Action (WebSocketConnection W) (Unit {0})
  send_data first payload = do
    buffer (λ _. frame_start first (length payload))
    append_masked_payload payload
    self ← get
    transport_write os (self.web_socket_frame_buffer)

  unfoldable pub send_text : List ℕ → Action (WebSocketConnection W) (Unit {0})
  send_text text = send_data 0x81 text

  unfoldable pub send_binary : List ℕ → Action (WebSocketConnection W) (Unit {0})
  send_binary payload = send_data 0x82 payload

  unfoldable pub send_control : ℕ → List ℕ → Action (WebSocketConnection W) (Unit {0})
  send_control opcode payload =
      if ltb 125 (length payload)
      then throw protocol_error "WebSocket control payload is too large"
      else (do
        buffer (λ _. (bit_or 0x80 opcode % 2 ^ 8) ∷ (bit_or 0x80 (length payload) % 2 ^ 8) ∷ [])
        append_masked_payload payload
        self ← get
        transport_write os (self.web_socket_frame_buffer))

  -- `appendMaskedSessionGatewayFrame`.
  unfoldable pub append_frame :
      List ℕ → MessageType → ℕ → List ℕ → Action (WebSocketConnection W) (Unit {0})
  append_frame mask message_type request_id payload =
      if ltb u32_max (length payload)
      then throw resource_limit "SessionGW frame payload is too large"
      else buffer (λ out.
        (append_masked_session_gateway_frame mask message_type request_id payload (out, 0)).0)

  unfoldable pub send_frame : MessageType → ℕ → List ℕ → Action (WebSocketConnection W) (Unit {0})
  send_frame message_type request_id payload = do
    buffer (λ _. frame_start 0x82 (frame_header_size + length payload))
    mask ← append_mask 4
    append_frame mask message_type request_id payload
    count (frame_sent (length payload))
    self ← get
    transport_write os (self.web_socket_frame_buffer)

  -- `sendFrame(const Frame&)`.
  unfoldable pub send_whole_frame : Frame → Action (WebSocketConnection W) (Unit {0})
  send_whole_frame frame =
      send_frame (frame.header.message_type) (frame.header.request_id) (frame.payload)
