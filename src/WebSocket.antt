-- ===== src/WebSocket.antt =====
-- include/sessiongw/websocket.hpp: the carrier of the frames, and what src/websocket.cpp takes from
-- the system and from OpenSSL.
pub mod Json
mod Escapes
mod Masks
pub mod Streams
pub mod Quiet
mod Sent
mod Filled
mod Heard
mod Carried
mod Drawn
mod Frames
pub mod Released
mod Rounds
mod Bounded
pub mod Attached
mod Script
mod Exact
mod Accepted
mod Reassembly
mod Answered
pub mod Login
pub mod Tape
mod Runs
mod Masking
pub mod Transport
pub mod Send
mod Turns
mod Receive
pub mod Connection
pub mod Disposed
use exasol_gateway_sdk.Base.{ℕ, List, Bool, Option}
use Prim.Native.String.{String}

pub data WebSocketTlsMode : Type 0 where
  plain_for_test_only tls_verify tls_skip_verify_for_test_only : WebSocketTlsMode

pub record WebSocketOptions : Type 0 where
  pub host : List ℕ
  pub port : ℕ
  pub user : List ℕ
  pub password : List ℕ
  pub client_name : List ℕ
  pub tls_mode : WebSocketTlsMode
  pub ca_file : List ℕ
  pub instrumentation_enabled : Bool

pub record WebSocketStatistics : Type 0 where
  pub connect_nanoseconds : ℕ
  pub transport_write_calls : ℕ
  pub transport_read_calls : ℕ
  pub transport_read_iterations : ℕ
  pub transport_bytes_written : ℕ
  pub transport_bytes_read : ℕ
  pub transport_write_nanoseconds : ℕ
  pub transport_read_nanoseconds : ℕ
  pub sessiongw_frames_sent : ℕ
  pub sessiongw_frames_received : ℕ
  pub sessiongw_payload_bytes_sent : ℕ
  pub sessiongw_payload_bytes_received : ℕ
  pub websocket_mask_copy_bytes : ℕ
  pub websocket_header_read_calls : ℕ
  pub websocket_header_read_bytes : ℕ
  pub websocket_header_read_nanoseconds : ℕ
  pub websocket_payload_read_calls : ℕ
  pub websocket_payload_read_bytes : ℕ
  pub websocket_payload_read_nanoseconds : ℕ
  pub sessiongw_frame_decode_nanoseconds : ℕ

-- A connection in a world `W`, which is all that lies outside the program. A descriptor of -1 and a
-- null pointer are `none`.
pub record WebSocketConnection (W : Type 0) : Type 0 where
  pub fd : Option ℕ
  pub web_socket_frame_buffer : List ℕ
  pub ssl_context : Option ℕ
  pub ssl : Option ℕ
  pub instrumentation_enabled : Bool
  pub statistics : WebSocketStatistics
  pub world : W

-- The calls of the system and of OpenSSL. A result of a write that is not positive is 0, and a read
-- that fails gets no byte. `incoming` is what the peer will still deliver in the run, which is
-- finite: it bounds the loops.
pub record Platform (W : Type 0) : Type 0 where
  pub incoming : W → List ℕ
  pub now : W → ℕ × W
  pub random : W → ℕ × W
  pub send : Option ℕ → List ℕ → W → ℕ × W
  pub recv : Option ℕ → ℕ → W → List ℕ × W
  pub ssl_write : ℕ → List ℕ → ℕ → W → ℕ × W
  pub ssl_read : ℕ → ℕ → W → List ℕ × W
  pub error_string : String → W → String
  pub errno_string : W → String
  pub ssl_shutdown : ℕ → W → W
  pub ssl_free : ℕ → W → W
  pub ssl_ctx_free : ℕ → W → W
  pub close : ℕ → W → W
