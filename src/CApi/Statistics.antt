-- ===== src/CApi/Statistics.antt =====
-- include/sessiongw/c_api.h, src/c_api.cpp: the statistics of a session whose connection is a web socket.
use exasol_gateway_sdk.Base.{ℕ, ◌+◌, ◌%◌, ◌^◌, true}
use exasol_gateway_sdk.Base.State.{Action, ◌>>=◌, ◌>>◌, get, lift}
use exasol_gateway_sdk.CApi.Functions.{arguments}
use exasol_gateway_sdk.CApi.Handles.{Objects, pointee, store}
use exasol_gateway_sdk.WebSocket.{WebSocketConnection, WebSocketStatistics}

-- `sessiongw_c_statistics`
pub record CStatistics : Type 0 where
  pub requests : ℕ
  pub request_bytes : ℕ
  pub response_bytes : ℕ
  pub network_nanoseconds : ℕ

-- What `sessiongw_c_statistics_get` stores.
unfoldable pub statistics : WebSocketStatistics → CStatistics
statistics stats = record {
  requests = stats.sessiongw_frames_sent;
  request_bytes = stats.sessiongw_payload_bytes_sent;
  response_bytes = stats.sessiongw_payload_bytes_received;
  network_nanoseconds =
      (stats.transport_write_nanoseconds + stats.transport_read_nanoseconds) % 2 ^ 64;
}

-- `sessiongw_c_transport_profile`
pub record CTransportProfile : Type 0 where
  pub write_calls : ℕ
  pub read_calls : ℕ
  pub read_iterations : ℕ
  pub bytes_written : ℕ
  pub bytes_read : ℕ
  pub write_nanoseconds : ℕ
  pub read_nanoseconds : ℕ
  pub websocket_header_read_calls : ℕ
  pub websocket_header_read_bytes : ℕ
  pub websocket_header_read_nanoseconds : ℕ
  pub websocket_payload_read_calls : ℕ
  pub websocket_payload_read_bytes : ℕ
  pub websocket_payload_read_nanoseconds : ℕ
  pub sessiongw_frame_decode_nanoseconds : ℕ

unfoldable pub transport_profile : WebSocketStatistics → CTransportProfile
transport_profile stats = record {
  write_calls = stats.transport_write_calls;
  read_calls = stats.transport_read_calls;
  read_iterations = stats.transport_read_iterations;
  bytes_written = stats.transport_bytes_written;
  bytes_read = stats.transport_bytes_read;
  write_nanoseconds = stats.transport_write_nanoseconds;
  read_nanoseconds = stats.transport_read_nanoseconds;
  websocket_header_read_calls = stats.websocket_header_read_calls;
  websocket_header_read_bytes = stats.websocket_header_read_bytes;
  websocket_header_read_nanoseconds = stats.websocket_header_read_nanoseconds;
  websocket_payload_read_calls = stats.websocket_payload_read_calls;
  websocket_payload_read_bytes = stats.websocket_payload_read_bytes;
  websocket_payload_read_nanoseconds = stats.websocket_payload_read_nanoseconds;
  sessiongw_frame_decode_nanoseconds = stats.sessiongw_frame_decode_nanoseconds;
}

module _ {W : Type 0} where
  unfoldable pub c_statistics_get : Action (Objects (WebSocketConnection W) CStatistics) (Unit {0})
  c_statistics_get = do
    arguments true "SessionGW statistics arguments are required"
    s ← get
    session ← lift (pointee s.session)
    store (statistics session.connection.statistics)

  unfoldable pub c_transport_profile_get :
      Action (Objects (WebSocketConnection W) CTransportProfile) (Unit {0})
  c_transport_profile_get = do
    arguments true "SessionGW transport profile arguments are required"
    s ← get
    session ← lift (pointee s.session)
    store (transport_profile session.connection.statistics)
