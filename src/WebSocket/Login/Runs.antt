-- ===== src/WebSocket/Login/Runs.antt =====
-- A log-in that fails in the first answer, and the theorem on `connectAndLogin` there.
use exasol_gateway_sdk.Base.{[], true, none}
use exasol_gateway_sdk.Base.Ensures.{Ensures}
use exasol_gateway_sdk.Base.Texts.{codes}
use exasol_gateway_sdk.WebSocket.{WebSocketConnection, WebSocketOptions, plain_for_test_only}
use exasol_gateway_sdk.WebSocket.Tape.{Tape, no_statistics}

abbrev some_options : WebSocketOptions
some_options = record {
  host = codes "db";
  port = 8563;
  user = codes "sys";
  password = codes "secret";
  client_name = codes "test";
  tls_mode = plain_for_test_only;
  ca_file = [];
  instrumentation_enabled = true;
}

abbrev unconnected : WebSocketConnection Tape
unconnected = record {
  fd = none;
  web_socket_frame_buffer = [];
  ssl_context = none;
  ssl = none;
  instrumentation_enabled = true;
  statistics = no_statistics;
  world = record { inbound = codes "HTTP/1.1 404"; outbound = [] };
}
