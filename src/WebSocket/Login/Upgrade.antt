-- ===== src/WebSocket/Login/Upgrade.antt =====
-- src/websocket.cpp: the HTTP upgrade and the log-in commands of `connectAndLogin`.
use exasol_gateway_sdk.Errors.{authentication_failed, transport_error, protocol_error}
use exasol_gateway_sdk.Base.{
  ℕ, zero, suc, ◌+◌, List, [], ◌∷◌, ◌++◌, Bool, true, false, Option, none, some, ltb, ◌||◌, length,
  if◌then◌else◌, fault,
}
use exasol_gateway_sdk.Base.Texts.{codes}
use exasol_gateway_sdk.Base.State.{Action, pure, ◌>>=◌, ◌>>◌, get, lift, throw, modify}
use exasol_gateway_sdk.WebSocket.{
  WebSocketConnection, WebSocketOptions, WebSocketStatistics, Platform,
}
use exasol_gateway_sdk.WebSocket.Json.{
  find, json_escape, json_string_value, require_status_ok, throw_followed,
}
use exasol_gateway_sdk.WebSocket.Transport.{on_world, count_since, transport_read, transport_write}
use exasol_gateway_sdk.WebSocket.Send.{send_text}
use exasol_gateway_sdk.WebSocket.Connection.{receive_text, or_close}
use exasol_gateway_sdk.WebSocket.Login.{
  Gate, port_text, is_plain, is_empty, websocket_accept_for_key, random_web_socket_key, connect_tcp,
  enable_tls, encrypt_password_for_web_socket_login,
}

abbrev crlf : List ℕ
crlf = 13 ∷ 10 ∷ []

abbrev pub has_found : Option (List ℕ) → Bool
has_found none = false
has_found (some place) = true

unfoldable pub request_text : WebSocketOptions → List ℕ → List ℕ
request_text options key =
    codes "GET / HTTP/1.1"
    ++ (crlf
        ++ (codes "Host: "
            ++ (options.host
                ++ (b':'
                    ∷ (port_text (options.port)
                        ++ (crlf
                            ++ (codes "Upgrade: websocket"
                                ++ (crlf
                                    ++ (codes "Connection: Upgrade"
                                        ++ (crlf
                                            ++ (codes "Sec-WebSocket-Key: "
                                                ++ (key
                                                    ++ (crlf
                                                        ++ (codes "Sec-WebSocket-Version: 13"
                                                            ++ (crlf ++ crlf)))))))))))))))

unfoldable pub login_text : WebSocketOptions → List ℕ → List ℕ
login_text options encrypted_password =
    codes "{\"username\":\""
    ++ (json_escape (options.user)
        ++ (codes "\",\"password\":\""
            ++ (encrypted_password
                ++ (codes "\",\"useCompression\":false,\"clientName\":\""
                    ++ (json_escape (options.client_name) ++ codes "\"}")))))

-- What a response of 16 KiB can have.
abbrev pub max_upgrade_response : ℕ
max_upgrade_response = 16384

abbrev pub connected_after : ℕ → WebSocketStatistics → WebSocketStatistics
connected_after ns s = record s { connect_nanoseconds = ns }

module _ {W : Type 0} (os : Platform W) (gate : Gate W) where
  -- The loop over the bytes of the response, up to the empty line. One that would run out of fuel is
  -- a fault.
  unfoldable pub upgrade_loop : ℕ → List ℕ → Action (WebSocketConnection W) (List ℕ)
  upgrade_loop zero response = lift fault
  upgrade_loop (suc fuel) response =
      if has_found (find (crlf ++ crlf) response) then pure response else (do
        ch ← transport_read os 1
        if ltb max_upgrade_response (length (response ++ ch))
            then throw protocol_error "WebSocket HTTP upgrade response is too large"
            else upgrade_loop fuel (response ++ ch))

  abbrev pub refused_upgrade : List ℕ → Action (WebSocketConnection W) (Unit {0})
  refused_upgrade response =
      lift (throw_followed protocol_error "Invalid WebSocket upgrade response: " response)

  unfoldable pub upgrade : WebSocketOptions → Action (WebSocketConnection W) (Unit {0})
  upgrade options = do
    key ← random_web_socket_key os gate
    transport_write os (request_text options key)
    response ← upgrade_loop (max_upgrade_response + 2) []
    if has_found (find (codes "101") response)
        then (do
          accepted ← websocket_accept_for_key os gate key
          if has_found (find accepted response) then pure tt else refused_upgrade response)
        else refused_upgrade response

  unfoldable pub log_in : WebSocketOptions → Action (WebSocketConnection W) (Unit {0})
  log_in options = do
    send_text os (codes "{\"command\":\"login\",\"protocolVersion\":5}")
    key_response ← receive_text os
    lift (require_status_ok key_response)
    public_key_pem ← lift (json_string_value key_response (codes "publicKeyPem"))
    encrypted_password ←
        encrypt_password_for_web_socket_login os gate public_key_pem (options.password)
    send_text os (login_text options encrypted_password)
    response ← receive_text os
    lift (require_status_ok response)

  -- The connection to the host, with its options and with TLS.
  unfoldable pub attach : WebSocketOptions → Action (WebSocketConnection W) (Unit {0})
  attach options = do
    fd ← connect_tcp os gate (options.host) (options.port)
    modify (λ (s : WebSocketConnection W). record s { fd = some fd })
    at_once ← on_world (gate.set_no_delay (some fd))
    self ← get
    if at_once
        then pure tt
        else lift (
            throw_followed transport_error "Failed to enable TCP_NODELAY: "
              (codes (os.errno_string (self.world))))
    modify (λ (s : WebSocketConnection W). record s {
      instrumentation_enabled = options.instrumentation_enabled;
    })
    if is_plain (options.tls_mode) then pure tt else enable_tls os gate options

  unfoldable pub open_connection : WebSocketOptions → Action (WebSocketConnection W) (Unit {0})
  open_connection options = do
    start ← (if options.instrumentation_enabled then on_world os.now else pure 0)
    attach options
    upgrade options
    log_in options
    count_since os start connected_after

  -- From a connection that holds nothing. Where an error is thrown, the destructor closes the
  -- connection.
  unfoldable pub connect_and_login : WebSocketOptions → Action (WebSocketConnection W) (Unit {0})
  connect_and_login options self =
      if is_empty (options.user) || is_empty (options.password)
      then throw authentication_failed
          "Exasol Gateway user and password must be configured explicitly" self
      else or_close os (open_connection options self)
