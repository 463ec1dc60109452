-- ===== src/CApi/Execute.antt =====
-- src/c_api.cpp: `sessiongw_c_execute_sql`, a statement on a connection of its own, and the functions
-- that connect a session.
use exasol_gateway_sdk.Errors.{internal_error}
use exasol_gateway_sdk.Base.{
  ℕ, List, [], ◌++◌, Option, some, Bool, not, ◌&&◌, if◌then◌else◌, Result,
}
use exasol_gateway_sdk.Base.Texts.{codes}
use exasol_gateway_sdk.Base.State.{Action, pure, ◌>>=◌, ◌>>◌, get, lift, require}
use exasol_gateway_sdk.CApi.{text_of, json_escape}
use exasol_gateway_sdk.CApi.Arguments.{COptions, options, is_null}
use exasol_gateway_sdk.CApi.Handles.{Objects, store}
use exasol_gateway_sdk.Session.Request.{Connection, Impl, connect}
use exasol_gateway_sdk.WebSocket.{WebSocketConnection, WebSocketOptions, Platform}
use exasol_gateway_sdk.WebSocket.Connection.{send_json_command, or_close}
use exasol_gateway_sdk.WebSocket.Json.{find, throw_followed}
use exasol_gateway_sdk.WebSocket.Transport.{close}
use exasol_gateway_sdk.WebSocket.Login.{Gate, is_empty}
use exasol_gateway_sdk.WebSocket.Login.Upgrade.{connect_and_login, has_found}

unfoldable pub execute_request : List ℕ → List ℕ
execute_request escaped =
    (codes "{\"command\":\"execute\",\"sqlText\":\"" ++ escaped) ++ codes "\"}"

abbrev pub is_ok : List ℕ → Bool
is_ok response = not (
    not (has_found (find (codes "\"status\":\"ok\"") response))
    && not (has_found (find (codes "\"status\": \"ok\"") response)))

module _ {W : Type 0} (os : Platform W) (gate : Gate W) where
  -- What is done once the connection is there.
  unfoldable pub talk : Option (List ℕ) → Action (WebSocketConnection W) (Unit {0})
  talk sql = do
    statement ← lift (text_of sql "SessionGW SQL is required")
    escaped ← lift (json_escape statement [])
    response ← send_json_command os (execute_request escaped)
    close os
    if is_ok response
        then pure tt
        else lift (throw_followed internal_error "SessionGW SQL command failed: " response)

  -- The destructor of the connection closes it.
  unfoldable pub execute_sql :
      Option COptions → Option (List ℕ) → Action (WebSocketConnection W) (Unit {0})
  execute_sql input sql = do
    converted ← lift (options input)
    connect_and_login os gate converted
    λ s. or_close os (talk sql s)

-- `sessiongw_c_connect` and `sessiongw_c_connect_with_client_name`. `log_in` stands for
-- `WebSocketConnection::connectAndLogin`.
module _ {C : Type 0} (net : Connection C) (log_in : WebSocketOptions → Result C) where
  unfoldable pub connect_session : Option COptions → Action (Objects C (Option (Impl C))) (Unit {0})
  connect_session input = do
    s ← get
    require (not (is_null s.out)) "SessionGW output session is required"
    converted ← lift (options input)
    session ← lift (connect net (log_in converted))
    store (some session)

  unfoldable pub connect_with_client_name :
      Option COptions → Option (List ℕ) → Action (Objects C (Option (Impl C))) (Unit {0})
  connect_with_client_name input client_name = do
    s ← get
    require (not (is_null s.out)) "SessionGW output session is required"
    converted ← lift (options input)
    name ← lift (text_of client_name "SessionGW client name is required")
    require (not (is_empty name)) "SessionGW client name must not be empty"
    session ← lift (connect net (log_in (record converted { client_name = name })))
    store (some session)
