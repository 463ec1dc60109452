-- ===== src/WebSocket/Login/Ends.antt =====
-- `connectAndLogin` ends, and gives back the handles of the connection when it fails.
use exasol_gateway_sdk.Base.{ℕ, ◌≤◌, List, true, length, ◌≡◌, ap}
use exasol_gateway_sdk.Base.Judged.{is_wire}
use exasol_gateway_sdk.Base.Ensures.{Ensures, Ensures-mono}
use exasol_gateway_sdk.WebSocket.{WebSocketConnection, Platform}
use exasol_gateway_sdk.WebSocket.Streams.{IsPlatform}
use exasol_gateway_sdk.WebSocket.Masking.{frame_start}
use exasol_gateway_sdk.WebSocket.Send.{send_text, send_data}
use exasol_gateway_sdk.WebSocket.Receive.{receive_binary, max_websocket_message_size}
use exasol_gateway_sdk.WebSocket.Connection.{receive_text, or_close}
use exasol_gateway_sdk.WebSocket.Heard.{Wire}
use exasol_gateway_sdk.WebSocket.Carried.{IsCarried, IsLost, send_data-IsCarried}
use exasol_gateway_sdk.WebSocket.Rounds.{IsExchange, receive_binary-IsExchange}
use exasol_gateway_sdk.WebSocket.Attached.{WireClosed, or_close-IsClosed}
use exasol_gateway_sdk.WebSocket.Login.{Gate}
use exasol_gateway_sdk.WebSocket.Login.Calls.{Ends}

module _ {W : Type 0} where
  module _ (os : Platform W) (gate : Gate W) (outgoing : W → List ℕ)
      (law : IsPlatform os outgoing) where
    pub send_text-Ends : (text : List ℕ) (s : WebSocketConnection W) → Ends (send_text os text s)
    unfolding send_text
    send_text-Ends text s =
        Ensures-mono (λ _. IsCarried os outgoing law (frame_start 0x81 (length text)) text s)
          (λ _ _. Unit {0}) (IsLost os outgoing law (length text) s)
          (λ e _. is_wire e.category ≡ true) (send_data os 0x81 text s)
          (send_data-IsCarried os outgoing law 0x81 text s)
          (λ e d lost. ap is_wire lost.is_transport) (λ _ _ _. tt)

    pub receive_text-Ends : (s : WebSocketConnection W) → Ends (receive_text os s)
    unfolding receive_text
    receive_text-Ends s =
        Ensures-mono (λ _ _. Unit {0}) (λ _ _. Unit {0}) (WireClosed os outgoing law)
          (λ e _. is_wire e.category ≡ true) (or_close os (receive_binary os 1 s))
          (or_close-IsClosed os outgoing law (λ _ _. Unit {0}) (receive_binary os 1 s)
            (Ensures-mono
              (λ m d. (length m ≤ max_websocket_message_size) × IsExchange os outgoing law s d)
              (λ _ _. Unit {0}) (Wire os outgoing law) (Wire os outgoing law)
              (receive_binary os 1 s) (receive_binary-IsExchange os outgoing law 1 s) (λ _ _ w. w)
              (λ _ _ _. tt)))
          (λ _ _ h. h.0) (λ _ _ _. tt)
