-- ===== src/WebSocket/Runs.antt =====
-- The theorems on the web socket at concrete inputs.
use exasol_gateway_sdk.Base.{◌≤◌, List, [], ◌∷◌, ◌++◌, length, ◌≡◌, refl, arith}
use exasol_gateway_sdk.Base.Outcome.{ok}
use exasol_gateway_sdk.Base.Ensures.{Ensures}
use exasol_gateway_sdk.Base.Texts.{codes}
use exasol_gateway_sdk.Frame.{Frame}
use exasol_gateway_sdk.WebSocket.Json.{json_string_value}
use exasol_gateway_sdk.WebSocket.Escapes.{first_field, json_string_value-json_escape}
use exasol_gateway_sdk.WebSocket.Transport.{transport_read, transport_write}
use exasol_gateway_sdk.WebSocket.Receive.{receive_binary, max_websocket_message_size}
use exasol_gateway_sdk.WebSocket.Streams.{IsMove}
use exasol_gateway_sdk.WebSocket.Quiet.{Never}
use exasol_gateway_sdk.WebSocket.Sent.{IsCutWrite, transport_write-IsMove}
use exasol_gateway_sdk.WebSocket.Filled.{IsCutRead, transport_read-IsMove}
use exasol_gateway_sdk.WebSocket.Heard.{Wire}
use exasol_gateway_sdk.WebSocket.Rounds.{IsExchange, receive_binary-IsExchange}
use exasol_gateway_sdk.WebSocket.Connection.{receive_frame, decode_received}
use exasol_gateway_sdk.WebSocket.Disposed.{IsAnswer, IsDisposed, receive_frame-IsDisposed}
use exasol_gateway_sdk.WebSocket.Released.{released, close-released}
use exasol_gateway_sdk.WebSocket.Transport.{close}
use exasol_gateway_sdk.Base.{ok}
use exasol_gateway_sdk.WebSocket.Script.{Item, ping, pong, fragment, render, joined}
use exasol_gateway_sdk.WebSocket.Answered.{IsReceived}
use exasol_gateway_sdk.WebSocket.Reassembly.{receive_binary-joined}
use exasol_gateway_sdk.WebSocket.Tape.{tape_os, sent, tape_law, tape_live, open_socket}

abbrev fragments : List Item
fragments = ping (1 ∷ 2 ∷ []) ∷ fragment (3 ∷ 4 ∷ 5 ∷ []) ∷ pong [] ∷ []

receive_binary-joined_example :
    Ensures
      (λ m d.
        (m ≡ joined fragments (6 ∷ []))
        × IsReceived tape_os sent tape_law tape_live fragments
            (9 ∷ [])
            (open_socket (render 2 fragments (6 ∷ []) ++ 9 ∷ []))
            d)
      Never
      (receive_binary tape_os 2 (open_socket (render 2 fragments (6 ∷ []) ++ 9 ∷ [])))
unfolding joined
receive_binary-joined_example =
    receive_binary-joined tape_os sent tape_law tape_live 2 fragments (6 ∷ []) (9 ∷ [])
      (open_socket (render 2 fragments (6 ∷ []) ++ 9 ∷ [])) (omega arith) (omega arith)
      (omega arith) refl refl

receive_binary-IsExchange_example :
    Ensures
      (λ m d.
        (length m ≤ max_websocket_message_size)
        × IsExchange tape_os sent tape_law (open_socket (0x82 ∷ 1 ∷ 7 ∷ [])) d)
      (Wire tape_os sent tape_law)
      (receive_binary tape_os 2 (open_socket (0x82 ∷ 1 ∷ 7 ∷ [])))
receive_binary-IsExchange_example =
    receive_binary-IsExchange tape_os sent tape_law 2 (open_socket (0x82 ∷ 1 ∷ 7 ∷ []))

receive_frame-IsDisposed_example :
    Ensures
      (IsAnswer tape_os sent tape_law 3
        (open_socket (0x82 ∷ 1 ∷ 7 ∷ []))
        (decode_received tape_os (open_socket (0x82 ∷ 1 ∷ 7 ∷ []))))
      (IsDisposed tape_os sent tape_law 3
        (open_socket (0x82 ∷ 1 ∷ 7 ∷ []))
        (decode_received tape_os (open_socket (0x82 ∷ 1 ∷ 7 ∷ []))))
      (receive_frame tape_os 3 (open_socket (0x82 ∷ 1 ∷ 7 ∷ [])))
receive_frame-IsDisposed_example =
    receive_frame-IsDisposed tape_os sent tape_law 3 (open_socket (0x82 ∷ 1 ∷ 7 ∷ []))

close-released_example :
    (close tape_os (open_socket []) ≡ (ok tt, released tape_os (open_socket [])))
    × (close tape_os (released tape_os (open_socket []))
        ≡ (ok tt, released tape_os (open_socket [])))
close-released_example = close-released tape_os (open_socket [])

transport_write-IsMove_example :
    Ensures
      (λ _ d. IsMove tape_os sent (open_socket []) [] (1 ∷ 2 ∷ 3 ∷ 4 ∷ []) d)
      (IsCutWrite tape_os sent tape_law (open_socket []) (1 ∷ 2 ∷ 3 ∷ 4 ∷ []))
      (transport_write tape_os (1 ∷ 2 ∷ 3 ∷ 4 ∷ []) (open_socket []))
transport_write-IsMove_example =
    transport_write-IsMove tape_os sent tape_law (1 ∷ 2 ∷ 3 ∷ 4 ∷ []) (open_socket [])

transport_read-IsMove_example :
    Ensures
      (λ bytes d.
        (length bytes ≡ 3) × IsMove tape_os sent (open_socket (1 ∷ 2 ∷ 3 ∷ 4 ∷ [])) bytes [] d)
      (IsCutRead tape_os sent tape_law (open_socket (1 ∷ 2 ∷ 3 ∷ 4 ∷ [])) 3)
      (transport_read tape_os 3 (open_socket (1 ∷ 2 ∷ 3 ∷ 4 ∷ [])))
transport_read-IsMove_example =
    transport_read-IsMove tape_os sent tape_law 3 (open_socket (1 ∷ 2 ∷ 3 ∷ 4 ∷ []))

abbrev some_frame : Frame
some_frame = record {
  header = record {
    magic = 0;
    version = 0;
    message_type = 12;
    flags = 0;
    request_id = 7;
    payload_length = 0;
  };
  payload = 1 ∷ 2 ∷ [];
}

json_string_value-json_escape_example :
    json_string_value
      (first_field (codes "status") (codes "a\"b\\c") (codes ",1}"))
      (codes "status")
    ≡ ok (codes "a\"b\\c")
json_string_value-json_escape_example =
    json_string_value-json_escape (codes "status") (codes "a\"b\\c") (codes ",1}")
