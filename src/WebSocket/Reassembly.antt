-- ===== src/WebSocket/Reassembly.antt =====
-- `receiveBinary` puts a message together from its fragments, and answers the pings among them.
use exasol_gateway_sdk.Base.{
  ℕ, zero, suc, ◌+◌, ◌<◌, ◌≤◌, List, [], ◌∷◌, ◌++◌, Bool, true, false, length, ◌≡◌, refl, ap, sym,
  ◌∙◌, arith, if◌then◌else◌, length-append, append_assoc,
}
use exasol_gateway_sdk.Base.State.{and_then}
use exasol_gateway_sdk.Base.Ensures.{Ensures, and_then-Ensures, Ensures-mono}
use exasol_gateway_sdk.WebSocket.{WebSocketConnection, Platform}
use exasol_gateway_sdk.WebSocket.Transport.{has}
use exasol_gateway_sdk.WebSocket.Turns.{returned, next}
use exasol_gateway_sdk.WebSocket.Receive.{
  max_websocket_message_size, is_bad_control, read_frame, handle, proceed, receive_loop,
  receive_binary,
}
use exasol_gateway_sdk.WebSocket.Script.{
  Item, ping, pong, fragment, server_frame, render, joined, AreShort,
}
use exasol_gateway_sdk.WebSocket.Streams.{IsPlatform, IsWritable, IsMove}
use exasol_gateway_sdk.WebSocket.Quiet.{Never}
use exasol_gateway_sdk.WebSocket.Exact.{IsTaken}
use exasol_gateway_sdk.WebSocket.Accepted.{frame_of, read_frame-IsTaken}
use exasol_gateway_sdk.WebSocket.Answered.{
  IsDataOpcode, next_opcode, IsReceived, next_opcode_lt, good_data, good_control, pong_turn,
  data_turn, pong_frame, ping_turn, after_frame, after_ping, fewer,
}

module _ {W : Type 0} (os : Platform W) (outgoing : W → List ℕ) (law : IsPlatform os outgoing)
    (live : IsWritable os outgoing) where
  module _ (expected : ℕ) (is_data : IsDataOpcode expected) where
    -- What the loop does with a message of these items from a state on.
    abbrev Joins :
        List Item
        → List ℕ
        → List ℕ
        → List ℕ
        → WebSocketConnection W
        → List ℕ
        → WebSocketConnection W
        → Type 0
    Joins items last rest message c m d =
        (m ≡ message ++ joined items last) × IsReceived os outgoing law live items rest c d

    -- A round: the next frame, and what is made of it.
    round-Ensures :
        (Q : List ℕ → WebSocketConnection W → Type 0) (fuel : ℕ) (fin : Bool) (opcode : ℕ)
        (fragmented : Bool) (p message behind : List ℕ) (c : WebSocketConnection W)
        → length message + length p ≤ max_websocket_message_size
        → opcode < 16
        → is_bad_control fin opcode (length p) ≡ false
        → has c.fd ≡ true
        → os.incoming c.world ≡ server_frame fin opcode p ++ behind
        → ((d : WebSocketConnection W)
            → IsTaken os outgoing law (server_frame fin opcode p) behind c d
            → Ensures Q Never (
                and_then
                  (handle os expected (frame_of fin opcode p) fragmented message d)
                  (λ turn. proceed os (receive_loop os fuel expected) turn)))
        → Ensures Q Never (receive_loop os (suc fuel) expected fragmented message c)
    unfolding receive_loop
    round-Ensures Q fuel fin opcode fragmented p message behind c fits small good is_open ahead
          rest =
        and_then-Ensures
          (λ fr d.
            (fr ≡ frame_of fin opcode p)
            × IsTaken os outgoing law (server_frame fin opcode p) behind c d)
          Never Q Never (read_frame os (length message) c) _
          (read_frame-IsTaken os outgoing law (length message) fin opcode p behind fits c small good
            is_open ahead)
          (λ _ _ never. never) λ fr d got. rw got.0 (rest d got.1)

    -- A data frame.
    data_frame-Ensures :
        (Q : List ℕ → WebSocketConnection W → Type 0) (fuel : ℕ) (fin fragmented : Bool)
        (p message behind : List ℕ) (c : WebSocketConnection W)
        → length message + length p ≤ max_websocket_message_size
        → has c.fd ≡ true
        → os.incoming c.world ≡ server_frame fin (next_opcode fragmented expected) p ++ behind
        → (fragmented ≡ false → message ≡ [])
        → ((d : WebSocketConnection W)
            → IsTaken os outgoing law
                (server_frame fin (next_opcode fragmented expected) p)
                behind
                c
                d
            → Ensures Q Never (
                proceed os
                  (receive_loop os fuel expected)
                  (if fin then returned (message ++ p) else next true (message ++ p))
                  d))
        → Ensures Q Never (receive_loop os (suc fuel) expected fragmented message c)
    data_frame-Ensures Q fuel fin fragmented p message behind c fits is_open ahead begun rest =
        let low = next_opcode_lt fragmented expected is_data in
        round-Ensures Q fuel fin (next_opcode fragmented expected) fragmented p message behind c
          fits (omega (arith, low)) (good_data fin _ (length p) low) is_open ahead
          λ d taken.
            rw (data_turn os fragmented fin expected p message d is_data begun) (rest d taken)

    receive_loop-Joins :
        (fuel : ℕ) (items : List Item) (last rest : List ℕ) (fragmented : Bool) (message : List ℕ)
        (c : WebSocketConnection W)
        → AreShort items
        → length message + length (joined items last) + 125 ≤ max_websocket_message_size
        → has c.fd ≡ true
        → os.incoming c.world ≡ render (next_opcode fragmented expected) items last ++ rest
        → (fragmented ≡ false → message ≡ [])
        → length (os.incoming c.world) < fuel
        → Ensures
            (Joins items last rest message c)
            Never
            (receive_loop os fuel expected fragmented message c)
    unfolding render joined proceed
    receive_loop-Joins zero items last rest fragmented message c short fits is_open ahead begun
          enough =
        absurd (omega arith)
    receive_loop-Joins (suc fuel) [] last rest fragmented message c short fits is_open ahead begun
          enough =
        data_frame-Ensures (Joins [] last rest message c) fuel true fragmented last message rest c
          (omega (arith, fits)) is_open ahead begun
          λ d taken. (
            refl,
            record {
              ahead = taken.ahead;
              put = [];
              wrote = taken.moved.wrote;
              answers = refl;
              is_open = taken.is_open;
            },
          )
    receive_loop-Joins (suc fuel) (fragment p ∷ items) last rest fragmented message c short fits
          is_open ahead begun enough =
        data_frame-Ensures (Joins (fragment p ∷ items) last rest message c) fuel false fragmented p
          message (render 0 items last ++ rest) c
          (omega (arith, fits, length-append {0} p (joined items last))) is_open
          (ahead
            ∙ append_assoc (server_frame false (next_opcode fragmented expected) p)
                (render 0 items last) rest)
          begun
          λ d taken.
            Ensures-mono (Joins items last rest (message ++ p) d)
              (Joins (fragment p ∷ items) last rest message c) Never Never
              (receive_loop os fuel expected true (message ++ p) d)
              (receive_loop-Joins fuel items last rest true (message ++ p) d short
                (omega (
                  arith,
                  fits,
                  length-append {0} message p,
                  length-append {0} p (joined items last),
                ))
                taken.is_open taken.ahead (λ h. cc)
                (fewer os outgoing law live false _ p fuel c d taken.moved enough))
              (λ _ _ never. never)
              λ m e done. (
                done.0 ∙ append_assoc message p (joined items last),
                after_frame os outgoing law live items (fragment p ∷ items) rest _ c d e (λ _ a. a)
                    taken.moved done.1,
              )
    receive_loop-Joins (suc fuel) (ping p ∷ items) last rest fragmented message c short fits is_open
          ahead begun enough =
        round-Ensures (Joins (ping p ∷ items) last rest message c) fuel true 9 fragmented p message
          (render (next_opcode fragmented expected) items last ++ rest) c
          (omega (arith, fits, short.0)) (omega arith) (good_control 9 (length p) short.0) is_open
          (ahead
            ∙ append_assoc (server_frame true 9 p)
                (render (next_opcode fragmented expected) items last) rest)
          λ d taken.
            and_then-Ensures
              (λ turn e.
                (turn ≡ next fragmented message)
                × (mask : List ℕ) × (length mask ≡ 4)
                × IsMove os outgoing d [] (pong_frame os outgoing law live p mask) e)
              Never (Joins (ping p ∷ items) last rest message c) Never
              (handle os expected (frame_of true 9 p) fragmented message d) _
              (ping_turn os outgoing law live expected fragmented p message d taken.is_open short.0)
              (λ _ _ never. never)
              λ turn e answered. rw answered.0 (
                Ensures-mono (Joins items last rest message e)
                  (Joins (ping p ∷ items) last rest message c) Never Never
                  (receive_loop os fuel expected fragmented message e)
                  (receive_loop-Joins fuel items last rest fragmented message e short.1 fits
                    (ap has answered.3.same_fd ∙ taken.is_open) (sym answered.3.read ∙ taken.ahead)
                    begun
                    (omega (
                      arith,
                      fewer os outgoing law live true 9 p fuel c d taken.moved enough,
                      ap length answered.3.read,
                    )))
                  (λ _ _ never. never)
                  λ m f done. (
                    done.0,
                    after_frame os outgoing law live (ping p ∷ items) (ping p ∷ items) rest _ c d f
                        (λ _ a. a) taken.moved
                        (after_ping os outgoing law live items p rest answered.1 d e f answered.2
                          answered.3 done.1),
                  ))
    receive_loop-Joins (suc fuel) (pong p ∷ items) last rest fragmented message c short fits is_open
          ahead begun enough =
        round-Ensures (Joins (pong p ∷ items) last rest message c) fuel true 10 fragmented p message
          (render (next_opcode fragmented expected) items last ++ rest) c
          (omega (arith, fits, short.0)) (omega arith) (good_control 10 (length p) short.0) is_open
          (ahead
            ∙ append_assoc (server_frame true 10 p)
                (render (next_opcode fragmented expected) items last) rest)
          λ d taken. rw (pong_turn os expected fragmented p message d) (
            Ensures-mono (Joins items last rest message d)
              (Joins (pong p ∷ items) last rest message c) Never Never
              (receive_loop os fuel expected fragmented message d)
              (receive_loop-Joins fuel items last rest fragmented message d short.1 fits
                taken.is_open taken.ahead begun
                (fewer os outgoing law live true 10 p fuel c d taken.moved enough))
              (λ _ _ never. never)
              λ m e done. (
                done.0,
                after_frame os outgoing law live items (pong p ∷ items) rest _ c d e (λ _ a. a)
                    taken.moved done.1,
              ))

  -- A message that the server sends whole or in fragments, with pings and pongs among them, is
  -- returned as its data, if these leave room for a control frame in 16 MiB: nothing behind it is
  -- taken, and each ping is answered by a masked pong with its data, in order. The connection is
  -- open, and the peer takes what it is sent.
  pub receive_binary-joined :
      (expected : ℕ) (items : List Item) (last rest : List ℕ) (c : WebSocketConnection W)
      → IsDataOpcode expected
      → AreShort items
      → length (joined items last) + 125 ≤ max_websocket_message_size
      → has c.fd ≡ true
      → os.incoming c.world ≡ render expected items last ++ rest
      → Ensures
          (λ m d. (m ≡ joined items last) × IsReceived os outgoing law live items rest c d)
          Never
          (receive_binary os expected c)
  unfolding receive_binary
  receive_binary-joined expected items last rest c is_data short fits is_open ahead =
      receive_loop-Joins expected is_data (suc (length (os.incoming c.world))) items last rest false
        [] c short (omega (arith, fits)) is_open ahead (λ _. refl) (omega arith)
