-- ===== src/WebSocket/Accepted.antt =====
-- A frame that a server writes is accepted.
use exasol_gateway_sdk.Base.{
  ℕ, ◌+◌, ◌<◌, ◌≤◌, List, [], ◌∷◌, ◌++◌, Bool, true, false, length, ◌≡◌, ap, ◌∙◌, arith,
  append_assoc,
}
use exasol_gateway_sdk.Base.State.{pure}
use exasol_gateway_sdk.Base.Bytes.{at}
use exasol_gateway_sdk.Base.Ensures.{Ensures, and_then-Ensures, Ensures-mono}
use exasol_gateway_sdk.WebSocket.{WebSocketConnection, Platform}
use exasol_gateway_sdk.WebSocket.Transport.{has}
use exasol_gateway_sdk.WebSocket.Turns.{Received}
use exasol_gateway_sdk.WebSocket.Receive.{
  read_header_bytes, read_length, read_payload, read_frame, read_data, read_behind, is_bad_control,
  is_too_large, max_websocket_message_size,
}
use exasol_gateway_sdk.WebSocket.Script.{
  first_byte, second_byte, extended, server_frame, first_byte_fields, second_byte_fields,
}
use exasol_gateway_sdk.WebSocket.Streams.{IsPlatform, IsMove-trans}
use exasol_gateway_sdk.WebSocket.Quiet.{Never}
use exasol_gateway_sdk.WebSocket.Exact.{
  IsTaken, header_bytes-IsTaken, payload-IsTaken, read_length-IsLength,
}

abbrev pub frame_of : Bool → ℕ → List ℕ → Received
frame_of fin opcode payload = record { fin = fin; opcode = opcode; payload = payload }

module _ {W : Type 0} (os : Platform W) (outgoing : W → List ℕ) (law : IsPlatform os outgoing) where
  pub IsTaken-trans :
      (xs ys rest : List ℕ) (c d e : WebSocketConnection W)
      → IsTaken os outgoing law xs (ys ++ rest) c d
      → IsTaken os outgoing law ys rest d e
      → IsTaken os outgoing law (xs ++ ys) rest c e
  IsTaken-trans xs ys rest c d e first second = record {
    moved = IsMove-trans os outgoing c d e xs [] ys [] first.moved second.moved;
    ahead = second.ahead;
    is_open = second.is_open;
  }

  module _ (received : ℕ) (fin : Bool) (opcode : ℕ) (payload rest : List ℕ)
      (fits : received + length payload ≤ max_websocket_message_size) where
    read_data-IsTaken :
        (c : WebSocketConnection W)
        → has c.fd ≡ true
        → os.incoming c.world ≡ payload ++ rest
        → Ensures
            (λ fr d. (fr ≡ frame_of fin opcode payload) × IsTaken os outgoing law payload rest c d)
            Never
            (read_data os received fin opcode (length payload) c)
    unfolding read_data
    read_data-IsTaken c is_open ahead = rw (small_enough received (length payload) fits) (
        and_then-Ensures (λ bytes d. (bytes ≡ payload) × IsTaken os outgoing law payload rest c d)
          Never
          (λ fr d. (fr ≡ frame_of fin opcode payload) × IsTaken os outgoing law payload rest c d)
          Never (read_payload os (length payload) c)
          (λ bytes. pure (record { fin = fin; opcode = opcode; payload = bytes }))
          (payload-IsTaken os outgoing law payload rest c is_open ahead (omega (arith, fits)))
          (λ _ _ never. never) λ bytes d got. (ap (frame_of fin opcode) got.0, got.1))
      where
        small_enough :
            (received n : ℕ)
            → received + n ≤ max_websocket_message_size
            → is_too_large received n ≡ false
        small_enough received n h = ground arith

    read_behind-IsTaken :
        (c : WebSocketConnection W)
        → opcode < 16
        → is_bad_control fin opcode (length payload) ≡ false
        → has c.fd ≡ true
        → os.incoming c.world ≡ extended (length payload) ++ (payload ++ rest)
        → Ensures
            (λ fr d.
              (fr ≡ frame_of fin opcode payload)
              × IsTaken os outgoing law (extended (length payload) ++ payload) rest c d)
            Never
            (read_behind os received (first_byte fin opcode) (second_byte (length payload)) c)
    unfolding read_behind
    read_behind-IsTaken c small good is_open ahead =
        let (is_fin, no_rsv, is_opcode) = first_byte_fields fin opcode small in
        let (no_mask, is_second) = second_byte_fields (length payload) in
        rw (no_rsv, no_mask, is_second, is_fin, is_opcode)
          (and_then-Ensures
            (λ v d.
              (v ≡ length payload)
              × IsTaken os outgoing law (extended (length payload)) (payload ++ rest) c d)
            Never
            (λ fr d.
              (fr ≡ frame_of fin opcode payload)
              × IsTaken os outgoing law (extended (length payload) ++ payload) rest c d)
            Never (read_length os (second_byte (length payload)) c) _
            (read_length-IsLength os outgoing law (length payload) (payload ++ rest) c is_open ahead
              (omega (arith, fits)))
            (λ _ _ never. never)
            λ v d sized.
              rw (sized.0, good)
                (Ensures-mono
                  (λ fr e.
                    (fr ≡ frame_of fin opcode payload) × IsTaken os outgoing law payload rest d e)
                  (λ fr e.
                    (fr ≡ frame_of fin opcode payload)
                    × IsTaken os outgoing law (extended (length payload) ++ payload) rest c e)
                  Never Never (read_data os received fin opcode (length payload) d)
                  (read_data-IsTaken d sized.1.is_open sized.1.ahead) (λ _ _ never. never)
                  λ fr e got. (
                    got.0,
                    IsTaken-trans (extended (length payload)) payload rest c d e sized.1 got.1,
                  )))

    -- A frame that the server writes is read as it was meant, and no more is taken.
    pub read_frame-IsTaken :
        (c : WebSocketConnection W)
        → opcode < 16
        → is_bad_control fin opcode (length payload) ≡ false
        → has c.fd ≡ true
        → os.incoming c.world ≡ server_frame fin opcode payload ++ rest
        → Ensures
            (λ fr d.
              (fr ≡ frame_of fin opcode payload)
              × IsTaken os outgoing law (server_frame fin opcode payload) rest c d)
            Never
            (read_frame os received c)
    unfolding read_frame server_frame at
    read_frame-IsTaken c small good is_open ahead =
        let header : List ℕ = first_byte fin opcode ∷ second_byte (length payload) ∷ [] in
        and_then-Ensures
          (λ bytes d.
            (bytes ≡ header)
            × IsTaken os outgoing law header ((extended (length payload) ++ payload) ++ rest) c d)
          Never
          (λ fr d.
            (fr ≡ frame_of fin opcode payload)
            × IsTaken os outgoing law (header ++ (extended (length payload) ++ payload)) rest c d)
          Never (read_header_bytes os 2 c) _
          (header_bytes-IsTaken os outgoing law header
            ((extended (length payload) ++ payload) ++ rest) c is_open ahead (omega arith))
          (λ _ _ never. never)
          λ bytes d got. rw got.0 (
            Ensures-mono
              (λ fr e.
                (fr ≡ frame_of fin opcode payload)
                × IsTaken os outgoing law (extended (length payload) ++ payload) rest d e)
              (λ fr e.
                (fr ≡ frame_of fin opcode payload)
                × IsTaken os outgoing law (header ++ (extended (length payload) ++ payload)) rest c
                    e)
              Never Never
              (read_behind os received (first_byte fin opcode) (second_byte (length payload)) d)
              (read_behind-IsTaken d small good got.1.is_open
                (got.1.ahead ∙ append_assoc (extended (length payload)) payload rest))
              (λ _ _ never. never)
              λ fr e behind. (
                behind.0,
                IsTaken-trans header (extended (length payload) ++ payload) rest c d e got.1
                    behind.1,
              ))
