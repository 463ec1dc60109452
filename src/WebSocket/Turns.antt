-- ===== src/WebSocket/Turns.antt =====
-- src/websocket.cpp: the part of `receiveBinary` that puts a message together from its frames.
use exasol_gateway_sdk.Errors.{protocol_error}
use exasol_gateway_sdk.Base.{
  ℕ, List, ◌++◌, Bool, true, leb, ◌==◌, not, ◌&&◌, ◌||◌, if◌then◌else◌, Result,
}
use exasol_gateway_sdk.Base.Outcome.{ok, ◌>>◌}
use exasol_gateway_sdk.Base.Outcome

-- What the header and the data of a frame say.
pub record Received : Type 0 where
  pub fin : Bool
  pub opcode : ℕ
  pub payload : List ℕ

-- How a round of the loop ends: the message, or what the next round starts with.
pub data Turn : Type 0 where
  returned : List ℕ → Turn
  next : Bool → List ℕ → Turn

-- A frame of the message itself: what the code does with the opcodes that are left.
unfoldable pub continuation : Received → Bool → List ℕ → Result Turn
continuation frame fragmented message = do
  Outcome.require fragmented "Unexpected WebSocket continuation frame"
  ok (
      if frame.fin
      then returned (message ++ frame.payload)
      else next true (message ++ frame.payload))

unfoldable pub first_frame : ℕ → Received → Bool → Result Turn
first_frame expected_opcode frame fragmented = do
  Outcome.require (not fragmented) "New WebSocket data frame before fragmented message completed"
  Outcome.require (expected_opcode == 0 || frame.opcode == expected_opcode)
      "Unexpected WebSocket data frame type"
  ok (if frame.fin then returned frame.payload else next true frame.payload)

unfoldable pub handle_data : ℕ → Received → Bool → List ℕ → Result Turn
handle_data expected_opcode frame fragmented message =
    if leb 8 frame.opcode || leb 3 frame.opcode && leb frame.opcode 7
    then Outcome.throw protocol_error "Unsupported WebSocket opcode"
    else if frame.opcode == 0
    then continuation frame fragmented message
    else first_frame expected_opcode frame fragmented
