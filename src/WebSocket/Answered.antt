-- ===== src/WebSocket/Answered.antt =====
-- One round of `receiveBinary` for each frame of a message, and what has been received.
use exasol_gateway_sdk.Base.{
  ℕ, zero, suc, ◌+◌, ◌%◌, ◌^◌, ◌<◌, ◌≤◌, bit_or, List, [], ◌∷◌, ◌++◌, Bool, true, false, length,
  ◌≡◌, refl, ap, ◌∙◌, arith, if◌then◌else◌, length-append, append_assoc, append-nil,
}
use exasol_gateway_sdk.Base.Outcome.{ok}
use exasol_gateway_sdk.Base.Bits.{bit_or_sum}
use exasol_gateway_sdk.Base.State.{pure}
use exasol_gateway_sdk.Base.Ensures.{Ensures, and_then-Ensures}
use exasol_gateway_sdk.WebSocket.{WebSocketConnection, Platform}
use exasol_gateway_sdk.WebSocket.Transport.{has}
use exasol_gateway_sdk.WebSocket.Masks.{masked}
use exasol_gateway_sdk.WebSocket.Turns.{returned, next, continuation, first_frame, handle_data}
use exasol_gateway_sdk.WebSocket.Send.{send_control}
use exasol_gateway_sdk.WebSocket.Receive.{is_bad_control, handle}
use exasol_gateway_sdk.WebSocket.Script.{Item, ping, server_frame, AreAnswers}
use exasol_gateway_sdk.WebSocket.Streams.{IsPlatform, IsWritable, IsMove}
use exasol_gateway_sdk.WebSocket.Quiet.{Never}
use exasol_gateway_sdk.WebSocket.Carried.{IsCarried, IsLost, send_control-IsCarried}
use exasol_gateway_sdk.WebSocket.Accepted.{frame_of}

-- The opcode of a text or of a binary message.
abbrev pub IsDataOpcode : ℕ → Type 0
IsDataOpcode opcode = (1 ≤ opcode) × (opcode ≤ 2)

-- The opcode of the next data frame.
abbrev pub next_opcode : Bool → ℕ → ℕ
next_opcode fragmented expected = if fragmented then 0 else expected

length-server_frame :
    (fin : Bool) (opcode : ℕ) (payload : List ℕ) → 2 ≤ length (server_frame fin opcode payload)
unfolding server_frame
length-server_frame fin opcode payload = omega arith

pub next_opcode_lt :
    (fragmented : Bool) (expected : ℕ) → IsDataOpcode expected → next_opcode fragmented expected < 8
next_opcode_lt true expected h = omega arith
next_opcode_lt false expected h = omega arith

pub good_data : (fin : Bool) (opcode n : ℕ) → opcode < 8 → is_bad_control fin opcode n ≡ false
good_data fin opcode n h = ground arith

pub good_control : (opcode n : ℕ) → n ≤ 125 → is_bad_control true opcode n ≡ false
good_control opcode n h = ground arith

module _ {W : Type 0} (os : Platform W) where
  pub pong_turn :
      (expected : ℕ) (fragmented : Bool) (p message : List ℕ) (c : WebSocketConnection W)
      → handle os expected (frame_of true 10 p) fragmented message c
        ≡ (ok (next fragmented message), c)
  unfolding handle
  pong_turn expected fragmented p message c = refl

  -- A data frame is appended to the message.
  pub data_turn :
      (fragmented fin : Bool) (expected : ℕ) (p message : List ℕ) (c : WebSocketConnection W)
      → IsDataOpcode expected
      → (fragmented ≡ false → message ≡ [])
      → handle os expected (frame_of fin (next_opcode fragmented expected) p) fragmented message c
        ≡ (ok (if fin then returned (message ++ p) else next true (message ++ p)), c)
  unfolding handle handle_data continuation first_frame
  data_turn true fin expected p message c h begun = refl
  data_turn false fin zero p message c h begun = absurd (omega arith)
  data_turn false fin (suc zero) p message c h begun =
      let e : message ≡ [] = begun refl in rw e refl
  data_turn false fin (suc (suc zero)) p message c h begun =
      let e : message ≡ [] = begun refl in rw e refl
  data_turn false fin (suc (suc (suc n))) p message c h begun = absurd (omega arith)

module _ {W : Type 0} (os : Platform W) (outgoing : W → List ℕ) (law : IsPlatform os outgoing)
    (live : IsWritable os outgoing) where
  unfoldable pub pong_frame : List ℕ → List ℕ → List ℕ
  pong_frame p mask = (0x8a ∷ (0x80 + length p) ∷ []) ++ (mask ++ masked mask 0 p)

  pub ping_turn :
      (expected : ℕ) (fragmented : Bool) (p message : List ℕ) (c : WebSocketConnection W)
      → has c.fd ≡ true
      → length p ≤ 125
      → Ensures
          (λ turn d.
            (turn ≡ next fragmented message)
            × (mask : List ℕ) × (length mask ≡ 4)
            × IsMove os outgoing c [] (pong_frame p mask) d)
          Never
          (handle os expected (frame_of true 9 p) fragmented message c)
  unfolding handle pong_frame
  ping_turn expected fragmented p message c is_open short =
      and_then-Ensures
        (λ _.
          IsCarried os outgoing law
            ((bit_or 0x80 10 % 2 ^ 8) ∷ (bit_or 0x80 (length p) % 2 ^ 8) ∷ []) p c)
        (IsLost os outgoing law (length p) c) _ Never (send_control os 10 p c)
        (λ _. pure (next fragmented message)) (send_control-IsCarried os outgoing law 10 p c short)
        (λ e d lost. lost.blocked live is_open (omega arith))
        λ _ d carried.
          (refl, carried.mask, carried.sized, rw⁻¹ (second (length p) short) carried.moved)
    where
      second : (n : ℕ) → n ≤ 125 → bit_or 0x80 n % 2 ^ 8 ≡ 0x80 + n
      second n h = omega (arith, bit_or_sum 7 1 n (omega arith))

  -- A message has been received: what lay behind it lies ahead, and the pings are answered.
  pub record IsReceived (items : List Item) (rest : List ℕ) (c c' : WebSocketConnection W)
      : Type 0 where
    pub ahead : os.incoming c'.world ≡ rest
    pub put : List ℕ
    pub wrote : outgoing c'.world ≡ outgoing c.world ++ put
    pub answers : AreAnswers items put
    pub is_open : has c'.fd ≡ true

  -- The rest of a message, after frames that need no answer, and after a ping.
  pub after_frame :
      (items items' : List Item) (rest xs : List ℕ) (c d e : WebSocketConnection W)
      → ((put : List ℕ) → AreAnswers items put → AreAnswers items' put)
      → IsMove os outgoing c xs [] d
      → IsReceived items rest d e
      → IsReceived items' rest c e
  after_frame items items' rest xs c d e same m r = record {
    ahead = r.ahead;
    put = r.put;
    wrote = r.wrote ∙ ap (λ (t : List ℕ). t ++ r.put) (m.wrote ∙ append-nil (outgoing c.world));
    answers = same r.put r.answers;
    is_open = r.is_open;
  }

  pub after_ping :
      (items : List Item) (p rest mask : List ℕ) (c d e : WebSocketConnection W)
      → length mask ≡ 4
      → IsMove os outgoing c [] (pong_frame p mask) d
      → IsReceived items rest d e
      → IsReceived (ping p ∷ items) rest c e
  unfolding pong_frame
  after_ping items p rest mask c d e sized m r = record {
    ahead = r.ahead;
    put = pong_frame p mask ++ r.put;
    wrote =
        r.wrote
        ∙ ap (λ (t : List ℕ). t ++ r.put) m.wrote
        ∙ append_assoc (outgoing c.world) (pong_frame p mask) r.put;
    answers = (mask, r.put, sized, refl, r.answers);
    is_open = r.is_open;
  }

  pub fewer :
      (fin : Bool) (opcode : ℕ) (p : List ℕ) (fuel : ℕ) (c d : WebSocketConnection W)
      → IsMove os outgoing c (server_frame fin opcode p) [] d
      → length (os.incoming c.world) < suc fuel
      → length (os.incoming d.world) < fuel
  fewer fin opcode p fuel c d m enough = omega (
    arith,
    ap length m.read,
    length-append {0} (server_frame fin opcode p) (os.incoming d.world),
    length-server_frame fin opcode p,
    enough,
  )
