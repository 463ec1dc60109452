-- ===== src/WebSocket/Bounded.antt =====
-- What is made of one frame: a turn of bounded size, or an error of the protocol.
use exasol_gateway_sdk.Base.{
  ℕ, ◌+◌, ◌≤◌, ◌<◌, List, [], Bool, true, false, length, ◌≡◌, refl, ap, arith, Result, err, fault,
  leb, ◌==◌, length-append, Bool-cases, inl, inr, lt→ltb, leb→le,
}
use exasol_gateway_sdk.Base.Outcome.{ok}
use exasol_gateway_sdk.Base.Judged.{is_wire}
use exasol_gateway_sdk.Base.State.{pure, lift}
use exasol_gateway_sdk.Base.Ensures.{Ensures, and_then-Ensures, Ensures-mono, branch-Ensures}
use exasol_gateway_sdk.WebSocket.{WebSocketConnection, Platform}
use exasol_gateway_sdk.WebSocket.Transport.{close}
use exasol_gateway_sdk.WebSocket.Released.{IsClosed, close-IsClosed}
use exasol_gateway_sdk.WebSocket.Turns.{
  Received, Turn, returned, next, continuation, first_frame, handle_data,
}
use exasol_gateway_sdk.WebSocket.Send.{send_control}
use exasol_gateway_sdk.WebSocket.Receive.{
  max_websocket_message_size, swallowed, peer_closed, handle,
}
use exasol_gateway_sdk.WebSocket.Streams.{IsPlatform, IsMove, IsMove-refl}
use exasol_gateway_sdk.WebSocket.Quiet.{Never}
use exasol_gateway_sdk.WebSocket.Heard.{Wire}
use exasol_gateway_sdk.WebSocket.Carried.{IsCarried, IsLost, send_control-IsCarried}

-- A turn has no more bytes than a message may have.
abbrev pub Bounded : Turn → Type 0
Bounded (returned m) = length m ≤ max_websocket_message_size
Bounded (next f m) = length m ≤ max_websocket_message_size

abbrev Sound : Result Turn → Type 0
Sound (ok turn) = Bounded turn
Sound (err e) = is_wire e.category ≡ true
Sound fault = ⊥

continuation-Sound :
    (frame : Received) (fragmented : Bool) (message : List ℕ)
    → length message + length frame.payload ≤ max_websocket_message_size
    → Sound (continuation frame fragmented message)
unfolding continuation
continuation-Sound frame fragmented message fits =
    ground (arith, length-append message frame.payload)

first_frame-Sound :
    (expected : ℕ) (frame : Received) (fragmented : Bool)
    → length frame.payload ≤ max_websocket_message_size
    → Sound (first_frame expected frame fragmented)
unfolding first_frame
first_frame-Sound expected frame fragmented fits = ground arith

handle_data-Sound :
    (expected : ℕ) (frame : Received) (fragmented : Bool) (message : List ℕ)
    → length message + length frame.payload ≤ max_websocket_message_size
    → Sound (handle_data expected frame fragmented message)
unfolding handle_data
handle_data-Sound expected frame fragmented message fits = ground (
  arith,
  continuation-Sound frame fragmented message,
  first_frame-Sound expected frame fragmented,
)

module _ {W : Type 0} (os : Platform W) (outgoing : W → List ℕ) (law : IsPlatform os outgoing) where
  -- Bytes may have been sent; none was received.
  pub record IsTold (c c' : WebSocketConnection W) : Type 0 where
    pub put : List ℕ
    pub moved : IsMove os outgoing c [] put c'

  send_control-IsTold :
      (opcode : ℕ) (payload : List ℕ) (c : WebSocketConnection W)
      → Ensures (λ _. IsTold c) (Wire os outgoing law) (send_control os opcode payload c)
  send_control-IsTold opcode payload c = elim (Bool-cases (leb (length payload) 125)) [
    | inl short ↦
        Ensures-mono (λ _. IsCarried os outgoing law _ payload c) (λ _. IsTold c)
          (IsLost os outgoing law (length payload) c) (Wire os outgoing law)
          (send_control os opcode payload c)
          (send_control-IsCarried os outgoing law opcode payload c (leb→le _ _ short))
          (λ e s lost. ap is_wire lost.is_transport)
          λ _ d carried. record { put = _; moved = carried.moved }
    | inr long ↦ unfold send_control in rw (lt→ltb 125 (length payload) (longer _ long)) refl
  ]
    where
      longer : (n : ℕ) → leb n 125 ≡ false → 125 < n
      longer n h = ground arith

  peer_closed-Wire :
      (payload : List ℕ) (c : WebSocketConnection W)
      → Ensures (λ (_ : Turn) _. ⊥) (Wire os outgoing law) (peer_closed os payload c)
  unfolding peer_closed
  peer_closed-Wire payload c =
      and_then-Ensures (λ _ _. Unit {0}) (Wire os outgoing law) (λ _ _. ⊥) (Wire os outgoing law)
        (swallowed os (send_control os 0x08 payload c)) _
        (swallowed_lem (send_control os 0x08 payload c) (send_control-IsTold 0x08 payload c))
        (λ _ _ w. w)
        λ _ d _.
          and_then-Ensures (λ _ e. IsClosed e) Never (λ _ _. ⊥) (Wire os outgoing law) (close os d)
            _ (close-IsClosed os d) (λ e s never. absurd never) λ _ e _. refl
    where
      swallowed_lem :
          (r : Result (Unit {0}) × WebSocketConnection W)
          → Ensures (λ _. IsTold c) (Wire os outgoing law) r
          → Ensures (λ _ _. Unit {0}) (Wire os outgoing law) (swallowed os r)
      swallowed_lem (ok u, s) h = tt
      swallowed_lem (err e, s) h = tt
      swallowed_lem (fault, s) h = h

  pub handle-Bounded :
      (expected : ℕ) (frame : Received) (fragmented : Bool) (message : List ℕ)
      (c : WebSocketConnection W)
      → length message + length frame.payload ≤ max_websocket_message_size
      → Ensures
          (λ turn d. Bounded turn × IsTold c d)
          (Wire os outgoing law)
          (handle os expected frame fragmented message c)
  unfolding handle
  handle-Bounded expected frame fragmented message c fits =
      branch-Ensures (λ turn d. Bounded turn × IsTold c d) (Wire os outgoing law)
        (frame.opcode == 0x9) _ _ c
        (λ _.
          and_then-Ensures (λ _. IsTold c) (Wire os outgoing law)
            (λ turn d. Bounded turn × IsTold c d) (Wire os outgoing law)
            (send_control os 0x0a frame.payload c) _ (send_control-IsTold 0x0a frame.payload c)
            (λ _ _ w. w) λ _ d told. (omega (arith, fits), told))
        λ _.
          branch-Ensures (λ turn d. Bounded turn × IsTold c d) (Wire os outgoing law)
            (frame.opcode == 0x0a) (pure (next fragmented message)) _ c
            (λ _. (omega (arith, fits), record { put = []; moved = IsMove-refl os outgoing c }))
            λ _.
              branch-Ensures (λ turn d. Bounded turn × IsTold c d) (Wire os outgoing law)
                (frame.opcode == 0x8) (peer_closed os frame.payload)
                (lift (handle_data expected frame fragmented message)) c
                (λ _.
                  Ensures-mono (λ _ _. ⊥) _ (Wire os outgoing law) _
                    (peer_closed os frame.payload c) (peer_closed-Wire frame.payload c) (λ _ _ w. w)
                    (λ _ _ never. absurd never))
                λ _.
                  sound_lift (handle_data expected frame fragmented message) c
                    (handle_data-Sound expected frame fragmented message fits)
    where
      sound_lift :
          (r : Result Turn) (c : WebSocketConnection W)
          → Sound r
          → Ensures (λ turn d. Bounded turn × IsTold c d) (Wire os outgoing law) (r, c)
      sound_lift (ok turn) c h = (h, record { put = []; moved = IsMove-refl os outgoing c })
      sound_lift (err e) c h = h
      sound_lift fault c h = h
