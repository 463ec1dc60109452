-- ===== src/WebSocket/Disposed.antt =====
-- src/websocket.cpp: what becomes of the connection when a block throws that `or_close` stands
-- around, and when `receiveFrame` does.
use exasol_gateway_sdk.Errors.{Error, protocol_error, ids_differ}
use exasol_gateway_sdk.Base.{
  ℕ, List, true, false, ◌≡◌, refl, Result, err, fault, ◌==◌, ==_iff, Bool-cases, inl, inr, ◌⊎◌,
  if◌then◌else◌,
}
use exasol_gateway_sdk.Base.Outcome.{ok}
use exasol_gateway_sdk.Base.Judged.{is_wire}
use exasol_gateway_sdk.Base.State.{pure, lift, and_then, ◌>>◌}
use exasol_gateway_sdk.Base.Ensures.{Ensures}
use exasol_gateway_sdk.Frame.{Frame}
use exasol_gateway_sdk.WebSocket.{WebSocketConnection, Platform}
use exasol_gateway_sdk.WebSocket.Transport.{close}
use exasol_gateway_sdk.WebSocket.Released.{released, close-released}
use exasol_gateway_sdk.WebSocket.Streams.{IsPlatform}
use exasol_gateway_sdk.WebSocket.Heard.{Wire}
use exasol_gateway_sdk.WebSocket.Rounds.{IsExchange}
use exasol_gateway_sdk.WebSocket.Attached.{decode_received-IsExchange}
use exasol_gateway_sdk.WebSocket.Connection.{
  or_close, decode_received, receive_any_frame, receive_frame,
}

module _ {W : Type 0} (os : Platform W) where
  -- A block threw an error of a category of the protocol, and the connection is as the block left it
  -- with all its handles given back.
  abbrev pub IsDropped :
      {A : Type 0} → Result A × WebSocketConnection W → Error → WebSocketConnection W → Type 0
  IsDropped block e d =
      (s : WebSocketConnection W) × (block ≡ (err e, s))
      × (is_wire e.category ≡ true)
      × (d ≡ released os s)

  pub or_close-IsDropped :
      {A : Type 0} (block : Result A × WebSocketConnection W)
      → Ensures (λ _ _. Unit {0}) (λ e _. is_wire e.category ≡ true) block
      → Ensures (λ a d. block ≡ (ok a, d)) (IsDropped block) (or_close os block)
  or_close-IsDropped (ok a, s) h = refl
  or_close-IsDropped (err e, s) h = rw (close-released os s).0 (s, refl, h, refl)
  or_close-IsDropped (fault, s) h = h

module _ {W : Type 0} (os : Platform W) (outgoing : W → List ℕ) (law : IsPlatform os outgoing)
    (id : ℕ) (c : WebSocketConnection W) where
  -- What the next message was decoded to, and the connection then.
  abbrev Decoded : Type 0
  Decoded = Result Frame × WebSocketConnection W

  -- The frame that was decoded answers the request; the handles are kept.
  abbrev pub IsAnswer : Decoded → Frame → WebSocketConnection W → Type 0
  IsAnswer decoded frame d =
      (decoded ≡ (ok frame, d)) × (frame.header.request_id ≡ id) × IsExchange os outgoing law c d

  -- An error was thrown before there was a frame, or the frame is of another request.
  abbrev pub IsRefused : Decoded → Error → WebSocketConnection W → Type 0
  IsRefused decoded e s =
      (decoded ≡ (err e, s)) × (is_wire e.category ≡ true)
      ⊎ ((frame : Frame) × (decoded ≡ (ok frame, s))
          × (frame.header.request_id == id ≡ false)
          × (e ≡ (record {
            category = protocol_error;
            message = ids_differ (frame.header.request_id) id;
          }))
          × IsExchange os outgoing law c s)

  -- The connection is then as it was, with all its handles given back.
  abbrev pub IsDisposed : Decoded → Error → WebSocketConnection W → Type 0
  IsDisposed decoded e d = (s : WebSocketConnection W) × IsRefused decoded e s × (d ≡ released os s)

  disposed :
      (decoded : Decoded)
      → Ensures (λ _ d. IsExchange os outgoing law c d) (Wire os outgoing law) decoded
      → Ensures (IsAnswer decoded) (IsDisposed decoded) (
          and_then (or_close os decoded) (λ frame.
            if frame.header.request_id == id then pure frame else (do
              close os
              lift (
                  err (record {
                    category = protocol_error;
                    message = ids_differ (frame.header.request_id) id;
                  })))))
  disposed (fault, s) h = h
  disposed (err e, s) h = rw (close-released os s).0 (s, inl (refl, h), refl)
  disposed (ok frame, s) h = elim (Bool-cases (frame.header.request_id == id)) [
    | inl same ↦ rw same (refl, (==_iff _ id).0 same, h)
    | inr other ↦ rw (other, (close-released os s).0) (s, inr (frame, refl, other, refl, h), refl)
  ]

  -- `receiveFrame(id)`, of a peer whose bytes in the run are finitely many: it returns the frame that
  -- the next message decodes to, which answers the request, and keeps the handles. Or it throws: the
  -- error of the receiving or the decoding, which is of a category of the protocol, or that of a frame
  -- with another id; and then the handles that the connection held at that point have been given back
  -- to the system, each once, and it holds none.
  pub receive_frame-IsDisposed :
      Ensures
        (IsAnswer (decode_received os c))
        (IsDisposed (decode_received os c))
        (receive_frame os id c)
  unfolding receive_frame receive_any_frame
  receive_frame-IsDisposed =
      disposed (decode_received os c) (decode_received-IsExchange os outgoing law c)
