-- ===== src/WebSocket/Rounds.antt =====
-- `receiveBinary`: what it returns has a bounded size, of a peer whose bytes are finitely many.
use exasol_gateway_sdk.Base.{
  ℕ, zero, suc, ◌≤◌, ◌<◌, List, [], ◌++◌, Bool, false, length, ap, arith, length-append, append-nil,
}
use exasol_gateway_sdk.Base.State.{Action}
use exasol_gateway_sdk.Base.Ensures.{Ensures, and_then-Ensures, Ensures-mono}
use exasol_gateway_sdk.WebSocket.{WebSocketConnection, Platform}
use exasol_gateway_sdk.WebSocket.Turns.{Turn, returned, next}
use exasol_gateway_sdk.WebSocket.Receive.{
  max_websocket_message_size, read_frame, handle, proceed, receive_loop, receive_binary,
}
use exasol_gateway_sdk.WebSocket.Streams.{IsPlatform, IsMove, IsMove-refl, IsMove-trans}
use exasol_gateway_sdk.WebSocket.Heard.{IsHeard, IsFrameHeard, Wire, read_frame-IsFrameHeard}
use exasol_gateway_sdk.WebSocket.Bounded.{Bounded, IsTold, handle-Bounded}

module _ {W : Type 0} (os : Platform W) (outgoing : W → List ℕ) (law : IsPlatform os outgoing) where
  -- Bytes may have been received and sent.
  pub record IsExchange (c c' : WebSocketConnection W) : Type 0 where
    pub got : List ℕ
    pub put : List ℕ
    pub moved : IsMove os outgoing c got put c'

  then-IsExchange :
      (c d e f : WebSocketConnection W)
      → IsHeard os outgoing law 2 c d
      → IsTold os outgoing law d e
      → IsExchange e f
      → IsExchange c f
  then-IsExchange c d e f heard told rest = record {
    got = heard.got ++ rest.got;
    put = told.put ++ rest.put;
    moved =
        IsMove-trans os outgoing c e f heard.got told.put rest.got rest.put
          (rw⁻¹ (append-nil heard.got)
            (IsMove-trans os outgoing c d e heard.got [] [] told.put heard.moved told.moved))
          rest.moved;
  }

  proceed-IsExchange :
      (again : Bool → List ℕ → Action (WebSocketConnection W) (List ℕ)) (turn : Turn)
      (c d e : WebSocketConnection W)
      → Bounded turn
      → IsHeard os outgoing law 2 c d
      → IsTold os outgoing law d e
      → ((f : Bool) (m : List ℕ)
          → length m ≤ max_websocket_message_size
          → Ensures
              (λ m d. (length m ≤ max_websocket_message_size) × IsExchange e d)
              (Wire os outgoing law)
              (again f m e))
      → Ensures
          (λ m d. (length m ≤ max_websocket_message_size) × IsExchange c d)
          (Wire os outgoing law)
          (proceed os again turn e)
  unfolding proceed
  proceed-IsExchange again (returned m) c d e bound heard told rest = (
    bound,
    then-IsExchange c d e e heard told
        (record { got = []; put = []; moved = IsMove-refl os outgoing e }),
  )
  proceed-IsExchange again (next f m) c d e bound heard told rest =
      Ensures-mono (λ m d. (length m ≤ max_websocket_message_size) × IsExchange e d)
        (λ m d. (length m ≤ max_websocket_message_size) × IsExchange c d) (Wire os outgoing law)
        (Wire os outgoing law) (again f m e) (rest f m bound) (λ _ _ w. w)
        λ _ g h. (h.0, then-IsExchange c d e g heard told h.1)

  receive_loop-IsExchange :
      (fuel expected : ℕ) (fragmented : Bool) (message : List ℕ) (c : WebSocketConnection W)
      → length message ≤ max_websocket_message_size
      → length (os.incoming c.world) < fuel
      → Ensures
          (λ m d. (length m ≤ max_websocket_message_size) × IsExchange c d)
          (Wire os outgoing law)
          (receive_loop os fuel expected fragmented message c)
  unfolding receive_loop
  receive_loop-IsExchange zero expected fragmented message c bound enough = absurd (omega arith)
  receive_loop-IsExchange (suc fuel) expected fragmented message c bound enough =
      and_then-Ensures (IsFrameHeard os outgoing law (length message) c) (Wire os outgoing law)
        (λ m d. (length m ≤ max_websocket_message_size) × IsExchange c d) (Wire os outgoing law)
        (read_frame os (length message) c) _
        (read_frame-IsFrameHeard os outgoing law (length message) c) (λ _ _ w. w)
        λ frame d heard.
          and_then-Ensures (λ turn e. Bounded turn × IsTold os outgoing law d e)
            (Wire os outgoing law) (λ m d. (length m ≤ max_websocket_message_size) × IsExchange c d)
            (Wire os outgoing law) (handle os expected frame fragmented message d) _
            (handle-Bounded os outgoing law expected frame fragmented message d heard.fits)
            (λ _ _ w. w)
            λ turn e handled.
              proceed-IsExchange (receive_loop os fuel expected) turn c d e handled.0 heard.heard
                handled.1
                λ f m short.
                  receive_loop-IsExchange fuel expected f m e short
                    (fewer c d e heard.heard handled.1 enough)
    where
      fewer :
          (c d e : WebSocketConnection W)
          → IsHeard os outgoing law 2 c d
          → IsTold os outgoing law d e
          → length (os.incoming c.world) < suc fuel
          → length (os.incoming e.world) < fuel
      fewer c d e heard told enough = omega (
        arith,
        ap length heard.moved.read,
        length-append {0} heard.got (os.incoming d.world),
        ap length told.moved.read,
        heard.enough,
        enough,
      )

  -- Of a peer whose bytes in the run are finitely many, and whatever they are, `receiveBinary`
  -- returns a message of 16 MiB at most, having read the next bytes of the stream and kept the
  -- handles, or it throws an error of a category of the protocol.
  pub receive_binary-IsExchange :
      (expected : ℕ) (c : WebSocketConnection W)
      → Ensures
          (λ m d. (length m ≤ max_websocket_message_size) × IsExchange c d)
          (Wire os outgoing law)
          (receive_binary os expected c)
  unfolding receive_binary
  receive_binary-IsExchange expected c =
      receive_loop-IsExchange (suc (length (os.incoming c.world))) expected false [] c (omega arith)
        (omega arith)
