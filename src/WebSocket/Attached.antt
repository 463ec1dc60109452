-- ===== src/WebSocket/Attached.antt =====
-- The connection that a session is given: what the web socket promises of its operations.
use exasol_gateway_sdk.Errors.{Error}
use exasol_gateway_sdk.Base.{
  ℕ, ◌+◌, ◌≤◌, List, [], true, length, ◌≡◌, refl, ap, Result, err, fault, ltb, ◌==◌, ==_iff,
}
use exasol_gateway_sdk.Base.Outcome.{ok}
use exasol_gateway_sdk.Base.Judged.{is_wire, IsJudged}
use exasol_gateway_sdk.Base.State.{pure}
use exasol_gateway_sdk.Base.Ensures.{Ensures, and_then-Ensures, Ensures-mono, branch-Ensures}
use exasol_gateway_sdk.Frame.Message.{MessageType}
use exasol_gateway_sdk.Frame.Encode.{u32_max}
use exasol_gateway_sdk.Frame.Judged.{decode_frame-IsJudged}
use exasol_gateway_sdk.Frame.Decode.{decode_frame}
use exasol_gateway_sdk.Session.Outcomes.{IsTransport}
use exasol_gateway_sdk.WebSocket.{WebSocketConnection, Platform}
use exasol_gateway_sdk.WebSocket.Transport.{close, started, count, count_since, transport_write}
use exasol_gateway_sdk.WebSocket.Masking.{frame_start}
use exasol_gateway_sdk.WebSocket.Released.{IsClosed, close-IsClosed}
use exasol_gateway_sdk.WebSocket.Send.{frame_sent, append_mask, append_frame, send_frame}
use exasol_gateway_sdk.WebSocket.Receive.{max_websocket_message_size, receive_binary}
use exasol_gateway_sdk.WebSocket.Streams.{IsPlatform, IsMove, IsStill, then_still}
use exasol_gateway_sdk.WebSocket.Quiet.{Never, Still, started-Still, count-Still, count_since-Still}
use exasol_gateway_sdk.WebSocket.Sent.{IsCutWrite, transport_write-IsMove}
use exasol_gateway_sdk.WebSocket.Heard.{Wire}
use exasol_gateway_sdk.WebSocket.Drawn.{IsMasked, append_mask-IsMasked}
use exasol_gateway_sdk.WebSocket.Rounds.{IsExchange, receive_binary-IsExchange}
use exasol_gateway_sdk.WebSocket.Connection.{
  or_close, thrown_again, decode_received, receive_any_frame, receive_frame, web_socket,
}

module _ {W : Type 0} (os : Platform W) (outgoing : W → List ℕ) (law : IsPlatform os outgoing) where
  -- An error of the protocol, and the connection holds no handle.
  abbrev pub WireClosed : Error → WebSocketConnection W → Type 0
  WireClosed e d = (is_wire e.category ≡ true) × IsClosed d

  pub or_close-IsClosed {ℓ} :
      {A : Type ℓ} (P : A → WebSocketConnection W → Type 0) (r : Result A × WebSocketConnection W)
      → Ensures P (Wire os outgoing law) r
      → Ensures P WireClosed (or_close os r)
  or_close-IsClosed P (ok a, s) h = h
  or_close-IsClosed P (fault, s) h = h
  or_close-IsClosed P (err e, s) h = thrown e h (close os s) (close-IsClosed os s)
    where
      thrown :
          (e : Error)
          → is_wire e.category ≡ true
          → (r : Result (Unit {0}) × WebSocketConnection W) → Ensures (λ _ d. IsClosed d) Never r
          → Ensures P WireClosed (thrown_again os e r)
      thrown e wire (ok u, s) closed = (wire, closed)
      thrown e wire (err f, s) closed = absurd closed
      thrown e wire (fault, s) closed = closed

  judged-Ensures {ℓ} :
      {A : Type ℓ} (r : Result A) (s : WebSocketConnection W)
      → IsJudged r
      → Ensures (λ _ d. d ≡ s) (Wire os outgoing law) (r, s)
  judged-Ensures (ok a) s h = refl
  judged-Ensures (err e) s h = h
  judged-Ensures fault s h = h

  -- What a call received is 16 MiB at most.
  pub decode_received-IsExchange :
      (c : WebSocketConnection W)
      → Ensures
          (λ _ d. IsExchange os outgoing law c d)
          (Wire os outgoing law)
          (decode_received os c)
  unfolding decode_received
  decode_received-IsExchange c =
      and_then-Ensures
        (λ m d. (length m ≤ max_websocket_message_size) × IsExchange os outgoing law c d)
        (Wire os outgoing law) (λ _ d. IsExchange os outgoing law c d) (Wire os outgoing law)
        (receive_binary os 2 c) _ (receive_binary-IsExchange os outgoing law 2 c) (λ _ _ w. w)
        λ bytes d got.
          and_then-Ensures (Still os outgoing d) Never (λ _ e. IsExchange os outgoing law c e)
            (Wire os outgoing law) (started os d) _ (started-Still os outgoing law d)
            (λ _ _ never. absurd never)
            λ start e still.
              and_then-Ensures (λ _ f. f ≡ e) (Wire os outgoing law)
                (λ _ f. IsExchange os outgoing law c f) (Wire os outgoing law)
                (decode_frame bytes, e) _
                (judged-Ensures (decode_frame bytes) e (decode_frame-IsJudged bytes)) (λ _ _ w. w)
                λ frame f at_e.
                  and_then-Ensures (Still os outgoing f) Never
                    (λ _ g. IsExchange os outgoing law c g) (Wire os outgoing law)
                    (count_since os start _ f) _ (count_since-Still os outgoing law start _ f)
                    (λ _ _ never. absurd never)
                    λ _ g quiet. settled c d e f g got.1 still at_e quiet
    where
      settled :
          (c d e f g : WebSocketConnection W)
          → IsExchange os outgoing law c d
          → IsStill os outgoing d e
          → f ≡ e
          → IsStill os outgoing f g
          → IsExchange os outgoing law c g
      settled c d e f g got still at_e quiet = record {
        got = got.got;
        put = got.put;
        moved =
            then_still os outgoing c e g got.got got.put
              (then_still os outgoing c d e got.got got.put got.moved still) (rw⁻¹ at_e quiet);
      }

  receive_any_frame-WireClosed :
      (c : WebSocketConnection W)
      → Ensures (λ _ d. IsExchange os outgoing law c d) WireClosed (receive_any_frame os c)
  unfolding receive_any_frame
  receive_any_frame-WireClosed c =
      or_close-IsClosed (λ _ d. IsExchange os outgoing law c d) (decode_received os c)
        (decode_received-IsExchange c)

  -- `receiveFrame(id)`, of a peer whose bytes in the run are finitely many, returns a frame of the
  -- request, or it throws an error of a category of the protocol, and then the connection holds no
  -- handle.
  pub receive_frame-WireClosed :
      (id : ℕ) (c : WebSocketConnection W)
      → Ensures
          (λ frame d. (frame.header.request_id ≡ id) × IsExchange os outgoing law c d)
          WireClosed
          (receive_frame os id c)
  unfolding receive_frame
  receive_frame-WireClosed id c =
      and_then-Ensures (λ _ d. IsExchange os outgoing law c d) WireClosed
        (λ frame d. (frame.header.request_id ≡ id) × IsExchange os outgoing law c d) WireClosed
        (receive_any_frame os c) _ (receive_any_frame-WireClosed c) (λ _ _ h. h)
        λ frame d got.
          branch-Ensures
            (λ frame d. (frame.header.request_id ≡ id) × IsExchange os outgoing law c d) WireClosed
            (frame.header.request_id == id) (pure frame) _ d (λ same. ((==_iff _ id).0 same, got))
            λ _.
              and_then-Ensures (λ _ e. IsClosed e) Never
                (λ frame e. (frame.header.request_id ≡ id) × IsExchange os outgoing law c e)
                WireClosed (close os d) _ (close-IsClosed os d) (λ _ _ never. absurd never)
                λ _ e closed. (refl, closed)

  transport_write-Wire :
      (bytes : List ℕ) (c : WebSocketConnection W)
      → Ensures (λ _ _. Unit {0}) (Wire os outgoing law) (transport_write os bytes c)
  transport_write-Wire bytes c =
      Ensures-mono (λ _ d. IsMove os outgoing c [] bytes d) (λ _ _. Unit {0})
        (IsCutWrite os outgoing law c bytes) (Wire os outgoing law) (transport_write os bytes c)
        (transport_write-IsMove os outgoing law bytes c) (λ e s cut. ap is_wire cut.is_transport)
        (λ _ _ _. tt)

  append_frame-Wire :
      (mask : List ℕ) (type : MessageType) (id : ℕ) (payload : List ℕ) (c : WebSocketConnection W)
      → Ensures (λ _ _. Unit {0}) (Wire os outgoing law) (append_frame os mask type id payload c)
  unfolding append_frame
  append_frame-Wire mask type id payload c =
      branch-Ensures (λ _ _. Unit {0}) (Wire os outgoing law) (ltb u32_max (length payload)) _ _ c
        (λ _. refl) (λ _. tt)

  send_frame-Wire :
      (type : MessageType) (id : ℕ) (payload : List ℕ) (c : WebSocketConnection W)
      → Ensures (λ _ _. Unit {0}) (Wire os outgoing law) (send_frame os type id payload c)
  unfolding send_frame
  send_frame-Wire type id payload c =
      and_then-Ensures (IsMasked os outgoing law 4 begun) Never (λ _ _. Unit {0})
        (Wire os outgoing law) (append_mask os 4 begun) _
        (append_mask-IsMasked os outgoing law 4 begun) (λ _ _ never. absurd never)
        λ mask d _.
          and_then-Ensures (λ _ _. Unit {0}) (Wire os outgoing law) (λ _ _. Unit {0})
            (Wire os outgoing law) (append_frame os mask type id payload d) _
            (append_frame-Wire mask type id payload d) (λ _ _ w. w)
            λ _ e _.
              and_then-Ensures (Still os outgoing e) Never (λ _ _. Unit {0}) (Wire os outgoing law)
                (count (frame_sent (length payload)) e) _
                (count-Still os outgoing law (frame_sent (length payload)) e)
                (λ _ _ never. absurd never)
                λ _ f _. transport_write-Wire f.web_socket_frame_buffer f
    where
      begun : WebSocketConnection W
      begun = record c { web_socket_frame_buffer = frame_start 0x82 (24 + length payload) }

  Ensures-IsJudged {ℓ} :
      {A : Type ℓ} (P : A → WebSocketConnection W → Type 0) (r : Result A × WebSocketConnection W)
      → Ensures P (Wire os outgoing law) r
      → IsJudged r.0
  Ensures-IsJudged P (ok a, s) h = tt
  Ensures-IsJudged P (err e, s) h = h
  Ensures-IsJudged P (fault, s) h = h

  -- The web socket is a connection as a session needs it.
  pub web_socket-IsTransport : IsTransport (web_socket os)
  unfolding web_socket
  web_socket-IsTransport = record {
    sends = λ type id payload c.
        Ensures-IsJudged (λ _ _. Unit {0}) (send_frame os type id payload c)
          (send_frame-Wire type id payload c);
    receives = λ id c.
        Ensures-IsJudged (λ _ _. Unit {0}) (receive_frame os id c)
          (Ensures-mono (λ frame d. (frame.header.request_id ≡ id) × IsExchange os outgoing law c d)
            _ WireClosed (Wire os outgoing law) (receive_frame os id c)
            (receive_frame-WireClosed id c) (λ _ _ h. h.0) (λ _ _ _. tt));
    disconnects = λ c.
        Ensures-IsJudged (λ _ _. Unit {0}) (close os c)
          (Ensures-mono (λ _ d. IsClosed d) _ Never (Wire os outgoing law) (close os c)
            (close-IsClosed os c) (λ _ _ never. absurd never) (λ _ _ _. tt));
  }
