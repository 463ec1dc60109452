-- ===== src/WebSocket/Carried.antt =====
-- What a client sends: the bytes of a frame, under a mask of four bytes.
use exasol_gateway_sdk.Errors.{Error, transport_error}
use exasol_gateway_sdk.Base.{
  ℕ, ◌+◌, ◌%◌, ◌^◌, ◌≤◌, ◌<◌, List, [], ◌∷◌, ◌++◌, true, length, ◌≡◌, refl, le→ltb_false, ap,
  bit_or, ◌∙◌, arith, append_assoc,
}
use exasol_gateway_sdk.Base.Bytes.{IsBytes}
use exasol_gateway_sdk.Base.State.{◌>>=◌, ◌>>◌, get}
use exasol_gateway_sdk.Base.Ensures.{Ensures, and_then-Ensures, Ensures-mono}
use exasol_gateway_sdk.WebSocket.{WebSocketConnection, Platform}
use exasol_gateway_sdk.WebSocket.Transport.{has, transport_write}
use exasol_gateway_sdk.WebSocket.Masking.{Masked, frame_start}
use exasol_gateway_sdk.WebSocket.Masks.{masked, append_masked_payload_with_mask-masked}
use exasol_gateway_sdk.WebSocket.Send.{append_mask, append_masked_payload, send_data, send_control}
use exasol_gateway_sdk.WebSocket.Streams.{
  IsPlatform, IsWritable, IsMove, IsStill, still_then, then_still,
}
use exasol_gateway_sdk.WebSocket.Quiet.{Never}
use exasol_gateway_sdk.WebSocket.Sent.{IsCutWrite, transport_write-IsMove}
use exasol_gateway_sdk.WebSocket.Drawn.{
  carried_length, length-frame_start, IsMasked, buffer-IsStill, append_mask-IsMasked,
}

module _ {W : Type 0} (os : Platform W) (outgoing : W → List ℕ) (law : IsPlatform os outgoing) where
  -- A frame is sent: its start, a mask, and its data under the mask.
  pub record IsCarried (start payload : List ℕ) (c c' : WebSocketConnection W) : Type 0 where
    pub mask : List ℕ
    pub sized : length mask ≡ 4
    pub are_bytes : IsBytes mask
    pub moved : IsMove os outgoing c [] (start ++ (mask ++ masked mask 0 payload)) c'

  -- It is not, or not wholly: the transport failed.
  pub record IsLost (size : ℕ) (c : WebSocketConnection W) (e : Error) (c' : WebSocketConnection W)
      : Type 0 where
    pub is_transport : e.category ≡ transport_error
    pub put : List ℕ
    pub moved : IsMove os outgoing c [] put c'
    pub blocked : IsWritable os outgoing → has c.fd ≡ true → size < 2 ^ 30 → ⊥

  -- The buffer goes out.
  pub flush-IsMove :
      (bytes : List ℕ) (size : ℕ) (c d : WebSocketConnection W)
      → IsStill os outgoing c d
      → d.web_socket_frame_buffer ≡ bytes
      → length bytes ≤ size + 64
      → Ensures
          (λ _ e. IsMove os outgoing c [] bytes e)
          (IsLost size c)
          (transport_write os d.web_socket_frame_buffer d)
  flush-IsMove bytes size c d still buffered bound =
      Ensures-mono (λ _ e. IsMove os outgoing d [] d.web_socket_frame_buffer e)
        (λ _ e. IsMove os outgoing c [] bytes e)
        (IsCutWrite os outgoing law d d.web_socket_frame_buffer) (IsLost size c)
        (transport_write os d.web_socket_frame_buffer d)
        (transport_write-IsMove os outgoing law d.web_socket_frame_buffer d)
        (λ f e cut. record {
          is_transport = cut.is_transport;
          put = cut.put;
          moved = still_then os outgoing c d e [] cut.put still cut.moved;
          blocked = λ live is_open small.
              cut.blocked live (ap has still.same_fd ∙ is_open)
                (omega (arith, ap length buffered, bound));
        })
        λ _ e m. rw⁻¹ buffered (still_then os outgoing c d e [] d.web_socket_frame_buffer still m)

  -- A mask and the data under it stand at the end of the buffer.
  record IsHidden (payload : List ℕ) (c d : WebSocketConnection W) : Type 0 where
    mask : List ℕ
    sized : length mask ≡ 4
    are_bytes : IsBytes mask
    still : IsStill os outgoing c d
    buffered :
        d.web_socket_frame_buffer ≡ c.web_socket_frame_buffer ++ (mask ++ masked mask 0 payload)

  append_masked_payload-IsHidden :
      (payload : List ℕ) (c : WebSocketConnection W)
      → Ensures (λ _. IsHidden payload c) Never (append_masked_payload os payload c)
  unfolding append_masked_payload
  append_masked_payload-IsHidden payload c =
      and_then-Ensures (IsMasked os outgoing law 4 c) Never (λ _. IsHidden payload c) Never
        (append_mask os 4 c) _ (append_mask-IsMasked os outgoing law 4 c)
        (λ e s never. absurd never)
        λ mask d drawn. record {
          mask = mask;
          sized = drawn.sized;
          are_bytes = drawn.are_bytes;
          still =
              then_still os outgoing c d _ [] [] drawn.still (buffer-IsStill os outgoing law d _);
          buffered =
              ap (λ (m : Masked). m.0)
                (append_masked_payload_with_mask-masked mask payload d.web_socket_frame_buffer 0)
              ∙ ap (λ (t : List ℕ). t ++ masked mask 0 payload) drawn.buffered
              ∙ append_assoc c.web_socket_frame_buffer mask (masked mask 0 payload);
        }

  -- The part from the mask on.
  send_masked-IsCarried :
      (start payload : List ℕ) (c : WebSocketConnection W)
      → c.web_socket_frame_buffer ≡ start
      → length start ≤ 10
      → Ensures
          (λ _. IsCarried start payload c)
          (IsLost (length payload) c)
          ((do
            append_masked_payload os payload
            self ← get
            transport_write os (self.web_socket_frame_buffer))
            c)
  send_masked-IsCarried start payload c begun short =
      and_then-Ensures (λ _. IsHidden payload c) Never (λ _. IsCarried start payload c)
        (IsLost (length payload) c) (append_masked_payload os payload c) _
        (append_masked_payload-IsHidden payload c) (λ e s never. absurd never)
        λ _ d hidden.
          let bytes : List ℕ = start ++ (hidden.mask ++ masked hidden.mask 0 payload) in
          Ensures-mono (λ _ e. IsMove os outgoing c [] bytes e) (λ _. IsCarried start payload c)
            (IsLost (length payload) c) (IsLost (length payload) c)
            (transport_write os d.web_socket_frame_buffer d)
            (flush-IsMove bytes (length payload) c d hidden.still
              (hidden.buffered
                ∙ ap (λ (t : List ℕ). t ++ (hidden.mask ++ masked hidden.mask 0 payload)) begun)
              (carried_length start payload hidden.mask short hidden.sized))
            (λ _ _ lost. lost)
            λ _ e m. record {
              mask = hidden.mask;
              sized = hidden.sized;
              are_bytes = hidden.are_bytes;
              moved = m;
            }

  from_start-IsCarried :
      (start payload : List ℕ) (c : WebSocketConnection W) (e : WebSocketConnection W)
      → IsCarried start payload (record c { web_socket_frame_buffer = start }) e
      → IsCarried start payload c e
  from_start-IsCarried start payload c e h = record {
    mask = h.mask;
    sized = h.sized;
    are_bytes = h.are_bytes;
    moved = still_then os outgoing c _ e [] _ (buffer-IsStill os outgoing law c start) h.moved;
  }

  from_start-IsLost :
      (start : List ℕ) (size : ℕ) (c : WebSocketConnection W) (f : Error)
      (e : WebSocketConnection W)
      → IsLost size (record c { web_socket_frame_buffer = start }) f e
      → IsLost size c f e
  from_start-IsLost start size c f e h = record {
    is_transport = h.is_transport;
    put = h.put;
    moved = still_then os outgoing c _ e [] h.put (buffer-IsStill os outgoing law c start) h.moved;
    blocked = h.blocked;
  }

  -- The same from a buffer that is cleared.
  begin-IsCarried :
      (start payload : List ℕ) (c : WebSocketConnection W)
      → length start ≤ 10
      → Ensures
          (λ _. IsCarried start payload c)
          (IsLost (length payload) c)
          ((do
            append_masked_payload os payload
            self ← get
            transport_write os (self.web_socket_frame_buffer))
            (record c { web_socket_frame_buffer = start }))
  begin-IsCarried start payload c short =
      Ensures-mono (λ _. IsCarried start payload (record c { web_socket_frame_buffer = start })) _
        (IsLost (length payload) (record c { web_socket_frame_buffer = start })) _ _
        (send_masked-IsCarried start payload (record c { web_socket_frame_buffer = start }) refl
          short)
        (from_start-IsLost start (length payload) c)
        (λ _ e h. from_start-IsCarried start payload c e h)

  -- A data frame.
  pub send_data-IsCarried :
      (first : ℕ) (payload : List ℕ) (c : WebSocketConnection W)
      → Ensures
          (λ _. IsCarried (frame_start first (length payload)) payload c)
          (IsLost (length payload) c)
          (send_data os first payload c)
  unfolding send_data
  send_data-IsCarried first payload c =
      begin-IsCarried (frame_start first (length payload)) payload c
        (length-frame_start first (length payload))

  -- A control frame.
  pub send_control-IsCarried :
      (opcode : ℕ) (payload : List ℕ) (c : WebSocketConnection W)
      → length payload ≤ 125
      → Ensures
          (λ _.
            IsCarried
              ((bit_or 0x80 opcode % 2 ^ 8) ∷ (bit_or 0x80 (length payload) % 2 ^ 8) ∷ [])
              payload
              c)
          (IsLost (length payload) c)
          (send_control os opcode payload c)
  unfolding send_control
  send_control-IsCarried opcode payload c small = rw (le→ltb_false 125 (length payload) small) (
      begin-IsCarried ((bit_or 0x80 opcode % 2 ^ 8) ∷ (bit_or 0x80 (length payload) % 2 ^ 8) ∷ [])
        payload c (omega arith))
