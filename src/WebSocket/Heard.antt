-- ===== src/WebSocket/Heard.antt =====
-- `receiveBinary`: what a round of its loop reads.
use exasol_gateway_sdk.Errors.{Error}
use exasol_gateway_sdk.Base.{
  ℕ, zero, suc, ◌+◌, ◌≤◌, List, [], ◌++◌, Bool, true, false, length, ◌≡◌, refl, ap, bit_and, arith,
  get_or, Bool-cases, inl, inr, ◌==◌, ltb, leb, not, length-append,
}
use exasol_gateway_sdk.Base.Bytes.{at-lt}
use exasol_gateway_sdk.Base.Judged.{is_wire}
use exasol_gateway_sdk.Base.State.{pure, ◌>>=◌, ◌>>◌}
use exasol_gateway_sdk.Base.Ensures.{
  Ensures, and_then-Ensures, Ensures-mono, branch-Ensures, require-Ensures,
}
use exasol_gateway_sdk.WebSocket.{WebSocketConnection, WebSocketStatistics, Platform}
use exasol_gateway_sdk.WebSocket.Transport.{started, count_since, transport_read}
use exasol_gateway_sdk.WebSocket.Masking.{read_big_endian}
use exasol_gateway_sdk.WebSocket.Turns.{Received}
use exasol_gateway_sdk.WebSocket.Receive.{
  read_header_bytes, read_length_16, read_length_64, read_length, read_payload, read_frame,
  read_data, read_behind, is_bad_control, is_too_large, max_websocket_message_size,
}
use exasol_gateway_sdk.WebSocket.Streams.{
  IsPlatform, IsMove, IsMove-refl, IsMove-trans, still_then, then_still,
}
use exasol_gateway_sdk.WebSocket.Quiet.{Never, Still, started-Still, count_since-Still}
use exasol_gateway_sdk.WebSocket.Filled.{IsCutRead, since-IsCutRead, transport_read-IsMove}

module _ {W : Type 0} (os : Platform W) (outgoing : W → List ℕ) (law : IsPlatform os outgoing) where
  timed_read-IsMove :
      (size : ℕ) (f : ℕ → WebSocketStatistics → WebSocketStatistics) (c : WebSocketConnection W)
      → Ensures
          (λ bytes c'. (length bytes ≡ size) × IsMove os outgoing c bytes [] c')
          (IsCutRead os outgoing law c size)
          ((do
            start ← started os
            bytes ← transport_read os size
            count_since os start f
            pure bytes)
            c)
  timed_read-IsMove size f c =
      and_then-Ensures (Still os outgoing c) Never _ (IsCutRead os outgoing law c size)
        (started os c) _ (started-Still os outgoing law c) (λ e s never. absurd never)
        λ start d still.
          and_then-Ensures (λ bytes c'. (length bytes ≡ size) × IsMove os outgoing d bytes [] c')
            (IsCutRead os outgoing law d size) _ (IsCutRead os outgoing law c size)
            (transport_read os size d) _ (transport_read-IsMove os outgoing law size d)
            (λ e s cut. since-IsCutRead os outgoing law c d size still e s cut)
            λ bytes e full.
              and_then-Ensures (Still os outgoing e) Never _ (IsCutRead os outgoing law c size)
                (count_since os start f e) _ (count_since-Still os outgoing law start f e)
                (λ g s never. absurd never)
                λ _ g quiet. (
                  full.0,
                  then_still os outgoing c e g bytes []
                      (still_then os outgoing c d e bytes [] still full.1) quiet,
                )

  pub read_header_bytes-IsMove :
      (size : ℕ) (c : WebSocketConnection W)
      → Ensures
          (λ bytes c'. (length bytes ≡ size) × IsMove os outgoing c bytes [] c')
          (IsCutRead os outgoing law c size)
          (read_header_bytes os size c)
  unfolding read_header_bytes
  read_header_bytes-IsMove size c = timed_read-IsMove size _ c

  pub read_payload-IsMove :
      (size : ℕ) (c : WebSocketConnection W)
      → Ensures
          (λ bytes c'. (length bytes ≡ size) × IsMove os outgoing c bytes [] c')
          (IsCutRead os outgoing law c size)
          (read_payload os size c)
  unfolding read_payload
  read_payload-IsMove zero c = (refl, IsMove-refl os outgoing c)
  read_payload-IsMove (suc n) c = timed_read-IsMove (suc n) _ c

  -- At least `n` bytes are read, and nothing is written.
  pub record IsHeard (n : ℕ) (c c' : WebSocketConnection W) : Type 0 where
    pub got : List ℕ
    pub enough : n ≤ length got
    pub moved : IsMove os outgoing c got [] c'

  abbrev pub Wire : Error → WebSocketConnection W → Type 0
  Wire e c = is_wire e.category ≡ true

  pub IsHeard-trans :
      (m n : ℕ) (c d e : WebSocketConnection W)
      → IsHeard m c d
      → IsHeard n d e
      → IsHeard (m + n) c e
  IsHeard-trans m n c d e h k = record {
    got = h.got ++ k.got;
    enough = omega (arith, length-append {0} h.got k.got, h.enough, k.enough);
    moved = IsMove-trans os outgoing c d e h.got [] k.got [] h.moved k.moved;
  }

  cut-Wire :
      (c : WebSocketConnection W) (size : ℕ) (e : Error) (s : WebSocketConnection W)
      → IsCutRead os outgoing law c size e s
      → Wire e s
  cut-Wire c size e s cut = ap is_wire cut.is_transport

  read_length_16-IsHeard :
      (c : WebSocketConnection W) → Ensures (λ _. IsHeard 0 c) Wire (read_length_16 os c)
  unfolding read_length_16
  read_length_16-IsHeard c =
      and_then-Ensures (λ bytes c'. (length bytes ≡ 2) × IsMove os outgoing c bytes [] c')
        (IsCutRead os outgoing law c 2) _ Wire (read_header_bytes os 2 c) _
        (read_header_bytes-IsMove 2 c) (cut-Wire c 2)
        λ bytes d full.
          require-Ensures _ Wire (not (ltb (read_big_endian bytes 0) 126)) _ d _ (λ _. refl)
            λ _. record { got = bytes; enough = omega arith; moved = full.1 }

  read_length_64-IsHeard :
      (c : WebSocketConnection W) → Ensures (λ _. IsHeard 0 c) Wire (read_length_64 os c)
  unfolding read_length_64
  read_length_64-IsHeard c =
      and_then-Ensures (λ bytes c'. (length bytes ≡ 8) × IsMove os outgoing c bytes [] c')
        (IsCutRead os outgoing law c 8) _ Wire (read_header_bytes os 8 c) _
        (read_header_bytes-IsMove 8 c) (cut-Wire c 8)
        λ bytes d full. rw (at-lt bytes 0 (omega (arith, full.0))) (
          require-Ensures _ Wire (bit_and (get_or bytes 0 0) 0x80 == 0) _ d _ (λ _. refl)
            λ _.
              require-Ensures _ Wire (not (leb (read_big_endian bytes 0) 0xffff)) _ d _ (λ _. refl)
                λ _. record { got = bytes; enough = omega arith; moved = full.1 })

  read_length-IsHeard :
      (short : ℕ) (c : WebSocketConnection W)
      → Ensures (λ _. IsHeard 0 c) Wire (read_length os short c)
  unfolding read_length
  read_length-IsHeard short c =
      branch-Ensures (λ _. IsHeard 0 c) Wire (short == 126) (read_length_16 os) _ c
        (λ _. read_length_16-IsHeard c)
        λ _.
          branch-Ensures (λ _. IsHeard 0 c) Wire (short == 127) (read_length_64 os) _ c
            (λ _. read_length_64-IsHeard c)
            λ _. record { got = []; enough = omega arith; moved = IsMove-refl os outgoing c }

  -- A frame that a round accepts: it took two bytes at least, and its data fit the message.
  pub record IsFrameHeard (received : ℕ) (c : WebSocketConnection W) (frame : Received)
      (c' : WebSocketConnection W) : Type 0 where
    pub heard : IsHeard 2 c c'
    pub fits : received + length frame.payload ≤ max_websocket_message_size

  small_enough :
      (received n : ℕ) → is_too_large received n ≡ false → received + n ≤ max_websocket_message_size
  small_enough received n h = ground arith

  -- What is read behind the header, in a frame whose header has been read.
  pub record IsBehind (received : ℕ) (c : WebSocketConnection W) (frame : Received)
      (c' : WebSocketConnection W) : Type 0 where
    pub heard : IsHeard 0 c c'
    pub fits : received + length frame.payload ≤ max_websocket_message_size

  read_data-IsBehind :
      (received : ℕ) (fin : Bool) (opcode n : ℕ) (c : WebSocketConnection W)
      → Ensures (IsBehind received c) Wire (read_data os received fin opcode n c)
  unfolding read_data
  read_data-IsBehind received fin opcode n c = elim (Bool-cases (is_too_large received n)) [
    | inl large ↦ rw large refl
    | inr small ↦ rw small (
        and_then-Ensures (λ bytes c'. (length bytes ≡ n) × IsMove os outgoing c bytes [] c')
          (IsCutRead os outgoing law c n) (IsBehind received c) Wire (read_payload os n c)
          (λ payload. pure (record { fin = fin; opcode = opcode; payload = payload }))
          (read_payload-IsMove n c) (cut-Wire c n)
          λ payload d read. record {
            heard = record { got = payload; enough = omega arith; moved = read.1 };
            fits = rw read.0 (small_enough received n small);
          })
  ]

  read_behind-IsBehind :
      (received first second : ℕ) (c : WebSocketConnection W)
      → Ensures (IsBehind received c) Wire (read_behind os received first second c)
  unfolding read_behind
  read_behind-IsBehind received first second c =
      require-Ensures (IsBehind received c) Wire (bit_and first 0x70 == 0) _ c _ (λ _. refl)
        λ _.
          require-Ensures (IsBehind received c) Wire (bit_and second 0x80 == 0) _ c _ (λ _. refl)
            λ _.
              and_then-Ensures (λ _. IsHeard 0 c) Wire (IsBehind received c) Wire
                (read_length os (bit_and second 0x7f) c) _ (read_length-IsHeard _ c) (λ _ _ w. w)
                λ n d sized.
                  require-Ensures (IsBehind received c) Wire
                    (not (is_bad_control (not (bit_and first 0x80 == 0)) (bit_and first 0x0f) n)) _
                    d _ (λ _. refl)
                    λ _.
                      Ensures-mono (IsBehind received d) (IsBehind received c) Wire Wire
                        (read_data os received (not (bit_and first 0x80 == 0)) (bit_and first 0x0f)
                          n d)
                        (read_data-IsBehind received (not (bit_and first 0x80 == 0))
                          (bit_and first 0x0f) n d)
                        (λ _ _ w. w)
                        λ frame e behind. record {
                          heard = IsHeard-trans 0 0 c d e sized behind.heard;
                          fits = behind.fits;
                        }

  pub read_frame-IsFrameHeard :
      (received : ℕ) (c : WebSocketConnection W)
      → Ensures (IsFrameHeard received c) Wire (read_frame os received c)
  unfolding read_frame
  read_frame-IsFrameHeard received c =
      and_then-Ensures (λ bytes c'. (length bytes ≡ 2) × IsMove os outgoing c bytes [] c')
        (IsCutRead os outgoing law c 2) (IsFrameHeard received c) Wire (read_header_bytes os 2 c) _
        (read_header_bytes-IsMove 2 c) (cut-Wire c 2)
        λ bytes d full.
          rw (at-lt bytes 0 (omega (arith, full.0)), at-lt bytes 1 (omega (arith, full.0)))
            (Ensures-mono (IsBehind received d) (IsFrameHeard received c) Wire Wire
              (read_behind os received (get_or bytes 0 0) (get_or bytes 1 0) d)
              (read_behind-IsBehind received (get_or bytes 0 0) (get_or bytes 1 0) d) (λ _ _ w. w)
              λ frame e behind. record {
                heard =
                    IsHeard-trans 2 0 c d e
                      (record { got = bytes; enough = omega (arith, full.0); moved = full.1 })
                      behind.heard;
                fits = behind.fits;
              })
