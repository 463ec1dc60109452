-- ===== src/WebSocket/Drawn.antt =====
-- A mask is drawn, and stands behind what the buffer holds.
use exasol_gateway_sdk.Base.{
  ℕ, zero, suc, ◌+◌, ◌%◌, ◌^◌, ◌≤◌, List, [], ◌∷◌, ◌++◌, length, ◌≡◌, refl, Bool-cases, inl, inr,
  sym, ap, ◌∙◌, arith, leb, length-append, append-nil, append_assoc,
}
use exasol_gateway_sdk.Base.Bytes.{IsBytes}
use exasol_gateway_sdk.Base.Ensures.{Ensures, and_then-Ensures}
use exasol_gateway_sdk.WebSocket.{WebSocketConnection, Platform}
use exasol_gateway_sdk.WebSocket.Masking.{append_big_endian, frame_start}
use exasol_gateway_sdk.WebSocket.Masks.{masked, length-masked}
use exasol_gateway_sdk.WebSocket.Send.{append_mask}
use exasol_gateway_sdk.WebSocket.Streams.{IsPlatform, IsMove-refl, IsStill, still_then, then_still}
use exasol_gateway_sdk.WebSocket.Quiet.{Never, quiet-IsStill}

pub carried_length :
    (start payload mask : List ℕ)
    → length start ≤ 10
    → length mask ≡ 4
    → length (start ++ (mask ++ masked mask 0 payload)) ≤ length payload + 64
carried_length start payload mask short sized = omega (
  arith,
  length-append {0} start (mask ++ masked mask 0 payload),
  length-append {0} mask (masked mask 0 payload),
  length-masked mask 0 payload,
)

pub length-frame_start : (first size : ℕ) → length (frame_start first size) ≤ 10
unfolding frame_start append_big_endian
length-frame_start first size = elim (Bool-cases (leb size 125)) [
  | inl short ↦ rw short (omega arith)
  | inr long ↦ rw long (elim (Bool-cases (leb size 0xffff)) [
    | inl medium ↦ rw medium (omega arith)
    | inr longer ↦ rw longer (omega arith)
  ])
]

module _ {W : Type 0} (os : Platform W) (outgoing : W → List ℕ) (law : IsPlatform os outgoing) where
  -- The mask that is drawn stands at the end of the buffer.
  pub record IsMasked (n : ℕ) (c : WebSocketConnection W) (mask : List ℕ)
      (c' : WebSocketConnection W) : Type 0 where
    pub sized : length mask ≡ n
    pub are_bytes : IsBytes mask
    pub still : IsStill os outgoing c c'
    pub buffered : c'.web_socket_frame_buffer ≡ c.web_socket_frame_buffer ++ mask

  pub buffer-IsStill :
      (c : WebSocketConnection W) (out : List ℕ)
      → IsStill os outgoing c (record c { web_socket_frame_buffer = out })
  buffer-IsStill c out = record {
    same_fd = refl;
    same_ssl = refl;
    same_context = refl;
    read = refl;
    wrote = sym (append-nil (outgoing c.world));
  }

  pub append_mask-IsMasked :
      (n : ℕ) (c : WebSocketConnection W) → Ensures (IsMasked n c) Never (append_mask os n c)
  unfolding append_mask
  append_mask-IsMasked zero c = record {
    sized = refl;
    are_bytes = tt;
    still = IsMove-refl os outgoing c;
    buffered = sym (append-nil _);
  }
  append_mask-IsMasked (suc n) c =
      and_then-Ensures (IsMasked n d) Never (IsMasked (suc n) c) Never (append_mask os n d) _
        (append_mask-IsMasked n d) (λ e s never. absurd never)
        λ mask e rest. record {
          sized = ap suc rest.sized;
          are_bytes = (omega arith, rest.are_bytes);
          still = still_then os outgoing c d e [] [] drawn rest.still;
          buffered = rest.buffered ∙ append_assoc c.web_socket_frame_buffer (byte ∷ []) mask;
        }
    where
      byte : ℕ
      byte = (os.random c.world).0 % 2 ^ 8

      d : WebSocketConnection W
      d = record c {
        world = (os.random c.world).1;
        web_socket_frame_buffer = c.web_socket_frame_buffer ++ byte ∷ [];
      }

      drawn : IsStill os outgoing c d
      drawn =
          then_still os outgoing c _ d [] []
            (quiet-IsStill os outgoing law c _ (law.random_quiet c.world))
            (buffer-IsStill (record c { world = (os.random c.world).1 }) _)
