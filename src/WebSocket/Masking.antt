-- ===== src/WebSocket/Masking.antt =====
-- src/websocket.cpp: the bytes of a client's frame. A `std::vector` that is appended to is returned.
use exasol_gateway_sdk.Base.{
  ℕ, zero, suc, ◌+◌, ◌*◌, ◌%◌, ◌^◌, bit_or, bit_xor, List, [], ◌∷◌, ◌++◌, leb, length, get_or,
  if◌then◌else◌,
}
use exasol_gateway_sdk.Base.Stores.{byte_of}
use exasol_gateway_sdk.Base.Bytes.{shift_in}
use exasol_gateway_sdk.Frame.{frame_magic, protocol_version_v1}

-- The loop of `readBigEndian`.
unfoldable pub read_big_endian : List ℕ → ℕ → ℕ
read_big_endian [] result = result
read_big_endian (byte ∷ bytes) result = read_big_endian bytes (shift_in 64 result byte)

-- With `left` bytes to go.
unfoldable pub append_big_endian : List ℕ → ℕ → ℕ → List ℕ
append_big_endian out v zero = out
append_big_endian out v (suc left) = append_big_endian (out ++ byte_of v (left * 8) ∷ []) v left

-- The vector, and the place of the next byte in the masked data.
abbrev pub Masked : Type 0
Masked = List ℕ × ℕ

-- A mask has four bytes.
unfoldable pub append_masked_byte : List ℕ → ℕ → Masked → Masked
append_masked_byte mask v (out, index) =
    (out ++ bit_xor v (get_or mask (index % 4) 0) ∷ [], index + 1)

unfoldable pub append_masked_big_endian : List ℕ → ℕ → ℕ → Masked → Masked
append_masked_big_endian mask v zero m = m
append_masked_big_endian mask v (suc left) m =
    append_masked_big_endian mask v left (append_masked_byte mask (byte_of v (left * 8)) m)

unfoldable pub append_masked_payload_with_mask : List ℕ → List ℕ → Masked → Masked
append_masked_payload_with_mask mask [] m = m
append_masked_payload_with_mask mask (byte ∷ payload) m =
    append_masked_payload_with_mask mask payload (append_masked_byte mask byte m)

-- `appendMaskedSessionGatewayFrame` of a payload that is not too large.
unfoldable pub append_masked_session_gateway_frame : List ℕ → ℕ → ℕ → List ℕ → Masked → Masked
append_masked_session_gateway_frame mask message_type request_id payload m =
    append_masked_payload_with_mask mask payload (
      append_masked_big_endian mask (length payload % 2 ^ 32) 4 (
        append_masked_big_endian mask request_id 8 (
          append_masked_big_endian mask 0 2 (
            append_masked_big_endian mask 0 2 (
              append_masked_big_endian mask (message_type % 2 ^ 16) 2 (
                append_masked_big_endian mask protocol_version_v1 2
                  (append_masked_big_endian mask frame_magic 4 m)))))))

-- The first byte of a frame and the length of its data, with the bit that says that it is masked.
unfoldable pub frame_start : ℕ → ℕ → List ℕ
frame_start first size =
    if leb size 125
    then first ∷ (bit_or 0x80 size % 256) ∷ []
    else if leb size 0xffff
    then append_big_endian (first ∷ bit_or 0x80 126 ∷ []) size 2
    else append_big_endian (first ∷ bit_or 0x80 127 ∷ []) size 8
