-- ===== src/Frame/Decode.antt =====
-- src/frame.cpp: a frame is read from a byte sequence.
use exasol_gateway_sdk.Errors.{protocol_error}
use exasol_gateway_sdk.Base.{
  ℕ, ◌+◌, ◌*◌, ◌%◌, ◌^◌, bit_or, List, Result, ok, ltb, ◌==◌, not, length, drop, if◌then◌else◌,
}
use exasol_gateway_sdk.Base.Bytes.{at, read_big_endian}
use exasol_gateway_sdk.Base.Outcome.{◌>>=◌, throw}
use exasol_gateway_sdk.Frame.{Frame, frame_magic, protocol_version_v1, frame_header_size}

unfoldable pub read_u16 : List ℕ → ℕ → Result ℕ
read_u16 bytes offset = do
  a ← at bytes offset
  b ← at bytes (offset + 1)
  ok (bit_or (a * 2 ^ 8) b % 2 ^ 16)

unfoldable pub read_u32 : List ℕ → ℕ → Result ℕ
read_u32 bytes offset = do
  a ← at bytes offset
  b ← at bytes (offset + 1)
  c ← at bytes (offset + 2)
  d ← at bytes (offset + 3)
  ok (bit_or (bit_or (bit_or (a * 2 ^ 24 % 2 ^ 32) (b * 2 ^ 16 % 2 ^ 32)) (c * 2 ^ 8 % 2 ^ 32)) d)

unfoldable pub read_u64 : List ℕ → ℕ → Result ℕ
read_u64 bytes offset = read_big_endian 64 8 bytes offset 0

-- The rest of `decode_frame` once the magic and the version are right.
unfoldable pub decode_body : List ℕ → ℕ → ℕ → Result Frame
decode_body bytes magic version = do
  message_type ← read_u16 bytes 6
  flags ← read_u16 bytes 8
  request_id ← read_u64 bytes 12
  payload_length ← read_u32 bytes 20
  if not (length bytes == frame_header_size + payload_length)
      then throw protocol_error "SessionGW frame payload length does not match buffer size"
      else ok (record {
        header = record {
          magic = magic;
          version = version;
          message_type = message_type;
          flags = flags;
          request_id = request_id;
          payload_length = payload_length;
        };
        payload = drop frame_header_size bytes;
      })

unfoldable pub decode_version : List ℕ → ℕ → Result Frame
unfolding decode_body
decode_version bytes magic = do
  version ← read_u16 bytes 4
  if not (version == protocol_version_v1)
      then throw protocol_error "SessionGW frame has unsupported version"
      else decode_body bytes magic version

unfoldable pub decode_magic : List ℕ → Result Frame
unfolding decode_version
decode_magic bytes = do
  magic ← read_u32 bytes 0
  if not (magic == frame_magic)
      then throw protocol_error "SessionGW frame has invalid magic"
      else decode_version bytes magic

unfoldable pub decode_frame : List ℕ → Result Frame
unfolding decode_magic
decode_frame bytes =
    if ltb (length bytes) frame_header_size
    then throw protocol_error "SessionGW frame is shorter than the header"
    else decode_magic bytes
