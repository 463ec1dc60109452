-- ===== src/Frame/Encode.antt =====
-- src/frame.cpp: a frame is written into a vector, which is the state of an action. A store out of
-- range is a fault.
use exasol_gateway_sdk.Errors.{resource_limit}
use exasol_gateway_sdk.Base.{
  ℕ, ◌+◌, ◌%◌, ◌^◌, List, [], Result, ok, err, fault, ltb, length, if◌then◌else◌,
}
use exasol_gateway_sdk.Base.Stores.{Writes, store, byte_of, store_u64_loop, copy, resize}
use exasol_gateway_sdk.Base.State.{◌>>◌, modify, throw}
use exasol_gateway_sdk.Frame.{
  Frame, FrameHeader, frame_magic, protocol_version_v1, frame_header_size,
}

unfoldable pub write_u16 : ℕ → ℕ → Writes
write_u16 offset v = do store offset (byte_of v 8); store (offset + 1) (byte_of v 0)

unfoldable pub write_u32 : ℕ → ℕ → Writes
write_u32 offset v = do
  store offset (byte_of v 24)
  store (offset + 1) (byte_of v 16)
  store (offset + 2) (byte_of v 8)
  store (offset + 3) (byte_of v 0)

unfoldable pub write_u64 : ℕ → ℕ → Writes
write_u64 offset v = store_u64_loop 8 0 offset v

abbrev pub u32_max : ℕ
u32_max = 0xffff_ffff

unfoldable pub write_frame : Frame → FrameHeader → Writes
write_frame frame header = do
  modify (resize (frame_header_size + length frame.payload))
  write_u32 0 header.magic
  write_u16 4 header.version
  write_u16 6 header.message_type
  write_u16 8 header.flags
  write_u16 10 0
  write_u64 12 header.request_id
  write_u32 20 header.payload_length
  copy frame.payload frame_header_size

unfoldable pub encode_frame_into : Frame → Writes
encode_frame_into frame =
    if ltb u32_max (length frame.payload)
    then throw resource_limit "SessionGW frame payload is too large"
    else write_frame frame (record (frame.header) {
      magic = frame_magic;
      version = protocol_version_v1;
      payload_length = length frame.payload % 2 ^ 32;
    })

abbrev returning : Result (Unit {0}) × List ℕ → Result (List ℕ)
returning (ok u, out) = ok out
returning (err e, out) = err e
returning (fault, out) = fault

unfoldable pub encode_frame : Frame → Result (List ℕ)
encode_frame frame = returning (encode_frame_into frame [])
