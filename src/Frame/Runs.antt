-- ===== src/Frame/Runs.antt =====
-- Concrete frames, and the theorems at concrete inputs.
use exasol_gateway_sdk.Base.{
  ℕ, ◌<◌, ◌^◌, List, [], ◌∷◌, ok, err, length, ◌≡◌, refl, arith, ltb, if◌then◌else◌, map,
}
use exasol_gateway_sdk.Base.Bytes.{IsBytes, at, read_big_endian}
use exasol_gateway_sdk.Base.Stores.{store, store_u64_loop, copy}
use exasol_gateway_sdk.Frame.{Frame, frame_magic, protocol_version_v1}
use exasol_gateway_sdk.Frame.Message.{describe_table}
use exasol_gateway_sdk.Frame.Encode.{
  write_u16, write_u32, write_u64, write_frame, encode_frame_into, encode_frame, u32_max,
}
use exasol_gateway_sdk.Frame.Decode.{
  read_u16, read_u32, read_u64, decode_body, decode_version, decode_magic, decode_frame,
}
use exasol_gateway_sdk.Frame.Layout.{
  wire, sent_header, too_large, encode_frame_into-layout, encode_frame-layout,
}
use exasol_gateway_sdk.Frame.Fields.{IsHeader, judged, broken, decode_frame-wire}
use exasol_gateway_sdk.Frame.RoundTrip.{
  decode_frame_sound, decode_frame-encode_frame, encode_frame-decode_frame,
}

-- A request to describe a table, whose magic, version and length are not set.
abbrev request : Frame
request = record {
  header = record {
    magic = 0;
    version = 0;
    message_type = describe_table;
    flags = 0;
    request_id = 0x0102;
    payload_length = 99;
  };
  payload = 1 ∷ 2 ∷ 3 ∷ [];
}

abbrev request_bytes : List ℕ
request_bytes =
    0x53 ∷ 0x47 ∷ 0x57 ∷ 0x31 ∷ 0 ∷ 1 ∷ 0 ∷ 8 ∷ 0 ∷ 0 ∷ 0 ∷ 0 ∷ 0 ∷ 0 ∷ 0 ∷ 0 ∷ 0 ∷ 0 ∷ 1 ∷ 2 ∷ 0
    ∷ 0 ∷ 0 ∷ 3 ∷ 1 ∷ 2 ∷ 3 ∷ []

abbrev sent : Frame
sent = record {
  header = record (request.header) {
    magic = frame_magic;
    version = protocol_version_v1;
    payload_length = 3;
  };
  payload = request.payload;
}

request_encoded : encode_frame request ≡ ok request_bytes
unfolding encode_frame encode_frame_into write_frame write_u16 write_u32 write_u64 store_u64_loop
    copy store
request_encoded = refl

request_decoded : decode_frame request_bytes ≡ ok sent
unfolding decode_frame decode_magic decode_version decode_body read_u16 read_u32 read_u64
    read_big_endian at
request_decoded = refl

wrong_version :
    decode_frame (0x53 ∷ 0x47 ∷ 0x57 ∷ 0x31 ∷ 0 ∷ 2 ∷ map (λ x. x) request_bytes)
    ≡ err (broken "SessionGW frame has unsupported version")
unfolding decode_frame decode_magic decode_version read_u16 read_u32 at
wrong_version = refl

request_bytes-IsBytes : IsBytes request_bytes
request_bytes-IsBytes = omega arith

request-IsHeader : IsHeader (sent_header request)
unfolding sent_header
request-IsHeader = omega arith

encode_frame_into-layout_example : encode_frame_into request (7 ∷ 7 ∷ []) ≡ (
    if ltb u32_max 3
    then (err too_large, 7 ∷ 7 ∷ [])
    else (ok tt, wire (sent_header request) 0 (1 ∷ 2 ∷ 3 ∷ [])))
encode_frame_into-layout_example = encode_frame_into-layout request (7 ∷ 7 ∷ [])

encode_frame-layout_example :
    encode_frame request ≡ ok (wire (sent_header request) 0 (1 ∷ 2 ∷ 3 ∷ []))
encode_frame-layout_example = encode_frame-layout request (omega arith)

decode_frame-wire_example :
    decode_frame (wire (sent_header request) 5 (1 ∷ [])) ≡ judged (sent_header request) (1 ∷ [])
decode_frame-wire_example = decode_frame-wire (sent_header request) 5 (1 ∷ []) request-IsHeader

decode_frame_sound_example :
    (reserved : ℕ) × (reserved < 2 ^ 16)
    × (request_bytes ≡ wire sent.header reserved sent.payload)
    × IsHeader sent.header
    × (sent.header.magic ≡ frame_magic)
    × (sent.header.version ≡ protocol_version_v1)
    × (sent.header.payload_length ≡ length sent.payload)
decode_frame_sound_example =
    decode_frame_sound request_bytes sent request_bytes-IsBytes request_decoded

decode_frame-encode_frame_example :
    (bytes : List ℕ) × (encode_frame request ≡ ok bytes)
    × (decode_frame bytes ≡ ok (record { header = sent_header request; payload = request.payload }))
decode_frame-encode_frame_example = decode_frame-encode_frame request request-IsHeader

encode_frame-decode_frame_example : encode_frame sent ≡ ok request_bytes
encode_frame-decode_frame_example =
    encode_frame-decode_frame request_bytes sent request_bytes-IsBytes refl request_decoded
