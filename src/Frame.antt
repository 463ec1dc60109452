-- ===== src/Frame.antt =====
-- include/sessiongw/frame.hpp: the SGW1 frame. `Encode` and `Decode` hold the functions of
-- src/frame.cpp, the other children what is proved about them.
pub mod Message
pub mod Encode
pub mod Decode
pub mod Layout
pub mod Fields
pub mod RoundTrip
pub mod Judged
mod Runs
use exasol_gateway_sdk.Base.{ℕ, List}

abbrev pub frame_magic : ℕ
frame_magic = 0x53475731

abbrev pub protocol_version_v1 : ℕ
protocol_version_v1 = 1

abbrev pub frame_header_size : ℕ
frame_header_size = 24

-- `message_type` is the underlying value of the enumeration: a cast from the wire can give it
-- any 16-bit value.
pub record FrameHeader : Type 0 where
  pub magic : ℕ
  pub version : ℕ
  pub message_type : ℕ
  pub flags : ℕ
  pub request_id : ℕ
  pub payload_length : ℕ

pub record Frame : Type 0 where
  pub header : FrameHeader
  pub payload : List ℕ
