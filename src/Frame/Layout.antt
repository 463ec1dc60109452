-- ===== src/Frame/Layout.antt =====
-- The bytes that `encode_frame_into` leaves in the vector.
use exasol_gateway_sdk.Base.{
  ℕ, ◌+◌, ◌-◌, ◌^◌, ◌<◌, List, [], ◌++◌, ok, err, ltb, length, take, length-append, length-take,
  length-replicate, ◌≡◌, refl, sym, ap, ◌∙◌, arith, false, Bool-cases, inl, inr, if◌then◌else◌,
  le→ltb_false,
}
use native.Mathlib.Nat.{mod-eq_of_lt}
use exasol_gateway_sdk.Errors.{Error, resource_limit, text}
use exasol_gateway_sdk.Base.Bytes.{big_endian, length-big_endian}
use exasol_gateway_sdk.Base.Stores.{
  copy, resize, copy_over, store_then, store_last, store_u64_loop-copy, write_then,
}
use exasol_gateway_sdk.Frame.{Frame, FrameHeader, frame_magic, protocol_version_v1}
use exasol_gateway_sdk.Frame.Encode.{
  write_u16, write_u32, write_u64, write_frame, encode_frame_into, encode_frame, u32_max,
}

write_u16-copy : (i v : ℕ) (out : List ℕ) → write_u16 i v out ≡ copy (big_endian 2 v) i out
unfolding write_u16 big_endian
write_u16-copy i v =
    store_then i i v 8 _ _ _ refl (omega arith)
      (store_last (i + 1) (i + 1) v 0 _ refl (omega arith))

write_u32-copy : (i v : ℕ) (out : List ℕ) → write_u32 i v out ≡ copy (big_endian 4 v) i out
unfolding write_u32 big_endian
write_u32-copy i v = store_then i i v 24 _ _ _ refl (omega arith) (
    store_then (i + 1) (i + 1) v 16 _ _ _ refl (omega arith) (
      store_then (i + 1 + 1) (i + 2) v 8 _ _ _ (omega arith) (omega arith)
        (store_last (i + 1 + 1 + 1) (i + 3) v 0 _ (omega arith) (omega arith))))

write_u64-copy : (i v : ℕ) (out : List ℕ) → write_u64 i v out ≡ copy (big_endian 8 v) i out
unfolding write_u64
write_u64-copy = store_u64_loop-copy

-- The bytes of a frame: seven big-endian fields, of which the reserved one is no header's, and the
-- payload.
unfoldable pub wire : FrameHeader → ℕ → List ℕ → List ℕ
wire h reserved payload =
    big_endian 4 h.magic
    ++ (big_endian 2 h.version
        ++ (big_endian 2 h.message_type
            ++ (big_endian 2 h.flags
                ++ (big_endian 2 reserved
                    ++ (big_endian 8 h.request_id ++ (big_endian 4 h.payload_length ++ payload))))))

pub length-wire :
    (h : FrameHeader) (reserved : ℕ) (payload : List ℕ)
    → length (wire h reserved payload) ≡ 24 + length payload
unfolding wire big_endian
length-wire h reserved payload = omega arith

write_frame-layout :
    (frame : Frame) (h : FrameHeader) (out : List ℕ)
    → write_frame frame h out ≡ (ok tt, wire h 0 frame.payload)
unfolding write_frame wire
write_frame-layout frame h out =
    (write_then _ _ (big_endian 4 h.magic) _ 0 4 (write_u32-copy 0 h.magic)
        (omega (arith, length-big_endian 4 h.magic))
        (write_then _ _ (big_endian 2 h.version) _ 4 6 (write_u16-copy 4 h.version)
          (omega (arith, length-big_endian 2 h.version))
          (write_then _ _ (big_endian 2 h.message_type) _ 6 8 (write_u16-copy 6 h.message_type)
            (omega (arith, length-big_endian 2 h.message_type))
            (write_then _ _ (big_endian 2 h.flags) _ 8 10 (write_u16-copy 8 h.flags)
              (omega (arith, length-big_endian 2 h.flags))
              (write_then _ _ (big_endian 2 0) _ 10 12 (write_u16-copy 10 0)
                (omega (arith, length-big_endian 2 0))
                (write_then _ _ (big_endian 8 h.request_id) _ 12 20 (write_u64-copy 12 h.request_id)
                  (omega (arith, length-big_endian 8 h.request_id))
                  (write_then _ _ (big_endian 4 h.payload_length) _ 20 24
                    (write_u32-copy 20 h.payload_length)
                    (omega (arith, length-big_endian 4 h.payload_length)) (λ s. refl))))))))
      sized
    ∙ copy_over (wire h 0 frame.payload) [] sized
        (length_sized ∙ sym (length-wire h 0 frame.payload))
  where
    sized : List ℕ
    sized = resize (24 + length frame.payload) out

    length_sized : length sized ≡ 24 + length frame.payload
    length_sized = omega (
      arith,
      length-append {0} (take (24 + length frame.payload) out) _,
      length-take {0} (24 + length frame.payload) out,
      length-replicate {0} {A = ℕ} (24 + length frame.payload - length out) 0,
    )

abbrev pub too_large : Error
too_large = record {
  category = resource_limit;
  message = text "SessionGW frame payload is too large";
}

-- The header that goes out, whatever magic, version and length the caller's holds.
unfoldable pub sent_header : Frame → FrameHeader
sent_header frame = record (frame.header) {
  magic = frame_magic;
  version = protocol_version_v1;
  payload_length = length frame.payload;
}

-- `encodeFrameInto` on every branch: if the payload's length fits 32 bits, the vector holds exactly
-- the frame's layout, whatever it held before; else a resource limit is thrown and the vector is as
-- it was. No store is out of range.
pub encode_frame_into-layout :
    (frame : Frame) (out : List ℕ)
    → encode_frame_into frame out ≡ (
        if ltb u32_max (length frame.payload)
        then (err too_large, out)
        else (ok tt, wire (sent_header frame) 0 frame.payload))
unfolding encode_frame_into sent_header
encode_frame_into-layout frame out = elim (Bool-cases (ltb u32_max (length frame.payload))) [
  | inl big ↦ rw big
  | inr small ↦ rw small (
      write_frame-layout frame _ out
      ∙ ap
          (λ (n : ℕ).
            (ok tt, wire (record (sent_header frame) { payload_length = n }) 0 frame.payload))
          (mod-eq_of_lt (fits small)))
]
  where
    fits : ltb u32_max (length frame.payload) ≡ false → length frame.payload < 2 ^ 32
    fits h = ground arith

-- If the payload's length fits 32 bits, `encodeFrame` returns the frame's layout.
pub encode_frame-layout :
    (frame : Frame)
    → length frame.payload < 2 ^ 32
    → encode_frame frame ≡ ok (wire (sent_header frame) 0 frame.payload)
unfolding encode_frame
encode_frame-layout frame fits =
    rw
      (encode_frame_into-layout frame [], le→ltb_false u32_max (length frame.payload) (omega arith))
