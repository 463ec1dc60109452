-- ===== src/Frame/RoundTrip.antt =====
-- `decode_frame` on any bytes, and as the inverse of `encode_frame`.
use exasol_gateway_sdk.Base.{
  ℕ, ◌+◌, ◌/◌, ◌%◌, ◌^◌, ◌≤◌, ◌<◌, List, [], ◌∷◌, ◌++◌, ok, err, IsSafe, ltb, length, take, drop,
  take-append-drop, length-take, length-drop, ◌≡◌, refl, sym, ap, ap₂, ◌⊎◌, ◌∙◌, arith, Bool-cases,
  inl, inr, false,
}
use exasol_gateway_sdk.Base.Bytes.{
  big_endian, value, value-lt, IsBytes, IsBytes-drop, IsBytes-take, big_endian-value, slice,
}
use exasol_gateway_sdk.Frame.{Frame, FrameHeader, frame_magic, protocol_version_v1}
use exasol_gateway_sdk.Frame.Encode.{encode_frame}
use exasol_gateway_sdk.Frame.Decode.{decode_frame}
use exasol_gateway_sdk.Frame.Layout.{wire, sent_header, encode_frame-layout}
use exasol_gateway_sdk.Frame.Fields.{IsHeader, broken, judged, decode_frame-wire}

-- The first `n` of enough bytes are a number's.
first_field :
    {P : Type 0} (n : ℕ) (bytes : List ℕ)
    → n ≤ length bytes
    → IsBytes bytes
    → ((v : ℕ) (rest : List ℕ)
        → bytes ≡ big_endian n v ++ rest
        → v < 256 ^ n
        → IsBytes rest
        → length bytes ≡ n + length rest
        → P)
    → P
first_field n bytes h hb k =
    k (value (take n bytes)) (drop n bytes)
      (sym (take-append-drop n bytes) ∙ ap (λ (t : List ℕ). t ++ drop n bytes) (sym prefix))
      (rw sized at (value-lt (take n bytes) (IsBytes-take n bytes hb))) (IsBytes-drop n bytes hb)
      (omega (arith, length-drop {0} n bytes))
  where
    sized : length (take n bytes) ≡ n
    sized = omega (arith, length-take {0} n bytes)

    prefix : big_endian n (value (take n bytes)) ≡ take n bytes
    prefix =
        ap (λ (k : ℕ). big_endian k (value (take n bytes))) (sym sized)
        ∙ big_endian-value (take n bytes) (IsBytes-take n bytes hb)

record Fields (bytes : List ℕ) : Type 0 where
  header : FrameHeader
  reserved : ℕ
  payload : List ℕ
  laid_out : bytes ≡ wire header reserved payload
  fits : IsHeader header
  reserved_fits : reserved < 2 ^ 16

-- Enough bytes are the fields of a frame.
Fields-of : (bytes : List ℕ) → 24 ≤ length bytes → IsBytes bytes → Fields bytes
Fields-of bytes h hb = first_field 4 bytes (omega arith) hb λ magic r1 e1 f1 b1 l1.
    first_field 2 r1 (omega arith) b1 λ version r2 e2 f2 b2 l2.
      first_field 2 r2 (omega arith) b2 λ kind r3 e3 f3 b3 l3.
        first_field 2 r3 (omega arith) b3 λ flags r4 e4 f4 b4 l4.
          first_field 2 r4 (omega arith) b4 λ reserved r5 e5 f5 b5 l5.
            first_field 8 r5 (omega arith) b5 λ id r6 e6 f6 b6 l6.
              first_field 4 r6 (omega arith) b6 λ size payload e7 f7 b7 l7. record {
                header = record {
                  magic = magic;
                  version = version;
                  message_type = kind;
                  flags = flags;
                  request_id = id;
                  payload_length = size;
                };
                reserved = reserved;
                payload = payload;
                laid_out = rw (e1, e2, e3, e4, e5, e6, e7) (unfold wire in refl);
                fits = omega arith;
                reserved_fits = f5;
              }

-- Bytes are too short, or judged by their fields.
decode_frame_cases :
    (bytes : List ℕ)
    → IsBytes bytes
    → (decode_frame bytes ≡ err (broken "SessionGW frame is shorter than the header"))
      ⊎ ((f : Fields bytes) × (decode_frame bytes ≡ judged f.header f.payload))
decode_frame_cases bytes hb = elim (Bool-cases (ltb (length bytes) 24)) [
  | inl short ↦ inl (unfold decode_frame in rw short)
  | inr long ↦
      let f = Fields-of bytes (long_enough long) hb in
      inr (f, ap decode_frame f.laid_out ∙ decode_frame-wire f.header f.reserved f.payload f.fits)
]
  where
    long_enough : ltb (length bytes) 24 ≡ false → 24 ≤ length bytes
    long_enough h = ground arith

judged-eq-ok :
    (h : FrameHeader) (payload : List ℕ) (frame : Frame)
    → judged h payload ≡ ok frame
    → (frame ≡ record { header = h; payload = payload })
      × (h.magic ≡ frame_magic)
      × (h.version ≡ protocol_version_v1)
      × (h.payload_length ≡ length payload)
unfolding judged
judged-eq-ok h payload frame e = ground arith

judged-IsSafe : (h : FrameHeader) (payload : List ℕ) → IsSafe (judged h payload)
unfolding judged
judged-IsSafe h payload = ground arith

-- What `decodeFrame` accepts is exactly a frame: on any bytes, if it returns a frame, the bytes are
-- that frame's layout around some reserved field, its magic and version are the protocol's, and its
-- length is the payload's.
pub decode_frame_sound :
    (bytes : List ℕ) (frame : Frame)
    → IsBytes bytes
    → decode_frame bytes ≡ ok frame
    → (reserved : ℕ) × (reserved < 2 ^ 16)
      × (bytes ≡ wire frame.header reserved frame.payload)
      × IsHeader frame.header
      × (frame.header.magic ≡ frame_magic)
      × (frame.header.version ≡ protocol_version_v1)
      × (frame.header.payload_length ≡ length frame.payload)
decode_frame_sound bytes frame hb returned = elim (decode_frame_cases bytes hb) [
  | inl short ↦ cc
  | inr (f, e) ↦
      let (same, magic, version, size) = judged-eq-ok f.header f.payload frame (sym e ∙ returned) in
      rw same (f.reserved, f.reserved_fits, f.laid_out, f.fits, magic, version, size)
]

-- `decodeFrame` reads nothing out of range, on any bytes: it returns a frame or throws.
pub decode_frame-IsSafe : (bytes : List ℕ) → IsBytes bytes → IsSafe (decode_frame bytes)
decode_frame-IsSafe bytes hb = elim (decode_frame_cases bytes hb) [
  | inl short ↦ rw short tt
  | inr (f, e) ↦ rw e (judged-IsSafe f.header f.payload)
]

-- Decoding undoes encoding: a frame whose type, flags and id fit their widths, with a payload whose
-- length fits 32 bits, is encoded, and decoding the bytes gives its payload under the header that
-- was sent, which differs from the frame's at most in magic, version and length.
pub decode_frame-encode_frame :
    (frame : Frame)
    → IsHeader (sent_header frame)
    → (bytes : List ℕ) × (encode_frame frame ≡ ok bytes)
      × (decode_frame bytes ≡ ok (record { header = sent_header frame; payload = frame.payload }))
unfolding sent_header judged
decode_frame-encode_frame frame fits = (
  wire (sent_header frame) 0 frame.payload,
  encode_frame-layout frame fits.length_fits,
  decode_frame-wire (sent_header frame) 0 frame.payload fits ∙ ground arith,
)

reserved_zero :
    (h : FrameHeader) (reserved : ℕ) (payload : List ℕ)
    → reserved < 2 ^ 16
    → slice (wire h reserved payload) 10 2 ≡ 0 ∷ 0 ∷ []
    → reserved ≡ 0
unfolding wire big_endian
reserved_zero h reserved payload small e =
    let high : reserved / 256 % 256 ≡ 0 = cc in let low : reserved % 256 ≡ 0 = cc in omega arith

sent_header_same :
    (frame : Frame)
    → frame.header.magic ≡ frame_magic
    → frame.header.version ≡ protocol_version_v1
    → frame.header.payload_length ≡ length frame.payload
    → sent_header frame ≡ frame.header
unfolding sent_header
sent_header_same frame magic version size = ground arith

-- Encoding undoes decoding on bytes whose reserved field, at the positions 10 and 11, is zero.
pub encode_frame-decode_frame :
    (bytes : List ℕ) (frame : Frame)
    → IsBytes bytes
    → slice bytes 10 2 ≡ 0 ∷ 0 ∷ []
    → decode_frame bytes ≡ ok frame
    → encode_frame frame ≡ ok bytes
encode_frame-decode_frame bytes frame hb zeros returned =
    let (reserved, small, laid_out, fits, magic, version, size) =
      decode_frame_sound bytes frame hb returned in
    let none_reserved =
      reserved_zero frame.header reserved frame.payload small
        (ap (λ (t : List ℕ). slice t 10 2) (sym laid_out) ∙ zeros) in
    encode_frame-layout frame (omega (arith, fits, size))
    ∙ ap ok (
        ap₂ (λ (h : FrameHeader) (r : ℕ). wire h r frame.payload)
          (sent_header_same frame magic version size) (sym none_reserved)
        ∙ sym laid_out)
