-- ===== src/Frame/Fields.antt =====
-- What `decode_frame` makes of bytes that are given as the fields of a frame.
use exasol_gateway_sdk.Base.{
  ℕ, ◌+◌, ◌*◌, ◌/◌, ◌%◌, ◌^◌, ◌<◌, bit_or, List, [], ◌∷◌, ◌++◌, Result, ok, err, ◌==◌, not, length,
  drop, ◌≡◌, refl, ap, ap₂, ◌∙◌, arith, if◌then◌else◌, le→ltb_false,
}
use Prim.Native.String.{String}
use exasol_gateway_sdk.Errors.{Error, protocol_error, text}
use exasol_gateway_sdk.Base.Bits.{bit_or_sum}
use exasol_gateway_sdk.Base.Bytes.{
  big_endian, value-big_endian, big_endian-IsBytes, read_big_endian-value, drop-cons, drop-ahead,
}
use exasol_gateway_sdk.Frame.{Frame, FrameHeader, frame_magic, protocol_version_v1}
use exasol_gateway_sdk.Frame.Decode.{read_u16, read_u32, read_u64, decode_frame}
use exasol_gateway_sdk.Frame.Layout.{wire, length-wire}

abbrev pub broken : String → Error
broken t = record { category = protocol_error; message = text t }

-- A field that lies ahead is read, and the next one lies behind it.
read_u16-ahead :
    (bytes rest : List ℕ) (o v : ℕ)
    → drop o bytes ≡ big_endian 2 v ++ rest
    → v < 2 ^ 16
    → (read_u16 bytes o ≡ ok v) × (drop (o + 2) bytes ≡ rest)
unfolding read_u16 big_endian
read_u16-ahead bytes rest o v h small =
    let (a, next, _) = drop-cons bytes o _ _ h in
    let (b, _, _) = drop-cons bytes (o + 1) _ _ next in
    (
      rw (a, b) (ap ok (omega (arith, bit_or_sum 8 (v / 256 % 256) (v % 256) (omega arith)))),
      drop-ahead bytes (big_endian 2 v) rest o h,
    )

joined :
    (a b c d : ℕ)
    → a < 256
    → b < 256
    → c < 256
    → d < 256
    → bit_or (bit_or (bit_or (a * 2 ^ 24 % 2 ^ 32) (b * 2 ^ 16 % 2 ^ 32)) (c * 2 ^ 8 % 2 ^ 32)) d
      ≡ ((a * 256 + b) * 256 + c) * 256 + d
joined a b c d ha hb hc hd =
    ap₂ (λ (x y : ℕ). bit_or (bit_or x (c * 2 ^ 8 % 2 ^ 32)) y) first refl
    ∙ ap₂ (λ (x y : ℕ). bit_or x y) (ap₂ (λ (x y : ℕ). bit_or x y) second third ∙ pair) refl
    ∙ bit_or_sum 8 ((a * 256 + b) * 256 + c) d hd
  where
    first : bit_or (a * 2 ^ 24 % 2 ^ 32) (b * 2 ^ 16 % 2 ^ 32) ≡ a * 2 ^ 24 + b * 2 ^ 16
    first =
        ap₂ (λ (x y : ℕ). bit_or x y) (omega arith) (omega arith)
        ∙ bit_or_sum 24 a (b * 2 ^ 16) (omega arith)

    second : a * 2 ^ 24 + b * 2 ^ 16 ≡ (a * 256 + b) * 2 ^ 16
    second = omega arith

    third : c * 2 ^ 8 % 2 ^ 32 ≡ c * 2 ^ 8
    third = omega arith

    pair : bit_or ((a * 256 + b) * 2 ^ 16) (c * 2 ^ 8) ≡ ((a * 256 + b) * 256 + c) * 2 ^ 8
    pair = bit_or_sum 16 (a * 256 + b) (c * 2 ^ 8) (omega arith) ∙ omega arith

read_u32-ahead :
    (bytes rest : List ℕ) (o v : ℕ)
    → drop o bytes ≡ big_endian 4 v ++ rest
    → v < 2 ^ 32
    → (read_u32 bytes o ≡ ok v) × (drop (o + 4) bytes ≡ rest)
unfolding read_u32 big_endian
read_u32-ahead bytes rest o v h small =
    let (a, _, _) = drop-cons bytes o _ _ h in
    let (b, _, _) = drop-cons bytes (o + 1) _ _ (drop-ahead bytes (top ∷ []) _ o h) in
    let (c, _, _) = drop-cons bytes (o + 2) _ _ (drop-ahead bytes (top ∷ second ∷ []) _ o h) in
    let (d, _, _) =
      drop-cons bytes (o + 3) _ _ (drop-ahead bytes (top ∷ second ∷ third ∷ []) _ o h) in
    (
      rw (a, b, c, d)
          (ap ok (
            joined top second third (v % 256) (omega arith) (omega arith) (omega arith)
              (omega arith)
            ∙ omega arith)),
      drop-ahead bytes (big_endian 4 v) rest o h,
    )
  where
    top : ℕ
    top = v / 256 / 256 / 256 % 256

    second : ℕ
    second = v / 256 / 256 % 256

    third : ℕ
    third = v / 256 % 256

read_u64-ahead :
    (bytes rest : List ℕ) (o v : ℕ)
    → drop o bytes ≡ big_endian 8 v ++ rest
    → v < 2 ^ 64
    → (read_u64 bytes o ≡ ok v) × (drop (o + 8) bytes ≡ rest)
unfolding read_u64 big_endian
read_u64-ahead bytes rest o v h small = (
  read_big_endian-value 64 (big_endian 8 v) bytes rest o 0 h (big_endian-IsBytes 8 v) (omega arith)
      ∙ ap ok (value-big_endian 8 v (omega arith)),
  drop-ahead bytes (big_endian 8 v) rest o h,
)

-- A header whose fields fit their widths.
pub record IsHeader (h : FrameHeader) : Type 0 where
  pub magic_fits : h.magic < 2 ^ 32
  pub version_fits : h.version < 2 ^ 16
  pub type_fits : h.message_type < 2 ^ 16
  pub flags_fit : h.flags < 2 ^ 16
  pub id_fits : h.request_id < 2 ^ 64
  pub length_fits : h.payload_length < 2 ^ 32

-- What `decodeFrame` makes of a header and a payload.
unfoldable pub judged : FrameHeader → List ℕ → Result Frame
judged h payload =
    if not (h.magic == frame_magic)
    then err (broken "SessionGW frame has invalid magic")
    else if not (h.version == protocol_version_v1)
    then err (broken "SessionGW frame has unsupported version")
    else if not (h.payload_length == length payload)
    then err (broken "SessionGW frame payload length does not match buffer size")
    else ok (record { header = h; payload = payload })

wire-magic :
    (h : FrameHeader) (reserved : ℕ) (payload : List ℕ)
    → drop 0 (wire h reserved payload)
      ≡ big_endian 4 h.magic
        ++ (big_endian 2 h.version
            ++ (big_endian 2 h.message_type
                ++ (big_endian 2 h.flags
                    ++ (big_endian 2 reserved
                        ++ (big_endian 8 h.request_id
                            ++ (big_endian 4 h.payload_length ++ payload))))))
unfolding wire
wire-magic h reserved payload = refl

-- `decodeFrame` on any 24 bytes or more, given as the fields of a header, two reserved bytes and a
-- payload: it judges the magic, the version and the length in this order, does not look at the
-- reserved bytes, and reads nothing out of range.
pub decode_frame-wire :
    (h : FrameHeader) (reserved : ℕ) (payload : List ℕ)
    → IsHeader h
    → decode_frame (wire h reserved payload) ≡ judged h payload
unfolding decode_frame
decode_frame-wire h reserved payload fits =
    let bytes = wire h reserved payload in
    let (magic, r4) =
      read_u32-ahead bytes _ 0 h.magic (wire-magic h reserved payload) fits.magic_fits in
    let (version, r6) = read_u16-ahead bytes _ 4 h.version r4 fits.version_fits in
    let (kind, r8) = read_u16-ahead bytes _ 6 h.message_type r6 fits.type_fits in
    let (flags, r10) = read_u16-ahead bytes _ 8 h.flags r8 fits.flags_fit in
    let (id, r20) = read_u64-ahead bytes _ 12 h.request_id (behind_reserved r10) fits.id_fits in
    let (size, r24) = read_u32-ahead bytes _ 20 h.payload_length r20 fits.length_fits in
    rw
      (
        le→ltb_false (length bytes) 24 (omega (arith, length-wire h reserved payload)),
        magic,
        version,
        kind,
        flags,
        id,
        size,
        r24,
        length-wire h reserved payload,
        same_test h.payload_length (length payload),
      )
      (unfold judged in refl)
  where
    behind_reserved :
        {rest : List ℕ}
        → drop 10 (wire h reserved payload) ≡ big_endian 2 reserved ++ rest
        → drop 12 (wire h reserved payload) ≡ rest
    behind_reserved {rest} e =
        unfold big_endian in drop-ahead (wire h reserved payload) (big_endian 2 reserved) rest 10 e

    same_test : (a b : ℕ) → (24 + b == 24 + a) ≡ (a == b)
    same_test a b = ground arith
