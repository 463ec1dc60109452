-- ===== src/Frame/Judged.antt =====
-- `decodeFrame` on bytes of any kind, whether or not they come from a frame.
use exasol_gateway_sdk.Base.{
  ℕ, ◌+◌, ◌≤◌, ◌<◌, List, length, ltb, ◌==◌, not, ◌≡◌, false, refl, arith,
}
use exasol_gateway_sdk.Base.Judged.{IsJudged, followed_by-IsJudged, if-IsJudged}
use exasol_gateway_sdk.Base.Bytes.{at, at-lt, read_big_endian_total}
use exasol_gateway_sdk.Errors.{protocol_error}
use exasol_gateway_sdk.Frame.{frame_magic}
use exasol_gateway_sdk.Frame.Decode.{
  read_u16, read_u32, read_u64, decode_frame, decode_magic, decode_version, decode_body,
}

at-IsJudged : (bytes : List ℕ) (i : ℕ) → i < length bytes → IsJudged (at bytes i)
at-IsJudged bytes i h = rw (at-lt bytes i h) tt

read_u16-IsJudged : (bytes : List ℕ) (o : ℕ) → o + 2 ≤ length bytes → IsJudged (read_u16 bytes o)
unfolding read_u16
read_u16-IsJudged bytes o h =
    followed_by-IsJudged (at bytes o) _ (at-IsJudged bytes o (omega arith)) λ a.
      followed_by-IsJudged (at bytes (o + 1)) _ (at-IsJudged bytes (o + 1) (omega arith)) λ b. tt

read_u32-IsJudged : (bytes : List ℕ) (o : ℕ) → o + 4 ≤ length bytes → IsJudged (read_u32 bytes o)
unfolding read_u32
read_u32-IsJudged bytes o h =
    followed_by-IsJudged (at bytes o) _ (at-IsJudged bytes o (omega arith)) λ a.
      followed_by-IsJudged (at bytes (o + 1)) _ (at-IsJudged bytes (o + 1) (omega arith)) λ b.
        followed_by-IsJudged (at bytes (o + 2)) _ (at-IsJudged bytes (o + 2) (omega arith)) λ c.
          followed_by-IsJudged (at bytes (o + 3)) _ (at-IsJudged bytes (o + 3) (omega arith))
            λ d. tt

read_u64-IsJudged : (bytes : List ℕ) (o : ℕ) → o + 8 ≤ length bytes → IsJudged (read_u64 bytes o)
unfolding read_u64
read_u64-IsJudged bytes o h = rw ((read_big_endian_total 64 8 bytes o 0 h).1) tt

module _ (bytes : List ℕ) (header : 24 ≤ length bytes) where
  decode_body-IsJudged : (magic version : ℕ) → IsJudged (decode_body bytes magic version)
  unfolding decode_body
  decode_body-IsJudged magic version =
      followed_by-IsJudged (read_u16 bytes 6) _ (read_u16-IsJudged bytes 6 (omega arith)) λ type.
        followed_by-IsJudged (read_u16 bytes 8) _ (read_u16-IsJudged bytes 8 (omega arith)) λ flags.
          followed_by-IsJudged (read_u64 bytes 12) _ (read_u64-IsJudged bytes 12 (omega arith))
            λ id.
              followed_by-IsJudged (read_u32 bytes 20) _ (read_u32-IsJudged bytes 20 (omega arith))
                λ n. if-IsJudged (not (length bytes == 24 + n)) protocol_error _ _ refl (λ _. tt)

  decode_version-IsJudged : (magic : ℕ) → IsJudged (decode_version bytes magic)
  unfolding decode_version
  decode_version-IsJudged magic =
      followed_by-IsJudged (read_u16 bytes 4) _ (read_u16-IsJudged bytes 4 (omega arith)) λ version.
        if-IsJudged (not (version == 1)) protocol_error _ (decode_body bytes magic version) refl
          (λ _. decode_body-IsJudged magic version)

  decode_magic-IsJudged : IsJudged (decode_magic bytes)
  unfolding decode_magic
  decode_magic-IsJudged =
      followed_by-IsJudged (read_u32 bytes 0) _ (read_u32-IsJudged bytes 0 (omega arith)) λ magic.
        if-IsJudged (not (magic == frame_magic)) protocol_error _ (decode_version bytes magic) refl
          (λ _. decode_version-IsJudged magic)

-- Bytes of any kind are a frame, or an error of a category of the protocol.
pub decode_frame-IsJudged : (bytes : List ℕ) → IsJudged (decode_frame bytes)
unfolding decode_frame
decode_frame-IsJudged bytes =
    if-IsJudged (ltb (length bytes) 24) protocol_error _ (decode_magic bytes) refl
      λ h. decode_magic-IsJudged bytes (enough (length bytes) h)
  where
    enough : (n : ℕ) → ltb n 24 ≡ false → 24 ≤ n
    enough n h = ground arith
