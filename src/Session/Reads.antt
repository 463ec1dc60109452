-- ===== src/Session/Reads.antt =====
-- The readers stay within the payload, whatever it holds and wherever they start.
use Prim.Native.String.{String}
use exasol_gateway_sdk.Base.{
  ℕ, zero, suc, ◌+◌, ◌≤◌, List, true, ltb, ◌==◌, length, ◌≡◌, arith, ltb→lt,
}
use exasol_gateway_sdk.Base.Bytes.{at-lt, range-le, read_big_endian_total}
use exasol_gateway_sdk.Base.Judged.{IsJudged, and_then-IsJudged, checked-IsJudged, require-IsJudged}
use exasol_gateway_sdk.Base.State.{and_then}
use exasol_gateway_sdk.Session.Codec.{
  Reading, read_u8, read_u16, read_u32, read_u64, has_room, read_field, read_string16, read_bytes32,
  ensure_consumed, read_all, read_location,
}

pub has_room-le :
    (bytes : List ℕ) (offset size : ℕ)
    → has_room bytes offset size ≡ true
    → offset + size ≤ length bytes
has_room-le bytes offset size h = ground arith

pub read_u8-IsJudged : (bytes : List ℕ) (o : ℕ) → IsJudged (read_u8 bytes o).0
unfolding read_u8
read_u8-IsJudged bytes o =
    checked-IsJudged (ltb o (length bytes)) _ o _ λ h. rw (at-lt bytes o (ltb→lt o _ h)) tt

pub read_u16-IsJudged : (bytes : List ℕ) (o : ℕ) → IsJudged (read_u16 bytes o).0
unfolding read_u16
read_u16-IsJudged bytes o = checked-IsJudged (has_room bytes o 2) _ o _ λ h.
    let room = has_room-le bytes o 2 h in
    rw (at-lt bytes o (omega (arith, room)), at-lt bytes (o + 1) (omega (arith, room))) tt

pub read_u32-IsJudged : (bytes : List ℕ) (o : ℕ) → IsJudged (read_u32 bytes o).0
unfolding read_u32
read_u32-IsJudged bytes o =
    checked-IsJudged (has_room bytes o 4) _ o _
      λ h. let (v, e) = read_big_endian_total 32 4 bytes o 0 (has_room-le bytes o 4 h) in rw e tt

pub read_u64-IsJudged : (bytes : List ℕ) (o : ℕ) → IsJudged (read_u64 bytes o).0
unfolding read_u64
read_u64-IsJudged bytes o =
    checked-IsJudged (has_room bytes o 8) _ o _
      λ h. let (v, e) = read_big_endian_total 64 8 bytes o 0 (has_room-le bytes o 8 h) in rw e tt

pub read_field-IsJudged :
    (bytes : List ℕ) (size : ℕ) (reason : String) (o : ℕ)
    → IsJudged (read_field bytes size reason o).0
unfolding read_field
read_field-IsJudged bytes size reason o =
    checked-IsJudged (has_room bytes o size) _ o _
      λ h. rw (range-le bytes o size (has_room-le bytes o size h)) tt

pub read_string16-IsJudged : (bytes : List ℕ) (o : ℕ) → IsJudged (read_string16 bytes o).0
unfolding read_string16
read_string16-IsJudged bytes o =
    and_then-IsJudged (read_u16 bytes o) _ (read_u16-IsJudged bytes o)
      λ size s _. read_field-IsJudged bytes size _ s

pub read_bytes32-IsJudged : (bytes : List ℕ) (o : ℕ) → IsJudged (read_bytes32 bytes o).0
unfolding read_bytes32
read_bytes32-IsJudged bytes o =
    and_then-IsJudged (read_u32 bytes o) _ (read_u32-IsJudged bytes o)
      λ size s _. read_field-IsJudged bytes size _ s

pub ensure_consumed-IsJudged : (bytes : List ℕ) (o : ℕ) → IsJudged (ensure_consumed bytes o).0
unfolding ensure_consumed
ensure_consumed-IsJudged bytes o = require-IsJudged (o == length bytes) _

pub read_all-IsJudged {ℓ} :
    {A : Type ℓ} (count : ℕ) (read : Reading A)
    → ((o : ℕ) → IsJudged (read o).0)
    → (o : ℕ) → IsJudged (read_all count read o).0
unfolding read_all
read_all-IsJudged zero read h o = tt
read_all-IsJudged (suc count) read h o = and_then-IsJudged (read o) _ (h o) λ x s _.
    and_then-IsJudged (read_all count read s) _ (read_all-IsJudged count read h s) λ xs t _. tt

pub read_location-IsJudged : (bytes : List ℕ) (o : ℕ) → IsJudged (read_location bytes o).0
unfolding read_location
read_location-IsJudged bytes o =
    and_then-IsJudged (read_u64 bytes o) _ (read_u64-IsJudged bytes o) λ v s _. tt

-- The end of a payload, and what is returned there.
pub ended-IsJudged {ℓ} :
    {A : Type ℓ} (bytes : List ℕ) (o : ℕ) (f : Unit {0} → Reading A)
    → ((s : ℕ) → IsJudged (f tt s).0)
    → IsJudged (and_then (ensure_consumed bytes o) f).0
ended-IsJudged bytes o f h =
    and_then-IsJudged (ensure_consumed bytes o) f (ensure_consumed-IsJudged bytes o) λ _ s _. h s
