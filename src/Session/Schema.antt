-- ===== src/Session/Schema.antt =====
-- src/session.cpp: the calls of Arrow, and what the session reads of a schema. The text of Arrow's
-- status, which the source adds to a message, is left out.
use exasol_gateway_sdk.Errors.{protocol_error}
use exasol_gateway_sdk.Base.{
  ℕ, ◌+◌, ◌-◌, ◌*◌, ◌^◌, List, [], ◌∷◌, Option, none, some, Bool, ◌&&◌, Result, ltb, leb, length,
  if◌then◌else◌,
}
use exasol_gateway_sdk.Base.Outcome.{ok, ◌>>=◌, ◌>>◌, require, throw}
use exasol_gateway_sdk.Session.{Arrow}

-- `std::from_chars` in base ten: the value of the digits in front, and what lies behind them; it
-- fails without a digit, and if the value does not fit 64 bits.
abbrev pub is_digit : ℕ → Bool
is_digit c = leb 48 c && leb c 57

abbrev pub digits_from : Option ℕ → List ℕ → Option ℕ × List ℕ
digits_from seen [] = (seen, [])
digits_from none (c ∷ cs) =
    let rest = digits_from (some (c - 48)) cs in if is_digit c then rest else (none, c ∷ cs)
digits_from (some v) (c ∷ cs) =
    let rest = digits_from (some (v * 10 + (c - 48))) cs in
    if is_digit c then rest else (some v, c ∷ cs)

-- `parsed.ec == std::errc{} && parsed.ptr == end`
abbrev pub all_parsed : Option ℕ × List ℕ → Result ℕ
all_parsed (some v, []) =
    if ltb v (2 ^ 64)
    then ok v
    else throw protocol_error "malformed SessionGW table row-count metadata"
all_parsed (some v, c ∷ cs) = throw protocol_error "malformed SessionGW table row-count metadata"
all_parsed (none, cs) = throw protocol_error "malformed SessionGW table row-count metadata"

unfoldable pub from_chars : List ℕ → Result ℕ
from_chars encoded = all_parsed (digits_from none encoded)

module _ {Schema RecordBatch : Type 0} (arrow : Arrow Schema RecordBatch) where
  unfoldable pub table_row_count : Option Schema → Result (Option ℕ)
  table_row_count none = ok none
  table_row_count (some schema) = elim (arrow.row_count_metadata schema) [
    | none ↦ ok none
    | some encoded ↦ from_chars encoded >>= λ v. ok (some v)
  ]

  -- `ownedBuffer`: the bytes of the copy.
  unfoldable pub owned_buffer : List ℕ → Result (List ℕ)
  owned_buffer bytes = do
    require (leb (length bytes) (2 ^ 63 - 1)) "Arrow IPC field is too large"
    ok bytes

  unfoldable pub decode_schema : List ℕ → Result Schema
  decode_schema bytes = do
    reader ← owned_buffer bytes
    elim (arrow.read_schema reader) [
      | none ↦ throw protocol_error "invalid Arrow schema: "
      | some schema ↦ ok schema
    ]

  unfoldable pub encode_schema : Option Schema → Result (List ℕ)
  encode_schema none = throw protocol_error "SessionGW table operation requires an Arrow schema"
  encode_schema (some schema) = elim (arrow.serialize_schema schema) [
    | none ↦ throw protocol_error "cannot encode Arrow schema: "
    | some bytes ↦ ok bytes
  ]

  unfoldable pub decode_batch : Option Schema → List ℕ → Result (Option RecordBatch)
  decode_batch schema [] = ok none
  decode_batch none (b ∷ bs) = throw protocol_error "SessionGW cursor has no Arrow schema"
  decode_batch (some schema) (b ∷ bs) = do
    reader ← owned_buffer (b ∷ bs)
    elim (arrow.read_record_batch schema reader) [
      | none ↦ throw protocol_error "invalid Arrow record batch: "
      | some batch ↦ ok (some batch)
    ]
