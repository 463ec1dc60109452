-- ===== src/Session/Codec.antt =====
-- src/session.cpp: payloads are written behind a vector and read at an offset, which is the state of
-- an action.
use Prim.Native.String.{String}
use exasol_gateway_sdk.Errors.{ErrorCategory, protocol_error, underlying}
use exasol_gateway_sdk.Errors
use exasol_gateway_sdk.Base.{
  ℕ, zero, suc, ◌+◌, ◌-◌, ◌*◌, ◌%◌, ◌^◌, bit_or, List, [], ◌∷◌, ◌++◌, Bool, true, false, ◌&&◌, ltb,
  leb, ◌==◌, length, if◌then◌else◌,
}
use exasol_gateway_sdk.Base.Outcome.{ok}
use exasol_gateway_sdk.Base.Stores.{byte_of}
use exasol_gateway_sdk.Base.Bytes.{at, read_big_endian, range}
use exasol_gateway_sdk.Base.State.{Action, pure, ◌>>=◌, ◌>>◌, get, put, lift, require}
use exasol_gateway_sdk.Session.{RowLocation, TableName}
use exasol_gateway_sdk.WriteBatch.Builder.{align_native_write_batch}

-- A read moves the offset.
abbrev pub Reading {ℓ} : Type ℓ → Type ℓ
Reading A = Action ℕ A

-- A write appends to the vector.
abbrev pub Writing : Type 0
Writing = Action (List ℕ) (Unit {0})

unfoldable pub append_u8 : ℕ → Writing
append_u8 v out = (ok tt, out ++ v ∷ [])

unfoldable pub append_u16 : ℕ → Writing
append_u16 v out = (ok tt, (out ++ byte_of v 8 ∷ []) ++ byte_of v 0 ∷ [])

-- `for (shift = 8 * (rounds - 1); shift >= 0; shift -= 8)` of `append_u32` and `append_u64`.
unfoldable pub append_bytes_of : ℕ → ℕ → List ℕ → List ℕ
append_bytes_of zero v out = out
append_bytes_of (suc rounds) v out = append_bytes_of rounds v (out ++ byte_of v (8 * rounds) ∷ [])

unfoldable pub append_u32 : ℕ → Writing
append_u32 v out = (ok tt, append_bytes_of 4 v out)

unfoldable pub append_u64 : ℕ → Writing
append_u64 v out = (ok tt, append_bytes_of 8 v out)

-- `offset <= bytes.size() && bytes.size() - offset >= size`
abbrev pub has_room : List ℕ → ℕ → ℕ → Bool
has_room bytes offset size = leb offset (length bytes) && leb size (length bytes - offset)

unfoldable pub read_u8 : List ℕ → Reading ℕ
read_u8 bytes = do
  offset ← get
  require (ltb offset (length bytes)) "truncated SessionGW u8"
  value ← lift (at bytes offset)
  put (offset + 1)
  pure value

-- `static_cast<std::uint16_t>(bytes[offset] << 8U) | bytes[offset + 1U]`
unfoldable pub read_u16 : List ℕ → Reading ℕ
read_u16 bytes = do
  offset ← get
  require (has_room bytes offset 2) "truncated SessionGW u16"
  high ← lift (at bytes offset)
  low ← lift (at bytes (offset + 1))
  put (offset + 2)
  pure (bit_or (high * 2 ^ 8 % 2 ^ 16) low)

unfoldable pub read_u32 : List ℕ → Reading ℕ
read_u32 bytes = do
  offset ← get
  require (has_room bytes offset 4) "truncated SessionGW u32"
  value ← lift (read_big_endian 32 4 bytes offset 0)
  put (offset + 4)
  pure value

unfoldable pub read_u64 : List ℕ → Reading ℕ
read_u64 bytes = do
  offset ← get
  require (has_room bytes offset 8) "truncated SessionGW u64"
  value ← lift (read_big_endian 64 8 bytes offset 0)
  put (offset + 8)
  pure value

abbrev pub nonempty : List ℕ → Bool
nonempty [] = false
nonempty (b ∷ bs) = true

abbrev pub insert_end : List ℕ → Writing
insert_end bytes out = (ok tt, out ++ bytes)

unfoldable pub append_string16 : List ℕ → Writing
append_string16 value = do
  require (nonempty value && leb (length value) 0xffff) "invalid SessionGW short string"
  append_u16 (length value)
  insert_end value

unfoldable pub append_string32 : List ℕ → Writing
append_string32 value = do
  require (nonempty value && leb (length value) 0xffff_ffff) "invalid SessionGW string"
  append_u32 (length value)
  insert_end value

-- A field of `size` bytes that has to lie within the payload.
unfoldable pub read_field : List ℕ → ℕ → String → Reading (List ℕ)
read_field bytes size reason = do
  offset ← get
  require (has_room bytes offset size) reason
  value ← lift (range bytes offset size)
  put (offset + size)
  pure value

unfoldable pub read_string16 : List ℕ → Reading (List ℕ)
read_string16 bytes = do size ← read_u16 bytes; read_field bytes size "truncated SessionGW string"

unfoldable pub read_bytes32 : List ℕ → Reading (List ℕ)
read_bytes32 bytes = do
  size ← read_u32 bytes
  read_field bytes size "truncated SessionGW byte field"

unfoldable pub append_bytes32 : List ℕ → Writing
append_bytes32 bytes = do
  require (leb (length bytes) 0xffff_ffff) "SessionGW byte field is too large"
  append_u32 (length bytes)
  insert_end bytes

unfoldable pub ensure_consumed : List ℕ → Reading (Unit {0})
ensure_consumed bytes = do
  offset ← get
  require (offset == length bytes) "SessionGW payload has trailing bytes"

-- `static_cast<ErrorCategory>(value)` of a number from 1 to 12.
abbrev pub category_of : ℕ → ErrorCategory
category_of value =
    if value == 2
    then Errors.authentication_failed
    else if value == 3
    then Errors.not_authorized
    else if value == 4
    then Errors.object_not_found
    else if value == 5
    then Errors.unsupported_type
    else if value == 6
    then Errors.unsupported_operation
    else if value == 7
    then Errors.transaction_conflict
    else if value == 8
    then Errors.constraint_violation
    else if value == 9
    then Errors.resource_limit
    else if value == 10
    then Errors.cursor_not_found
    else if value == 11
    then Errors.internal_error
    else if value == 12
    then Errors.transport_error
    else protocol_error

unfoldable pub decode_error_category : ℕ → ErrorCategory
decode_error_category value =
    if leb (underlying protocol_error) value && leb value (underlying Errors.transport_error)
    then category_of value
    else protocol_error

-- `static_cast<std::uint32_t>(size)` of a size that was checked, and a loop over the elements.
unfoldable pub append_all {ℓ} : {A : Type ℓ} → (A → Writing) → List A → Writing
append_all write [] = pure tt
append_all write (x ∷ xs) = do write x; append_all write xs

unfoldable pub append_locations : List RowLocation → Writing
append_locations locations = do
  require (leb (length locations) 0xffff_ffff) "too many SessionGW row locations"
  append_u32 (length locations)
  append_all (λ (location : RowLocation). append_u64 location.row_number) locations

unfoldable pub table_payload : TableName → Writing
table_payload table = do append_string16 table.schema; append_string16 table.table

-- The loop `for (index = 0; index < count; ++index) result.push_back(read(...))`.
unfoldable pub read_all {ℓ} : {A : Type ℓ} → ℕ → Reading A → Reading (List A)
read_all zero read = pure []
read_all (suc count) read = do x ← read; xs ← read_all count read; pure (x ∷ xs)

unfoldable pub read_location : List ℕ → Reading RowLocation
read_location bytes = do row_number ← read_u64 bytes; pure (record { row_number = row_number })

abbrev pub native_body : List ℕ → Writing
native_body batch = do
  append_u32 (length batch)
  λ payload. (ok tt, align_native_write_batch payload)
  insert_end batch

unfoldable pub native_payload : ℕ → List ℕ → Writing
native_payload operation_id batch = do
  require (nonempty batch && leb (length batch) 0xffff_ffff) "invalid native write batch"
  append_u64 operation_id
  native_body batch
