-- ===== src/Session/ReadBatch.antt =====
-- src/session.cpp and include/sessiongw/native_read_batch.hpp: the validation of a native read batch
-- against the schema of its cursor.
pub mod Extent
use exasol_gateway_sdk.Errors.{ErrorCategory, protocol_error, unsupported_type}
use Prim.Native.String.{String}
use exasol_gateway_sdk.Base.{
  ℕ, zero, suc, ◌+◌, ◌-◌, ◌*◌, ◌%◌, ◌^◌, List, Option, none, some, Bool, true, false, ◌&&◌, ◌||◌,
  not, Result, fault, ltb, leb, ◌==◌, length, if◌then◌else◌,
}
use exasol_gateway_sdk.Base.Outcome.{ok}
use exasol_gateway_sdk.Base.Outcome
use exasol_gateway_sdk.Base.Bytes.{at}
use exasol_gateway_sdk.Base.State.{pure, ◌>>=◌, ◌>>◌, get, put, lift, require, throw}
use exasol_gateway_sdk.Session.{
  Arrow, TypeId, boolean, int64, double, decimal128, date32, timestamp, string, other,
}
use exasol_gateway_sdk.Session.Codec.{
  Reading, read_u8, read_u32, read_u64, ensure_consumed, has_room,
}

unfoldable pub expected_native_kind : TypeId → Result ℕ
expected_native_kind boolean = ok 1
expected_native_kind int64 = ok 2
expected_native_kind double = ok 3
expected_native_kind decimal128 = ok 4
expected_native_kind date32 = ok 5
expected_native_kind timestamp = ok 6
expected_native_kind string = ok 7
expected_native_kind other = Outcome.throw unsupported_type "unsupported native read column type"

abbrev pub is_decimal : TypeId → Bool
is_decimal decimal128 = true
is_decimal _ = false

abbrev pub is_string : TypeId → Bool
is_string string = true
is_string _ = false

abbrev pub is_boolean : TypeId → Bool
is_boolean boolean = true
is_boolean _ = false

-- `readU8(...) == 0U && ...`, `n` times: the first byte that is not zero ends the reading.
unfoldable pub zero_bytes : ℕ → List ℕ → Reading Bool
zero_bytes zero bytes = pure true
zero_bytes (suc n) bytes = do
  byte ← read_u8 bytes
  if byte == 0 then zero_bytes n bytes else pure false

-- `for (row...) require(p(bytes[offset + row]), reason)` over the rows to come.
unfoldable pub check_bytes : (ℕ → Bool) → String → List ℕ → ℕ → ℕ → Reading (Unit {0})
check_bytes p reason bytes position zero = pure tt
check_bytes p reason bytes position (suc rows) = do
  byte ← lift (at bytes position)
  require (p byte) reason
  check_bytes p reason bytes (position + 1) rows

-- `total <= max - size` for the sum of the sizes on 64 bits.
abbrev pub size_limit : ℕ
size_limit = 2 ^ 64 - 1

-- The loop over the sizes of the strings: their sum.
unfoldable pub string_sizes : List ℕ → ℕ → ℕ → ℕ → Reading ℕ
string_sizes bytes null_position zero total = pure total
string_sizes bytes null_position (suc rows) total = do
  size ← read_u64 bytes
  null ← lift (at bytes null_position)
  require (not (null == 0xff) || size == 0) "native read NULL string has a nonzero size"
  require (leb size (size_limit - total)) "native read string size sum overflows"
  string_sizes bytes (null_position + 1) rows (total + size)

-- A field that has to lie within the bytes, which is not read.
abbrev pub skip : ℕ → Reading (Unit {0})
skip size = do offset ← get; put (offset + size)

unfoldable pub string_column : List ℕ → ℕ → ℕ → Reading (Unit {0})
string_column bytes rows null_offset = do
  sizes_size ← read_u32 bytes
  offset ← get
  require (sizes_size == rows * 8 && has_room bytes offset sizes_size)
      "native read string sizes have an invalid extent"
  total ← string_sizes bytes null_offset rows 0
  data_size ← read_u32 bytes
  after ← get
  require (total == data_size && has_room bytes after data_size)
      "native read string data has an invalid extent"
  skip data_size

-- The width of a value, which depends on the kind for decimals.
unfoldable pub value_width : TypeId → ℕ → ℕ
value_width boolean kind = 1
value_width date32 kind = 4
value_width decimal128 kind = if kind == 8 then 4 else if kind == 9 then 8 else 16
value_width _ kind = 8

unfoldable pub fixed_column : List ℕ → ℕ → TypeId → ℕ → Reading (Unit {0})
fixed_column bytes rows type kind = do
  data_size ← read_u32 bytes
  offset ← get
  require (data_size == rows * value_width type kind && has_room bytes offset data_size)
      "native read fixed-width values have an invalid extent"
  if is_boolean type
      then check_bytes (λ byte. leb byte 1) "native read Boolean contains an invalid value" bytes
          offset rows
      else pure tt
  skip data_size

-- The null vector: its position.
unfoldable pub null_vector : List ℕ → ℕ → Reading ℕ
null_vector bytes rows = do
  null_size ← read_u32 bytes
  null_offset ← get
  require (null_size == rows && has_room bytes null_offset null_size)
      "native read NULL vector has an invalid extent"
  check_bytes (λ byte. byte == 0 || byte == 0xff)
      "native read NULL vector contains an invalid value" bytes null_offset rows
  skip null_size
  pure null_offset

-- The description of a column: its kind.
unfoldable pub column_header : List ℕ → TypeId → ℕ → Reading ℕ
column_header bytes type field_scale = do
  kind ← read_u8 bytes
  expected ← lift (expected_native_kind type)
  require (kind == expected || (is_decimal type && (kind == 4 || kind == 8 || kind == 9)))
      "native read column kind does not match cursor schema"
  reserved ← zero_bytes 3 bytes
  require reserved "native read column reserved bits are nonzero"
  scale ← read_u32 bytes
  buffer_count ← read_u32 bytes
  require (buffer_count == (if is_string type then 3 else 2))
      "native read column has an invalid buffer count"
  require (scale == (if is_decimal type then field_scale else 0)) (
      if is_decimal type
      then "native read decimal scale does not match cursor schema"
      else "native read non-decimal column has a scale")
  pure kind

unfoldable pub read_column : List ℕ → ℕ → TypeId → ℕ → Reading (Unit {0})
read_column bytes rows type field_scale = do
  kind ← column_header bytes type field_scale
  null_offset ← null_vector bytes rows
  if is_string type then string_column bytes rows null_offset else fixed_column bytes rows type kind

module _ {Schema RecordBatch : Type 0} (arrow : Arrow Schema RecordBatch) where
  -- `schema->field(index)`, which Arrow leaves undefined out of range.
  unfoldable pub field_at : Schema → ℕ → Result ℕ
  field_at schema index = if ltb index (arrow.num_fields schema) then ok index else fault

  -- The loop over the columns from `column` on.
  unfoldable pub read_columns : List ℕ → ℕ → Schema → ℕ → ℕ → Reading (Unit {0})
  read_columns bytes rows schema column zero = pure tt
  read_columns bytes rows schema column (suc more) = do
    field ← lift (field_at schema column)
    read_column bytes rows (arrow.type_id schema field) (arrow.scale schema field)
    read_columns bytes rows schema (column + 1) more

  unfoldable pub validate_native_batch : List ℕ → Schema → Reading (Unit {0})
  validate_native_batch bytes schema = do
    magic ← read_u32 bytes
    require (magic == 0x53475242) "invalid native read batch magic"
    version ← read_u32 bytes
    require (version == 1) "unsupported native read batch version"
    rows ← read_u32 bytes
    columns ← read_u32 bytes
    require (columns == arrow.num_fields schema % 2 ^ 32)
        "native read batch column count does not match cursor schema"
    endianness ← read_u32 bytes
    require (endianness == 1) "native read batch scalar encoding is not little-endian"
    scalar_abi ← read_u32 bytes
    require (scalar_abi == 1) "unsupported native read scalar ABI"
    read_columns bytes rows schema 0 columns
    ensure_consumed bytes

  unfoldable pub validate_native_read_batch : List ℕ → Option Schema → Result (Unit {0})
  validate_native_read_batch bytes none =
      Outcome.throw protocol_error "native read validation requires a cursor schema"
  validate_native_read_batch bytes (some schema) = (validate_native_batch bytes schema 0).0
