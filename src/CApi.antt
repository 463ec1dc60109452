-- ===== src/CApi.antt =====
-- src/c_api.cpp: the index of a native read batch that a fetch through the C interface keeps, the
-- escaping of SQL text, and the last error of a thread.
pub mod Arguments
pub mod Borrowed
pub mod Boundary
pub mod Execute
pub mod Exports
pub mod Functions
pub mod Handles
pub mod Index
pub mod Names
pub mod Reads
pub mod Indexed
pub mod Returned
pub mod Sql
pub mod Statistics
pub mod Views
mod Runs
use Prim.Native.String.{String}
use exasol_gateway_sdk.Errors.{Error, internal_error, protocol_error, underlying, Message, text}
use exasol_gateway_sdk.Base.{
  ℕ, zero, suc, ◌+◌, ◌*◌, ◌^◌, ◌%◌, List, [], ◌∷◌, ◌++◌, Option, none, some, Bool, true, false,
  ◌&&◌, ◌||◌, not, leb, ◌==◌, length, Result, if◌then◌else◌,
}
use exasol_gateway_sdk.Base.Outcome.{ok, err, fault}
use exasol_gateway_sdk.Base.Outcome
use exasol_gateway_sdk.Base.Bytes.{at, read_big_endian}
use exasol_gateway_sdk.Base.State.{
  Action, pure, ◌>>=◌, ◌>>◌, get, put, modify, lift, require, throw,
}
use exasol_gateway_sdk.Session.{TableName, RowLocation}
use exasol_gateway_sdk.Session.Codec.{Reading, has_room}

-- `native_column_view`: positions and sizes within the bytes of the batch. The scale is the pattern
-- of 32 bits.
pub record NativeColumnView : Type 0 where
  pub kind : ℕ
  pub scale : ℕ
  pub null_offset : ℕ
  pub null_size : ℕ
  pub sizes_offset : ℕ
  pub sizes_size : ℕ
  pub data_offset : ℕ
  pub data_size : ℕ

unfoldable pub native_u32 : List ℕ → Reading ℕ
native_u32 bytes = do
  offset ← get
  require (has_room bytes offset 4) "truncated native read batch"
  value ← lift (read_big_endian 32 4 bytes offset 0)
  put (offset + 4)
  pure value

unfoldable pub native_skip : List ℕ → ℕ → Reading (Unit {0})
native_skip bytes size = do
  offset ← get
  require (has_room bytes offset size) "truncated native read buffer"
  put (offset + size)

-- A buffer: its size, and its position once it was skipped.
unfoldable pub buffer : List ℕ → Reading (ℕ × ℕ)
buffer bytes = do size ← native_u32 bytes; offset ← get; native_skip bytes size; pure (offset, size)

-- The sizes, which only a column of strings has.
unfoldable pub sizes_buffer : List ℕ → ℕ → Reading (ℕ × ℕ)
sizes_buffer bytes kind = if kind == 7 then buffer bytes else pure (0, 0)

-- The body of the loop over the columns.
unfoldable pub column_view : List ℕ → Reading NativeColumnView
column_view bytes = do
  offset ← get
  require (has_room bytes offset 4) "truncated native read column"
  kind ← lift (at bytes offset)
  put (offset + 4)
  scale ← native_u32 bytes
  buffers ← native_u32 bytes
  require (buffers == (if kind == 7 then 3 else 2)) "invalid native read buffer count"
  nulls ← buffer bytes
  sizes ← sizes_buffer bytes kind
  values ← buffer bytes
  pure (record {
    kind = kind;
    scale = scale;
    null_offset = nulls.0;
    null_size = nulls.1;
    sizes_offset = sizes.0;
    sizes_size = sizes.1;
    data_offset = values.0;
    data_size = values.1;
  })

unfoldable pub column_views : List ℕ → ℕ → Reading (List NativeColumnView)
column_views bytes zero = pure []
column_views bytes (suc columns) = do
  view ← column_view bytes
  views ← column_views bytes columns
  pure (view ∷ views)

-- `nativeU32(...) == expected && nativeU32(...) == 1U`
unfoldable pub two_words : List ℕ → ℕ → Reading Bool
two_words bytes expected = do
  first ← native_u32 bytes
  if first == expected then (do second ← native_u32 bytes; pure (second == 1)) else pure false

-- `indexNativeBatch` of a batch that is not empty: the number of rows and the columns.
unfoldable pub index_columns : List ℕ → Reading (ℕ × List NativeColumnView)
index_columns bytes = do
  known ← two_words bytes 0x53475242
  require known "invalid native read batch"
  row_count ← native_u32 bytes
  column_count ← native_u32 bytes
  supported ← two_words bytes 1
  require supported "unsupported native read scalar ABI"
  views ← column_views bytes column_count
  offset ← get
  require (offset == length bytes) "native read batch has trailing bytes"
  pure (row_count, views)

unfoldable pub index_native_batch : List ℕ → Result (ℕ × List NativeColumnView)
index_native_batch [] = ok (0, [])
index_native_batch (b ∷ bs) = (index_columns (b ∷ bs) 0).0

-- The last error of a thread. `protect` runs a function: it clears the message, and notes an error
-- that is thrown. (Exceptions of other classes are not modelled.)
pub record LastError : Type 0 where
  pub category : ℕ
  pub message : Message

abbrev pub protected :
    {S : Type 0} → LastError → Result (Unit {0}) × S → Result Bool × (S × LastError)
protected before (ok u, s) = (ok true, (s, record before { message = text "" }))
protected before (err e, s) =
    (ok false, (s, record { category = underlying e.category; message = e.message }))
protected before (fault, s) = (fault, (s, before))

-- The result is whether the function returned, which the C interface returns as 0 or -1.
unfoldable pub protect : {S : Type 0} → Action S (Unit {0}) → Action (S × LastError) Bool
protect function s = protected s.1 (function s.0)

-- `text` of a pointer to characters, which may be null.
unfoldable pub text_of : Option (List ℕ) → String → Result (List ℕ)
text_of none message = Outcome.throw protocol_error message
text_of (some []) message = Outcome.throw protocol_error message
text_of (some (c ∷ cs)) message = ok (c ∷ cs)

-- `jsonEscape`.
unfoldable pub json_escape_byte : ℕ → Result (List ℕ)
json_escape_byte byte =
    if byte == 92
    then ok (92 ∷ 92 ∷ [])
    else if byte == 34
    then ok (92 ∷ 34 ∷ [])
    else if byte == 10
    then ok (92 ∷ 110 ∷ [])
    else if byte == 13
    then ok (92 ∷ 114 ∷ [])
    else if byte == 9
    then ok (92 ∷ 116 ∷ [])
    else if leb 32 byte
    then ok (byte ∷ [])
    else Outcome.throw protocol_error "SessionGW SQL contains an invalid control byte"

unfoldable pub json_escape : List ℕ → List ℕ → Result (List ℕ)
json_escape [] result = ok result
json_escape (byte ∷ bytes) result =
    Outcome.followed_by (λ escaped. json_escape bytes (result ++ escaped)) (json_escape_byte byte)
