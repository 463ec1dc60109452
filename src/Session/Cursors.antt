-- ===== src/Session/Cursors.antt =====
-- src/session.cpp: the metadata of tables, and cursors: opening, fetching and closing.
use Prim.Native.String.{String}
use exasol_gateway_sdk.Base.{
  ℕ, List, [], ◌∷◌, none, some, Bool, true, false, not, leb, ◌==◌, length, if◌then◌else◌,
}
use exasol_gateway_sdk.Base.State.{pure, ◌>>=◌, ◌>>◌, get, lift, require}
use exasol_gateway_sdk.Frame.Message.{MessageType}
use exasol_gateway_sdk.Frame.Message
use exasol_gateway_sdk.Session.{
  Arrow, TableName, RowLocation, TableMetadata, Cursor, FetchBatch, NativeFetchBatch,
}
use exasol_gateway_sdk.Session.Codec.{
  Reading, Writing, append_u8, append_u32, append_u64, append_string32, append_all,
  append_locations, table_payload, nonempty, read_u8, read_u64, read_u32, read_string16,
  read_bytes32, read_all, read_location, ensure_consumed,
}
use exasol_gateway_sdk.Session.Request.{Connection, Requesting, reading, writing, request}
use exasol_gateway_sdk.Session.Schema.{table_row_count, decode_schema, decode_batch}
use exasol_gateway_sdk.Session.ReadBatch.{validate_native_read_batch}
use exasol_gateway_sdk.Capabilities.{supports, native_table_read_batch_v1}

module _ {C Schema RecordBatch : Type 0} (net : Connection C)
    (arrow : Arrow Schema RecordBatch) where
  -- The payload of a table's description.
  unfoldable pub table_metadata : List ℕ → Reading (TableMetadata Schema)
  table_metadata payload = do
    schema_name ← read_string16 payload
    table_name ← read_string16 payload
    version ← read_string16 payload
    encoded ← read_bytes32 payload
    schema ← lift (decode_schema arrow encoded)
    row_count ← lift (table_row_count arrow (some schema))
    ensure_consumed payload
    pure (record {
      table = record { schema = schema_name; table = table_name };
      version = version;
      schema = some schema;
      schema_ipc = encoded;
      row_count = row_count;
    })

  unfoldable pub describe_table : TableName → Requesting C (TableMetadata Schema)
  describe_table table = do
    payload ← writing (table_payload table)
    frame ← request net Message.describe_table payload Message.describe_table_result false
    reading (table_metadata frame.payload)

  unfoldable pub table_version : List ℕ → Reading (List ℕ)
  table_version payload = do
    _ ← read_string16 payload
    _ ← read_string16 payload
    version ← read_string16 payload
    ensure_consumed payload
    pure version

  unfoldable pub get_table_version : TableName → Requesting C (List ℕ)
  get_table_version table = do
    payload ← writing (table_payload table)
    frame ← request net Message.get_table_version payload Message.get_table_version_result false
    reading (table_version frame.payload)

  -- The payload that answers the opening of a cursor.
  unfoldable pub opened_cursor : List ℕ → Reading (Cursor Schema)
  opened_cursor payload = do
    id ← read_u64 payload
    encoded ← read_bytes32 payload
    schema ← lift (decode_schema arrow encoded)
    ensure_consumed payload
    pure (record { id = id; schema = some schema; schema_ipc = encoded })

  unfoldable pub open_pushed_query : List ℕ → Requesting C (Cursor Schema)
  open_pushed_query sql = do
    payload ← writing (append_string32 sql)
    frame ← request net Message.open_pushed_query payload Message.open_cursor_result false
    reading (opened_cursor frame.payload)

  unfoldable pub scan_payload : TableName → List (List ℕ) → Bool → Writing
  scan_payload table columns include_row_locations = do
    append_string32 table.schema
    append_string32 table.table
    append_u32 (length columns)
    append_all append_string32 columns
    append_u8 (if include_row_locations then 1 else 0)

  unfoldable pub open_table_scan : TableName → List (List ℕ) → Bool → Requesting C (Cursor Schema)
  open_table_scan table columns include_row_locations = do
    require (leb (length columns) 0xffff_ffff) "too many scan columns"
    payload ← writing (scan_payload table columns include_row_locations)
    frame ← request net Message.open_table_scan payload Message.open_cursor_result false
    reading (opened_cursor frame.payload)

  -- The payload that answers a fetch, whose cursor has to be the one that was asked for.
  unfoldable pub fetched : String → Cursor Schema → List ℕ → Reading (FetchBatch RecordBatch)
  fetched mismatch cursor payload = do
    cursor_id ← read_u64 payload
    end_of_cursor ← read_u8 payload
    rows ← read_bytes32 payload
    count ← read_u32 payload
    row_locations ← read_all count (read_location payload)
    ensure_consumed payload
    require (cursor_id == cursor.id) mismatch
    pure (record {
      cursor_id = cursor_id;
      end_of_cursor = not (end_of_cursor == 0);
      rows = none;
      rows_ipc = rows;
      row_locations = row_locations;
    })

  abbrev pub fetch_payload : Cursor Schema → ℕ → ℕ → Writing
  fetch_payload cursor max_rows max_bytes = do
    append_u64 cursor.id
    append_u32 max_rows
    append_u32 max_bytes

  abbrev pub positioned_payload : Cursor Schema → List RowLocation → ℕ → Writing
  positioned_payload cursor locations max_bytes = do
    append_u64 cursor.id
    append_u32 max_bytes
    append_locations locations

  unfoldable pub fetch_ipc : Cursor Schema → ℕ → ℕ → Requesting C (FetchBatch RecordBatch)
  fetch_ipc cursor max_rows max_bytes = do
    payload ← writing (fetch_payload cursor max_rows max_bytes)
    frame ← request net Message.fetch payload Message.fetch_result false
    reading (fetched "SessionGW fetch cursor mismatch" cursor frame.payload)

  abbrev pub decoded :
      Cursor Schema → FetchBatch RecordBatch → Requesting C (FetchBatch RecordBatch)
  decoded cursor result = do
    rows ← lift (decode_batch arrow cursor.schema result.rows_ipc)
    pure (record result { rows = rows })

  unfoldable pub fetch : Cursor Schema → ℕ → ℕ → Requesting C (FetchBatch RecordBatch)
  fetch cursor max_rows max_bytes = do
    result ← fetch_ipc cursor max_rows max_bytes
    decoded cursor result

  abbrev pub is_nonempty : List RowLocation → Bool
  is_nonempty [] = false
  is_nonempty (location ∷ locations) = true

  unfoldable pub fetch_positioned_ipc :
      Cursor Schema → List RowLocation → ℕ → Requesting C (FetchBatch RecordBatch)
  fetch_positioned_ipc cursor locations max_bytes = do
    require (is_nonempty locations) "positioned fetch requires row locations"
    payload ← writing (positioned_payload cursor locations max_bytes)
    frame ← request net Message.fetch_positioned_rows payload Message.fetch_result false
    reading (fetched "SessionGW positioned fetch cursor mismatch" cursor frame.payload)

  unfoldable pub fetch_positioned :
      Cursor Schema → List RowLocation → ℕ → Requesting C (FetchBatch RecordBatch)
  fetch_positioned cursor locations max_bytes = do
    result ← fetch_positioned_ipc cursor locations max_bytes
    decoded cursor result

  -- `decodeNativeFetchResult`.
  unfoldable pub decode_native_fetch_result : List ℕ → Cursor Schema → Reading NativeFetchBatch
  decode_native_fetch_result payload cursor = do
    cursor_id ← read_u64 payload
    end_of_cursor ← read_u8 payload
    rows ← read_bytes32 payload
    if nonempty rows then lift (validate_native_read_batch arrow rows cursor.schema) else pure tt
    count ← read_u32 payload
    row_locations ← read_all count (read_location payload)
    ensure_consumed payload
    require (cursor_id == cursor.id) "SessionGW native fetch cursor mismatch"
    pure (record {
      cursor_id = cursor_id;
      end_of_cursor = not (end_of_cursor == 0);
      native_rows = rows;
      row_locations = row_locations;
    })

  abbrev pub require_native : Requesting C (Unit {0})
  require_native = do
    self ← get
    require (supports self.capabilities native_table_read_batch_v1)
        "server does not support native table read batches"

  unfoldable pub fetch_native : Cursor Schema → ℕ → ℕ → Requesting C NativeFetchBatch
  fetch_native cursor max_rows max_bytes = do
    require_native
    payload ← writing (fetch_payload cursor max_rows max_bytes)
    frame ← request net Message.fetch_native payload Message.fetch_native_result false
    reading (decode_native_fetch_result frame.payload cursor)

  unfoldable pub fetch_positioned_native :
      Cursor Schema → List RowLocation → ℕ → Requesting C NativeFetchBatch
  fetch_positioned_native cursor locations max_bytes = do
    require_native
    require (is_nonempty locations) "positioned native fetch requires row locations"
    payload ← writing (positioned_payload cursor locations max_bytes)
    frame ←
        request net Message.fetch_positioned_rows_native payload Message.fetch_native_result false
    reading (decode_native_fetch_result frame.payload cursor)

  -- The cursor as it is left: an error leaves it as it was.
  unfoldable pub close_cursor : Cursor Schema → Requesting C (Cursor Schema)
  close_cursor cursor = do
    require (not (cursor.id == 0)) "SessionGW cursor is not open"
    payload ← writing (append_u64 cursor.id)
    _ ← request net Message.close_cursor payload Message.ok false
    pure (record cursor { id = 0; schema = none })
