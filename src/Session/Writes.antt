-- ===== src/Session/Writes.antt =====
-- src/session.cpp: table operations, their rows, and transactions.
use exasol_gateway_sdk.Base.{
  ℕ, List, [], ◌∷◌, Option, none, some, Bool, true, false, ◌&&◌, not, leb, ◌==◌, length,
  if◌then◌else◌,
}
use exasol_gateway_sdk.Base.State.{pure, ◌>>=◌, ◌>>◌, lift, require}
use exasol_gateway_sdk.Frame.Message.{MessageType}
use exasol_gateway_sdk.Frame.Message
use exasol_gateway_sdk.Session.{Arrow, TableName, RowLocation, TableOperation}
use exasol_gateway_sdk.Session.Codec.{
  Reading, Writing, append_u32, append_u64, append_string32, append_bytes32, append_all,
  append_locations, native_payload, native_body, nonempty, read_u64, read_bytes32, ensure_consumed,
}
use exasol_gateway_sdk.Session.Request.{Connection, Requesting, reading, writing, request}
use exasol_gateway_sdk.Session.Schema.{decode_schema, encode_schema}

module _ {C Schema RecordBatch : Type 0} (net : Connection C)
    (arrow : Arrow Schema RecordBatch) where
  -- The payload that answers the opening of a table operation.
  unfoldable pub opened_operation : List ℕ → Reading (TableOperation Schema)
  opened_operation payload = do
    id ← read_u64 payload
    accepted ← read_bytes32 payload
    schema ← lift (decode_schema arrow accepted)
    ensure_consumed payload
    pure (record { id = id; accepted_schema = some schema; accepted_schema_ipc = accepted })

  abbrev pub column_payload : TableName → List (List ℕ) → ℕ → Writing
  column_payload table columns max_rows_per_batch = do
    append_string32 table.schema
    append_string32 table.table
    append_u32 (length columns)
    append_all append_string32 columns
    append_u32 max_rows_per_batch

  -- The payload: the schema is encoded once the rest is written.
  unfoldable pub column_operation_payload : TableName → List (List ℕ) → ℕ → Option Schema → Writing
  column_operation_payload table columns max_rows_per_batch schema = do
    column_payload table columns max_rows_per_batch
    schema_bytes ← lift (encode_schema arrow schema)
    append_bytes32 schema_bytes

  unfoldable pub open_column_operation :
      MessageType
      → TableName
      → List (List ℕ)
      → ℕ
      → Option Schema
      → Requesting C (TableOperation Schema)
  open_column_operation type table columns max_rows_per_batch schema = do
    require (leb (length columns) 0xffff_ffff) "too many table-operation columns"
    payload ← writing (column_operation_payload table columns max_rows_per_batch schema)
    frame ← request net type payload Message.open_table_operation_result false
    reading (opened_operation frame.payload)

  unfoldable pub open_table_insert :
      TableName → List (List ℕ) → ℕ → Option Schema → Requesting C (TableOperation Schema)
  open_table_insert = open_column_operation Message.open_table_insert

  unfoldable pub open_table_update :
      TableName → List (List ℕ) → ℕ → Option Schema → Requesting C (TableOperation Schema)
  open_table_update = open_column_operation Message.open_table_update

  abbrev pub delete_payload : TableName → ℕ → Writing
  delete_payload table max_rows_per_batch = do
    append_string32 table.schema
    append_string32 table.table
    append_u32 max_rows_per_batch

  unfoldable pub open_table_delete : TableName → ℕ → Requesting C (TableOperation Schema)
  open_table_delete table max_rows_per_batch = do
    payload ← writing (delete_payload table max_rows_per_batch)
    frame ← request net Message.open_table_delete payload Message.open_table_operation_result false
    reading (opened_operation frame.payload)

  unfoldable pub affected_rows : List ℕ → Reading ℕ
  affected_rows payload = do rows ← read_u64 payload; ensure_consumed payload; pure rows

  unfoldable pub insert_rows : TableOperation Schema → List ℕ → Requesting C ℕ
  insert_rows operation native_batch = do
    payload ← writing (native_payload operation.id native_batch)
    frame ← request net Message.insert_rows payload Message.affected_rows_result false
    reading (affected_rows frame.payload)

  abbrev pub is_nonempty : List RowLocation → Bool
  is_nonempty [] = false
  is_nonempty (location ∷ locations) = true

  abbrev pub update_payload : ℕ → List RowLocation → List ℕ → Writing
  update_payload id locations native_batch = do
    append_u64 id
    append_locations locations
    native_body native_batch

  unfoldable pub update_rows : TableOperation Schema → List RowLocation → List ℕ → Requesting C ℕ
  update_rows operation locations native_batch = do
    require (is_nonempty locations) "SessionGW update requires row locations"
    require (nonempty native_batch && leb (length native_batch) 0xffff_ffff)
        "invalid native update batch"
    payload ← writing (update_payload operation.id locations native_batch)
    frame ← request net Message.update_rows payload Message.affected_rows_result false
    reading (affected_rows frame.payload)

  abbrev pub rows_payload : ℕ → List RowLocation → Writing
  rows_payload id locations = do append_u64 id; append_locations locations

  unfoldable pub delete_rows : TableOperation Schema → List RowLocation → Requesting C ℕ
  delete_rows operation locations = do
    require (is_nonempty locations) "SessionGW delete requires row locations"
    payload ← writing (rows_payload operation.id locations)
    frame ← request net Message.delete_rows payload Message.affected_rows_result false
    reading (affected_rows frame.payload)

  -- The operation as it is left: an error leaves it as it was.
  unfoldable pub close_operation : TableOperation Schema → Requesting C (TableOperation Schema)
  close_operation operation = do
    require (not (operation.id == 0)) "SessionGW operation is not open"
    payload ← writing (append_u64 operation.id)
    _ ← request net Message.close_operation payload Message.ok true
    pure (record operation { id = 0; accepted_schema = none })

  unfoldable pub set_autocommit : Bool → Requesting C (Unit {0})
  set_autocommit enabled = do
    _ ← request net Message.set_autocommit ((if enabled then 1 else 0) ∷ []) Message.ok false
    pure tt

  unfoldable pub commit : Requesting C (Unit {0})
  commit = do _ ← request net Message.commit [] Message.ok true; pure tt

  unfoldable pub rollback : Requesting C (Unit {0})
  rollback = do _ ← request net Message.rollback [] Message.ok false; pure tt
