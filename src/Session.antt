-- ===== src/Session.antt =====
-- include/sessiongw/session.hpp: what a session exchanges with its caller. The Arrow library is not
-- part of the program: its schemas and record batches are parameters, and so are its functions.
pub mod Codec
pub mod Request
pub mod Schema
pub mod ReadBatch
pub mod Cursors
pub mod Writes
pub mod Calls
pub mod Payloads
pub mod Traverse
pub mod Closed
pub mod Ids
pub mod Outcomes
pub mod Completion
pub mod Fields
pub mod Fetched
mod Runs
pub mod Reads
use exasol_gateway_sdk.Base.{ℕ, List, Bool, Option}
use exasol_gateway_sdk.Errors.{Error}

-- `arrow::Type::type`, the ids that the program distinguishes.
pub data TypeId : Type 0 where
  boolean int64 double decimal128 date32 timestamp string other : TypeId

-- What the program calls of Arrow. `status` stands for the text of a failure, a value that fails is
-- `none`.
pub record Arrow (Schema RecordBatch : Type 0) : Type 0 where
  -- `arrow::ipc::ReadSchema`
  pub read_schema : List ℕ → Option Schema
  -- `arrow::ipc::SerializeSchema`
  pub serialize_schema : Schema → Option (List ℕ)
  -- `arrow::ipc::ReadRecordBatch`
  pub read_record_batch : Schema → List ℕ → Option RecordBatch
  -- `schema->num_fields()`
  pub num_fields : Schema → ℕ
  -- `schema->field(i)->type()->id()`
  pub type_id : Schema → ℕ → TypeId
  -- `Decimal128Type::scale()` of a field, as a pattern of 32 bits
  pub scale : Schema → ℕ → ℕ
  -- `schema->metadata()->Get(key)` for the key of the row count, if there is metadata with it
  pub row_count_metadata : Schema → Option (List ℕ)

pub record TableName : Type 0 where
  pub schema : List ℕ
  pub table : List ℕ

pub record RowLocation : Type 0 where
  pub row_number : ℕ

-- A shared pointer is `none` if it is null.
pub record TableMetadata (Schema : Type 0) : Type 0 where
  pub table : TableName
  pub version : List ℕ
  pub schema : Option Schema
  pub schema_ipc : List ℕ
  pub row_count : Option ℕ

pub record Cursor (Schema : Type 0) : Type 0 where
  pub id : ℕ
  pub schema : Option Schema
  pub schema_ipc : List ℕ

pub record FetchBatch (RecordBatch : Type 0) : Type 0 where
  pub cursor_id : ℕ
  pub end_of_cursor : Bool
  pub rows : Option RecordBatch
  pub rows_ipc : List ℕ
  pub row_locations : List RowLocation

pub record NativeFetchBatch : Type 0 where
  pub cursor_id : ℕ
  pub end_of_cursor : Bool
  pub native_rows : List ℕ
  pub row_locations : List RowLocation

pub record TableOperation (Schema : Type 0) : Type 0 where
  pub id : ℕ
  pub accepted_schema : Option Schema
  pub accepted_schema_ipc : List ℕ
