-- ===== src/CApi/Exports.antt =====
-- include/sessiongw/c_api.h, src/c_api.cpp: the exported functions that work on a session, as values, so
-- that a call of any of them can be spoken of.
use exasol_gateway_sdk.Base.{ℕ, Option, Bool}
use exasol_gateway_sdk.Base.State.{Action}
use exasol_gateway_sdk.Session.{Arrow, TableMetadata, Cursor, TableOperation}
use exasol_gateway_sdk.Session.Request.{Connection}
use exasol_gateway_sdk.CApi.{LastError, protect}
use exasol_gateway_sdk.CApi.Handles.{CFetch, CNativeFetch, Objects, Fields}
use exasol_gateway_sdk.CApi.Functions.{
  Text, Array, c_close, c_describe_table, c_get_table_version, c_open_pushed_query,
  c_open_table_scan, c_fetch_rows, c_fetch_positioned, c_fetch_native, c_fetch_positioned_native,
  c_close_cursor, c_open_table_insert, c_open_table_update, c_open_table_delete, c_insert_rows,
  c_update_rows, c_delete_rows, c_close_operation, c_set_autocommit, c_commit, c_rollback,
}

pub data Export (Schema : Type 0) : Type 0 where
  close : Export Schema
  describe_table : Text → Text → Export Schema
  get_table_version : Text → Text → Export Schema
  open_pushed_query : Text → Export Schema
  open_table_scan : Text → Text → Array Text → ℕ → ℕ → Export Schema
  fetch_rows : Option (Cursor Schema) → ℕ → ℕ → Export Schema
  fetch_positioned : Option (Cursor Schema) → Array ℕ → ℕ → ℕ → Export Schema
  fetch_native : Option (Cursor Schema) → ℕ → ℕ → Export Schema
  fetch_positioned_native : Option (Cursor Schema) → Array ℕ → ℕ → ℕ → Export Schema
  close_cursor : Export Schema
  open_table_insert : Text → Text → Array Text → ℕ → ℕ → Array ℕ → ℕ → Export Schema
  open_table_update : Text → Text → Array Text → ℕ → ℕ → Array ℕ → ℕ → Export Schema
  open_table_delete : Text → Text → ℕ → Export Schema
  insert_rows : Option (TableOperation Schema) → Array ℕ → ℕ → Export Schema
  update_rows : Option (TableOperation Schema) → Array ℕ → ℕ → Array ℕ → ℕ → Export Schema
  delete_rows : Option (TableOperation Schema) → Array ℕ → ℕ → Export Schema
  close_operation : Export Schema
  set_autocommit : ℕ → Export Schema
  commit : Export Schema
  rollback : Export Schema

-- What the function stores a value into: a handle, which can be null, or a number; or the object
-- that it closes.
abbrev pub Out : {Schema : Type 0} → Type 0 → Export Schema → Type 0
Out {Schema} RecordBatch (describe_table schema table) = Option (TableMetadata Schema)
Out {Schema} RecordBatch (get_table_version schema table) = Option (TableMetadata Schema)
Out {Schema} RecordBatch (open_pushed_query sql) = Option (Cursor Schema)
Out {Schema} RecordBatch (open_table_scan schema table columns count with) = Option (Cursor Schema)
Out RecordBatch (fetch_rows cursor rows bytes) = Option (CFetch RecordBatch)
Out RecordBatch (fetch_positioned cursor rows count bytes) = Option (CFetch RecordBatch)
Out RecordBatch (fetch_native cursor rows bytes) = Option CNativeFetch
Out RecordBatch (fetch_positioned_native cursor rows count bytes) = Option CNativeFetch
Out {Schema} RecordBatch close_cursor = Cursor Schema
Out {Schema} RecordBatch (open_table_insert s t columns count rows ipc size) =
    Option (TableOperation Schema)
Out {Schema} RecordBatch (open_table_update s t columns count rows ipc size) =
    Option (TableOperation Schema)
Out {Schema} RecordBatch (open_table_delete s t rows) = Option (TableOperation Schema)
Out RecordBatch (insert_rows operation batch size) = ℕ
Out RecordBatch (update_rows operation rows count batch size) = ℕ
Out RecordBatch (delete_rows operation rows count) = ℕ
Out {Schema} RecordBatch close_operation = TableOperation Schema
Out RecordBatch _ = Unit {0}

module _ {C Schema RecordBatch Field : Type 0} (net : Connection C)
    (arrow : Arrow Schema RecordBatch) (fields : Fields Schema Field) where
  unfoldable pub body : (e : Export Schema) → Action (Objects C (Out RecordBatch e)) (Unit {0})
  body close = c_close net arrow fields
  body (describe_table schema table) = c_describe_table net arrow fields schema table
  body (get_table_version schema table) = c_get_table_version net arrow fields schema table
  body (open_pushed_query sql) = c_open_pushed_query net arrow fields sql
  body (open_table_scan schema table columns count include) =
      c_open_table_scan net arrow fields schema table columns count include
  body (fetch_rows cursor max_rows max_bytes) =
      c_fetch_rows net arrow fields cursor max_rows max_bytes
  body (fetch_positioned cursor rows count max_bytes) =
      c_fetch_positioned net arrow fields cursor rows count max_bytes
  body (fetch_native cursor max_rows max_bytes) =
      c_fetch_native net arrow fields cursor max_rows max_bytes
  body (fetch_positioned_native cursor rows count max_bytes) =
      c_fetch_positioned_native net arrow fields cursor rows count max_bytes
  body close_cursor = c_close_cursor net arrow fields
  body (open_table_insert schema table columns count max_rows ipc size) =
      c_open_table_insert net arrow fields schema table columns count max_rows ipc size
  body (open_table_update schema table columns count max_rows ipc size) =
      c_open_table_update net arrow fields schema table columns count max_rows ipc size
  body (open_table_delete schema table max_rows) =
      c_open_table_delete net arrow fields schema table max_rows
  body (insert_rows operation batch size) = c_insert_rows net arrow fields operation batch size
  body (update_rows operation rows count batch size) =
      c_update_rows net arrow fields operation rows count batch size
  body (delete_rows operation rows count) = c_delete_rows net arrow fields operation rows count
  body close_operation = c_close_operation net arrow fields
  body (set_autocommit enabled) = c_set_autocommit net arrow fields enabled
  body commit = c_commit net arrow fields
  body rollback = c_rollback net arrow fields

  -- An exported function: whether it returns 0, the objects and the last error.
  unfoldable pub call :
      (e : Export Schema) → Action (Objects C (Out RecordBatch e) × LastError) Bool
  call e = protect (body e)
