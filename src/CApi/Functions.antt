-- ===== src/CApi/Functions.antt =====
-- include/sessiongw/c_api.h, src/c_api.cpp: the exported functions that work on a session, what each
-- does under `protect`. What is evaluated in no order that the language fixes, such as the arguments
-- of one call, is evaluated from left to right.
use Prim.Native.String.{String}
use exasol_gateway_sdk.Base.{ℕ, List, [], Option, none, some, Bool, true, not, ◌&&◌, ◌||◌, ◌==◌}
use exasol_gateway_sdk.Base.State.{Action, ◌>>=◌, ◌>>◌, get, lift, require}
use exasol_gateway_sdk.Session.{Arrow, TableMetadata, Cursor, TableOperation}
use exasol_gateway_sdk.Session.Request.{Connection, close_session}
use exasol_gateway_sdk.Session.Cursors
use exasol_gateway_sdk.Session.Writes
use exasol_gateway_sdk.CApi.{text_of}
use exasol_gateway_sdk.CApi.Arguments.{is_null, table_name, column_names, locations}
use exasol_gateway_sdk.CApi.Handles.{
  CFetch, CNativeFetch, Objects, on_session, store, pointee, span_of, fetch_handle, native_handle,
  Fields, columns_of,
}

-- A string, and an array with what is readable there.
abbrev pub Text : Type 0
Text = Option (List ℕ)

abbrev pub Array : Type 0 → Type 0
Array A = Option (List A)

module _ {C : Type 0} where
  -- `require(session != nullptr && out != nullptr && ...)`
  unfoldable pub arguments : {O : Type 0} → Bool → String → Action (Objects C O) (Unit {0})
  arguments others message = do
    s ← get
    require (not (is_null s.session) && (not (is_null s.out) && others)) message

  unfoldable pub session_argument : {O : Type 0} → String → Action (Objects C O) (Unit {0})
  session_argument message = do s ← get; require (not (is_null s.session)) message

  -- The object that is to be closed.
  unfoldable pub handle : {O : Type 0} → Action (Objects C O) O
  handle = do s ← get; lift (pointee s.out)

module _ {C Schema RecordBatch Field : Type 0} (net : Connection C)
    (arrow : Arrow Schema RecordBatch) (fields : Fields Schema Field) where
  unfoldable pub c_close : Action (Objects C (Unit {0})) (Unit {0})
  c_close = do session_argument "SessionGW session is required"; on_session (close_session net)

  unfoldable pub c_describe_table :
      Text → Text → Action (Objects C (Option (TableMetadata Schema))) (Unit {0})
  c_describe_table schema table = do
    arguments true "SessionGW metadata arguments are required"
    name ← lift (table_name schema table)
    metadata ← on_session (Cursors.describe_table net arrow name)
    store (some metadata)

  unfoldable pub c_get_table_version :
      Text → Text → Action (Objects C (Option (TableMetadata Schema))) (Unit {0})
  c_get_table_version schema table = do
    arguments true "SessionGW version arguments are required"
    name ← lift (table_name schema table)
    version ← on_session (Cursors.get_table_version net arrow name)
    store (
        some (record {
          table = name;
          version = version;
          schema = none;
          schema_ipc = [];
          row_count = none;
        }))

  unfoldable pub c_open_pushed_query : Text → Action (Objects C (Option (Cursor Schema))) (Unit {0})
  c_open_pushed_query sql = do
    arguments true "SessionGW cursor arguments are required"
    statement ← lift (text_of sql "SessionGW SQL is required")
    cursor ← on_session (Cursors.open_pushed_query net arrow statement)
    store (some cursor)

  unfoldable pub c_open_table_scan :
      Text → Text → Array Text → ℕ → ℕ → Action (Objects C (Option (Cursor Schema))) (Unit {0})
  c_open_table_scan schema table columns count include = do
    arguments true "SessionGW cursor arguments are required"
    name ← lift (table_name schema table)
    names ← lift (column_names columns count)
    cursor ← on_session (Cursors.open_table_scan net arrow name names (not (include == 0)))
    store (some cursor)

  unfoldable pub c_fetch_rows :
      Option (Cursor Schema) → ℕ → ℕ → Action (Objects C (Option (CFetch RecordBatch))) (Unit {0})
  c_fetch_rows cursor max_rows max_bytes = do
    arguments (not (is_null cursor)) "SessionGW fetch arguments are required"
    opened ← lift (pointee cursor)
    value ← on_session (Cursors.fetch_ipc net arrow opened max_rows max_bytes)
    store (some (fetch_handle value))

  unfoldable pub c_fetch_positioned :
      Option (Cursor Schema)
      → Array ℕ
      → ℕ
      → ℕ
      → Action (Objects C (Option (CFetch RecordBatch))) (Unit {0})
  c_fetch_positioned cursor rows count max_bytes = do
    arguments (not (is_null cursor)) "SessionGW positioned fetch arguments are required"
    requested ← lift (locations rows count)
    opened ← lift (pointee cursor)
    value ← on_session (Cursors.fetch_positioned_ipc net arrow opened requested max_bytes)
    store (some (fetch_handle value))

  unfoldable pub c_fetch_native :
      Option (Cursor Schema) → ℕ → ℕ → Action (Objects C (Option CNativeFetch)) (Unit {0})
  c_fetch_native cursor max_rows max_bytes = do
    arguments (not (is_null cursor)) "SessionGW native fetch arguments are required"
    opened ← lift (pointee cursor)
    value ← on_session (Cursors.fetch_native net arrow opened max_rows max_bytes)
    made ← lift (native_handle value)
    store (some made)

  unfoldable pub c_fetch_positioned_native :
      Option (Cursor Schema) → Array ℕ → ℕ → ℕ → Action (Objects C (Option CNativeFetch)) (Unit {0})
  c_fetch_positioned_native cursor rows count max_bytes = do
    arguments (not (is_null cursor)) "SessionGW positioned native fetch arguments are required"
    requested ← lift (locations rows count)
    opened ← lift (pointee cursor)
    value ← on_session (Cursors.fetch_positioned_native net arrow opened requested max_bytes)
    made ← lift (native_handle value)
    store (some made)

  unfoldable pub c_close_cursor : Action (Objects C (Cursor Schema)) (Unit {0})
  c_close_cursor = do
    arguments true "SessionGW cursor arguments are required"
    cursor ← handle
    closed ← on_session (Cursors.close_cursor net arrow cursor)
    store closed

  unfoldable pub c_open_table_insert :
      Text
      → Text
      → Array Text
      → ℕ
      → ℕ
      → Array ℕ
      → ℕ
      → Action (Objects C (Option (TableOperation Schema))) (Unit {0})
  c_open_table_insert schema table columns count max_rows ipc size = do
    arguments true "SessionGW operation arguments are required"
    named ← lift (columns_of arrow fields columns count ipc size)
    name ← lift (table_name schema table)
    operation ←
        on_session (Writes.open_table_insert net arrow name (named.0) max_rows (some (named.1)))
    store (some operation)

  unfoldable pub c_open_table_update :
      Text
      → Text
      → Array Text
      → ℕ
      → ℕ
      → Array ℕ
      → ℕ
      → Action (Objects C (Option (TableOperation Schema))) (Unit {0})
  c_open_table_update schema table columns count max_rows ipc size = do
    arguments true "SessionGW operation arguments are required"
    named ← lift (columns_of arrow fields columns count ipc size)
    name ← lift (table_name schema table)
    operation ←
        on_session (Writes.open_table_update net arrow name (named.0) max_rows (some (named.1)))
    store (some operation)

  unfoldable pub c_open_table_delete :
      Text → Text → ℕ → Action (Objects C (Option (TableOperation Schema))) (Unit {0})
  c_open_table_delete schema table max_rows = do
    arguments true "SessionGW operation arguments are required"
    name ← lift (table_name schema table)
    operation ← on_session (Writes.open_table_delete net arrow name max_rows)
    store (some operation)

  unfoldable pub c_insert_rows :
      Option (TableOperation Schema) → Array ℕ → ℕ → Action (Objects C ℕ) (Unit {0})
  c_insert_rows operation batch size = do
    arguments (not (is_null operation) && (size == 0 || not (is_null batch)))
        "SessionGW insert arguments are required"
    opened ← lift (pointee operation)
    span ← lift (span_of batch size)
    affected ← on_session (Writes.insert_rows net arrow opened span)
    store affected

  unfoldable pub c_update_rows :
      Option (TableOperation Schema) → Array ℕ → ℕ → Array ℕ → ℕ → Action (Objects C ℕ) (Unit {0})
  c_update_rows operation rows count batch size = do
    arguments (not (is_null operation) && (size == 0 || not (is_null batch)))
        "SessionGW update arguments are required"
    requested ← lift (locations rows count)
    opened ← lift (pointee operation)
    span ← lift (span_of batch size)
    affected ← on_session (Writes.update_rows net arrow opened requested span)
    store affected

  unfoldable pub c_delete_rows :
      Option (TableOperation Schema) → Array ℕ → ℕ → Action (Objects C ℕ) (Unit {0})
  c_delete_rows operation rows count = do
    arguments (not (is_null operation)) "SessionGW delete arguments are required"
    requested ← lift (locations rows count)
    opened ← lift (pointee operation)
    affected ← on_session (Writes.delete_rows net arrow opened requested)
    store affected

  unfoldable pub c_close_operation : Action (Objects C (TableOperation Schema)) (Unit {0})
  c_close_operation = do
    arguments true "SessionGW operation arguments are required"
    operation ← handle
    closed ← on_session (Writes.close_operation net arrow operation)
    store closed

  unfoldable pub c_set_autocommit : ℕ → Action (Objects C (Unit {0})) (Unit {0})
  c_set_autocommit enabled = do
    session_argument "SessionGW session is required"
    on_session (Writes.set_autocommit net arrow (not (enabled == 0)))

  unfoldable pub c_commit : Action (Objects C (Unit {0})) (Unit {0})
  c_commit = do
    session_argument "SessionGW session is required"
    on_session (Writes.commit net arrow)

  unfoldable pub c_rollback : Action (Objects C (Unit {0})) (Unit {0})
  c_rollback = do
    session_argument "SessionGW session is required"
    on_session (Writes.rollback net arrow)
