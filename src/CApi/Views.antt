-- ===== src/CApi/Views.antt =====
-- include/sessiongw/c_api.h, src/c_api.cpp: what is read of a handle, which can be null. A pointer into
-- a vector is the position in it, and goes with the size that is stored for it.
use exasol_gateway_sdk.Base.{
  get_elem?, ℕ, ◌*◌, List, [], ◌∷◌, Option, none, some, Bool, false, ◌==◌, length, if◌then◌else◌,
}
use exasol_gateway_sdk.Session.{TableMetadata, Cursor, TableOperation}
use exasol_gateway_sdk.CApi.{NativeColumnView}
use exasol_gateway_sdk.CApi.Handles.{CFetch, CNativeFetch}

-- A borrowed view.
abbrev pub View : Type 0
View = Option ℕ × ℕ

-- `bytes` of a vector whose elements have so many bytes.
unfoldable pub bytes_view : {A : Type 0} → ℕ → List A → View
bytes_view width [] = (none, 0)
bytes_view width (x ∷ xs) = (some 0, length (x ∷ xs) * width)

abbrev counted : Option ℕ → ℕ × ℕ
counted none = (0, 0)
counted (some count) = (1, count)

module _ {Schema : Type 0} where
  unfoldable pub metadata_schema_name : Option (TableMetadata Schema) → Option (List ℕ)
  metadata_schema_name none = none
  metadata_schema_name (some metadata) = some metadata.table.schema

  unfoldable pub metadata_table_name : Option (TableMetadata Schema) → Option (List ℕ)
  metadata_table_name none = none
  metadata_table_name (some metadata) = some metadata.table.table

  unfoldable pub metadata_version : Option (TableMetadata Schema) → Option (List ℕ)
  metadata_version none = none
  metadata_version (some metadata) = some metadata.version

  -- Whether there is a row count, and the count, which is 0 if there is none.
  unfoldable pub metadata_row_count : Option (TableMetadata Schema) → ℕ × ℕ
  metadata_row_count none = (0, 0)
  metadata_row_count (some metadata) = counted metadata.row_count

  unfoldable pub metadata_schema_ipc : Option (TableMetadata Schema) → View
  metadata_schema_ipc none = (none, 0)
  metadata_schema_ipc (some metadata) = bytes_view 1 metadata.schema_ipc

  unfoldable pub cursor_id : Option (Cursor Schema) → ℕ
  cursor_id none = 0
  cursor_id (some cursor) = cursor.id

  unfoldable pub cursor_schema_ipc : Option (Cursor Schema) → View
  cursor_schema_ipc none = (none, 0)
  cursor_schema_ipc (some cursor) = bytes_view 1 cursor.schema_ipc

  unfoldable pub operation_id : Option (TableOperation Schema) → ℕ
  operation_id none = 0
  operation_id (some operation) = operation.id

  unfoldable pub operation_schema_ipc : Option (TableOperation Schema) → View
  operation_schema_ipc none = (none, 0)
  operation_schema_ipc (some operation) = bytes_view 1 operation.accepted_schema_ipc

module _ {RecordBatch : Type 0} where
  unfoldable pub fetch_cursor_id : Option (CFetch RecordBatch) → ℕ
  fetch_cursor_id none = 0
  fetch_cursor_id (some fetch) = fetch.value.cursor_id

  unfoldable pub fetch_end : Option (CFetch RecordBatch) → Bool
  fetch_end none = false
  fetch_end (some fetch) = fetch.value.end_of_cursor

  unfoldable pub fetch_rows_ipc : Option (CFetch RecordBatch) → View
  fetch_rows_ipc none = (none, 0)
  fetch_rows_ipc (some fetch) = bytes_view 1 fetch.value.rows_ipc

  -- The size is the number of locations.
  unfoldable pub fetch_row_locations : Option (CFetch RecordBatch) → View
  fetch_row_locations none = (none, 0)
  fetch_row_locations (some fetch) = bytes_view 1 fetch.locations

unfoldable pub native_fetch_cursor_id : Option CNativeFetch → ℕ
native_fetch_cursor_id none = 0
native_fetch_cursor_id (some fetch) = fetch.value.cursor_id

unfoldable pub native_fetch_end : Option CNativeFetch → Bool
native_fetch_end none = false
native_fetch_end (some fetch) = fetch.value.end_of_cursor

unfoldable pub native_fetch_row_count : Option CNativeFetch → ℕ
native_fetch_row_count none = 0
native_fetch_row_count (some fetch) = fetch.row_count

unfoldable pub native_fetch_column_count : Option CNativeFetch → ℕ
native_fetch_column_count none = 0
native_fetch_column_count (some fetch) = length fetch.columns

unfoldable pub native_fetch_row_locations : Option CNativeFetch → View
native_fetch_row_locations none = (none, 0)
native_fetch_row_locations (some fetch) = bytes_view 1 fetch.locations

-- `fetch->columns[column]`, unless the handle is null or has no such column.
unfoldable pub column_at : Option CNativeFetch → ℕ → Option NativeColumnView
column_at none column = none
column_at (some fetch) column = get_elem? fetch.columns column

abbrev kind_of : Option NativeColumnView → ℕ
kind_of none = 0
kind_of (some view) = view.kind

unfoldable pub native_fetch_column_kind : Option CNativeFetch → ℕ → ℕ
native_fetch_column_kind fetch column = kind_of (column_at fetch column)

abbrev scale_of : Option NativeColumnView → ℕ
scale_of none = 0
scale_of (some view) = view.scale

unfoldable pub native_fetch_column_scale : Option CNativeFetch → ℕ → ℕ
native_fetch_column_scale fetch column = scale_of (column_at fetch column)

-- A buffer of a column, a position in `native_rows`; there is no pointer to an empty one.
abbrev pub buffer_view : ℕ → ℕ → View
buffer_view offset size = (if size == 0 then none else some offset, size)

abbrev pub nulls_of : Option NativeColumnView → View
nulls_of none = (none, 0)
nulls_of (some view) = buffer_view view.null_offset view.null_size

unfoldable pub native_fetch_column_nulls : Option CNativeFetch → ℕ → View
native_fetch_column_nulls fetch column = nulls_of (column_at fetch column)

-- The data of a column that is none of strings.
abbrev pub fixed_of : Option NativeColumnView → View
fixed_of none = (none, 0)
fixed_of (some view) =
    if view.kind == 7 then (none, 0) else buffer_view view.data_offset view.data_size

unfoldable pub native_fetch_column_fixed_data : Option CNativeFetch → ℕ → View
native_fetch_column_fixed_data fetch column = fixed_of (column_at fetch column)

-- The data of a column of strings.
abbrev pub variable_of : Option NativeColumnView → View
variable_of none = (none, 0)
variable_of (some view) =
    if view.kind == 7 then buffer_view view.data_offset view.data_size else (none, 0)

unfoldable pub native_fetch_column_variable_data : Option CNativeFetch → ℕ → View
native_fetch_column_variable_data fetch column = variable_of (column_at fetch column)

abbrev pub sizes_of : Option NativeColumnView → View
sizes_of none = (none, 0)
sizes_of (some view) =
    if view.kind == 7 then buffer_view view.sizes_offset view.sizes_size else (none, 0)

unfoldable pub native_fetch_column_sizes : Option CNativeFetch → ℕ → View
native_fetch_column_sizes fetch column = sizes_of (column_at fetch column)
