-- ===== src/CApi/Handles.antt =====
-- src/c_api.cpp: handles, and what the exported functions do with the pointers they are given. A
-- pointer is an option, `none` if it is null; to follow a null pointer is a fault.
use exasol_gateway_sdk.Errors.{protocol_error}
use exasol_gateway_sdk.Base.{
  ℕ, List, [], ◌∷◌, Option, none, some, not, ◌&&◌, leb, ◌==◌, length, map, ◌^◌, ◌-◌, take,
  if◌then◌else◌, Result, ok, fault,
}
use exasol_gateway_sdk.Base.Outcome
use exasol_gateway_sdk.Base.Outcome.{◌>>=◌, ◌>>◌}
use exasol_gateway_sdk.Base.State.{Action}
use exasol_gateway_sdk.Session.{Arrow, RowLocation, FetchBatch, NativeFetchBatch}
use exasol_gateway_sdk.Session.Request.{Impl, Requesting}
use exasol_gateway_sdk.CApi.{NativeColumnView, index_native_batch}
use exasol_gateway_sdk.CApi.Arguments.{is_null, column_names}

-- `sessiongw_c_fetch`
pub record CFetch (RecordBatch : Type 0) : Type 0 where
  pub value : FetchBatch RecordBatch
  pub locations : List ℕ

-- `sessiongw_c_native_fetch`
pub record CNativeFetch : Type 0 where
  pub value : NativeFetchBatch
  pub locations : List ℕ
  pub row_count : ℕ
  pub columns : List NativeColumnView

-- What a function can change: the session behind its handle, and what stands at `out`, or at the
-- handle of the cursor or the operation that it closes.
pub record Objects (C O : Type 0) : Type 0 where
  pub session : Option (Impl C)
  pub out : Option O

module _ {C O : Type 0} where
  abbrev pub back {ℓ} : {A : Type ℓ} → Objects C O → Result A × Impl C → Result A × Objects C O
  back s (r, session) = (r, record s { session = some session })

  -- `session->value.m(...)`
  abbrev pub through {ℓ} :
      {A : Type ℓ} → Objects C O → Option (Impl C) → Requesting C A → Result A × Objects C O
  through s none m = (fault, s)
  through s (some session) m = back s (m session)

  unfoldable pub on_session {ℓ} : {A : Type ℓ} → Requesting C A → Action (Objects C O) A
  on_session m s = through s s.session m

  abbrev pub stored : Objects C O → Option O → O → Result (Unit {0}) × Objects C O
  stored s none value = (fault, s)
  stored s (some old) value = (ok tt, record s { out = some value })

  -- `*out = value`
  unfoldable pub store : O → Action (Objects C O) (Unit {0})
  store value s = stored s s.out value

-- The object behind a handle.
abbrev pub pointee {ℓ} : {A : Type ℓ} → Option A → Result A
pointee none = fault
pointee (some value) = ok value

-- A span of so many bytes from a pointer on.
unfoldable pub span_of : Option (List ℕ) → ℕ → Result (List ℕ)
span_of none size = if size == 0 then ok [] else fault
span_of (some bytes) size = if leb size (length bytes) then ok (take size bytes) else fault

abbrev row_number_of : RowLocation → ℕ
row_number_of location = location.row_number

abbrev pub numbers : List RowLocation → List ℕ
numbers locations = map row_number_of locations

abbrev pub fetch_handle : {RecordBatch : Type 0} → FetchBatch RecordBatch → CFetch RecordBatch
fetch_handle value = record { value = value; locations = numbers value.row_locations }

-- The handle of a native fetch, whose batch is indexed.
unfoldable pub native_handle : NativeFetchBatch → Result CNativeFetch
native_handle value = do
  indexed ← index_native_batch value.native_rows
  ok (record {
    value = value;
    locations = numbers value.row_locations;
    row_count = indexed.0;
    columns = indexed.1;
  })

-- What the C interface calls of Arrow besides: `GetFieldIndex`, which is negative for no field or
-- several, `field`, and `arrow::schema` of fields with the metadata of a schema.
pub record Fields (Schema Field : Type 0) : Type 0 where
  pub get_field_index : Schema → List ℕ → Option ℕ
  pub field : Schema → ℕ → Field
  pub schema : List Field → Schema → Schema

abbrev pub schema_read : {Schema : Type 0} → Option Schema → Result Schema
schema_read none = Outcome.throw protocol_error "invalid Arrow schema: "
schema_read (some schema) = ok schema

abbrev pub column_index : Option ℕ → Result ℕ
column_index none =
    Outcome.throw protocol_error "SessionGW operation column is absent from the Arrow schema"
column_index (some index) = ok index

module _ {Schema RecordBatch Field : Type 0} (arrow : Arrow Schema RecordBatch)
    (fields : Fields Schema Field) where
  unfoldable pub decode_schema : Option (List ℕ) → ℕ → Result Schema
  decode_schema bytes size = do
    Outcome.require (not (is_null bytes) && not (size == 0)) "SessionGW Arrow schema is required"
    Outcome.require (leb size (2 ^ 63 - 1)) "SessionGW Arrow schema is too large"
    copy ← span_of bytes size
    schema_read (arrow.read_schema copy)

  unfoldable pub projected_fields : Schema → List (List ℕ) → Result (List Field)
  projected_fields schema [] = ok []
  projected_fields schema (column ∷ columns) = do
    index ← column_index (fields.get_field_index schema column)
    others ← projected_fields schema columns
    ok (fields.field schema index ∷ others)

  unfoldable pub project_schema : Schema → List (List ℕ) → Result Schema
  project_schema schema columns = do
    projected ← projected_fields schema columns
    ok (fields.schema projected schema)

  -- The names of the columns, and the fields of the schema that they name.
  unfoldable pub columns_of :
      Option (List (Option (List ℕ))) → ℕ → Option (List ℕ) → ℕ → Result (List (List ℕ) × Schema)
  columns_of columns count ipc size = do
    names ← column_names columns count
    decoded ← decode_schema ipc size
    projected ← project_schema decoded names
    ok (names, projected)
