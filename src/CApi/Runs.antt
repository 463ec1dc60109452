-- ===== src/CApi/Runs.antt =====
-- The index of a concrete batch, and the theorems on the C interface at concrete inputs.
use exasol_gateway_sdk.Errors.{protocol_error, transport_error, text}
use exasol_gateway_sdk.Base.{ℕ, List, [], ◌∷◌, true, false, Option, none, some, ◌≡◌, refl, arith}
use exasol_gateway_sdk.Base.Outcome
use exasol_gateway_sdk.Base.Texts.{codes, same}
use exasol_gateway_sdk.Base.Outcome.{ok}
use exasol_gateway_sdk.Base.Bytes.{at, read_big_endian}
use exasol_gateway_sdk.CApi.{
  LastError, NativeColumnView, native_u32, native_skip, buffer, sizes_buffer, column_view,
  column_views, two_words, index_columns, index_native_batch, json_escape, json_escape_byte,
  text_of,
}
use exasol_gateway_sdk.CApi.Arguments.{COptions, mode_of, options, column_names, names_at}
use exasol_gateway_sdk.CApi.Names.{IsColumnNames, column_names-IsColumnNames}
use exasol_gateway_sdk.CApi.Sql.{IsEscape, has_control, json_escape-json_escape}
use exasol_gateway_sdk.WebSocket.Json
use exasol_gateway_sdk.Capabilities.{empty}
use exasol_gateway_sdk.Session.{Arrow, int64, TableOperation, NativeFetchBatch}
use exasol_gateway_sdk.Session.Request.{Connection, Impl}
use exasol_gateway_sdk.Session.Outcomes.{IsTransport}
use exasol_gateway_sdk.CApi.Handles.{CNativeFetch, Objects, Fields, native_handle}
use exasol_gateway_sdk.CApi.Exports.{body, Export, open_table_insert, call}
use exasol_gateway_sdk.CApi.Returned.{IsReturned, call-IsReturned}
use exasol_gateway_sdk.CApi.Views.{native_fetch_column_fixed_data, column_at}
use exasol_gateway_sdk.CApi.Borrowed.{IsLent, native_handle-IsLent}

-- One row with one column of 64-bit integers.
abbrev batch : List ℕ
batch =
    0x53 ∷ 0x47 ∷ 0x52 ∷ 0x42 ∷ 0 ∷ 0 ∷ 0 ∷ 1 ∷ 0 ∷ 0 ∷ 0 ∷ 1 ∷ 0 ∷ 0 ∷ 0 ∷ 1 ∷ 0 ∷ 0 ∷ 0 ∷ 1 ∷ 0
    ∷ 0 ∷ 0 ∷ 1 ∷ 2 ∷ 0 ∷ 0 ∷ 0 ∷ 0 ∷ 0 ∷ 0 ∷ 0 ∷ 0 ∷ 0 ∷ 0 ∷ 2 ∷ 0 ∷ 0 ∷ 0 ∷ 1 ∷ 0 ∷ 0 ∷ 0 ∷ 0 ∷ 8
    ∷ 5 ∷ 0 ∷ 0 ∷ 0 ∷ 0 ∷ 0 ∷ 0 ∷ 0 ∷ []

abbrev view : NativeColumnView
view = record {
  kind = 2;
  scale = 0;
  null_offset = 40;
  null_size = 1;
  sizes_offset = 0;
  sizes_size = 0;
  data_offset = 45;
  data_size = 8;
}

indexed : index_native_batch batch ≡ ok (1, view ∷ [])
unfolding index_native_batch index_columns two_words native_u32 read_big_endian at column_views
    column_view buffer native_skip sizes_buffer
indexed = refl

escaped : json_escape (97 ∷ 34 ∷ 10 ∷ []) [] ≡ ok (97 ∷ 92 ∷ 34 ∷ 92 ∷ 110 ∷ [])
unfolding json_escape json_escape_byte
escaped = refl

abbrev fetched : NativeFetchBatch
fetched = record { cursor_id = 7; end_of_cursor = true; native_rows = batch; row_locations = [] }

abbrev lent : CNativeFetch
lent = record { value = fetched; locations = []; row_count = 1; columns = view ∷ [] }

kept : native_handle fetched ≡ ok lent
unfolding native_handle index_native_batch index_columns two_words native_u32 read_big_endian at
    column_views column_view buffer native_skip sizes_buffer
kept = refl

-- The value of the one row, at position 45, and no column behind it.
first_column :
    (native_fetch_column_fixed_data (some lent) 0 ≡ (some 45, 8))
    × (native_fetch_column_fixed_data (some lent) 1 ≡ (none, 0))
unfolding native_fetch_column_fixed_data column_at
first_column = (refl, refl)

native_handle-IsLent_example : IsLent lent 0
native_handle-IsLent_example = native_handle-IsLent fetched lent kept 0

-- Three pointers, the last of which is null.
abbrev columns : List (Option (List ℕ))
columns = some (codes "ID") ∷ some (codes "NAME") ∷ none ∷ []

named : column_names (some columns) 2 ≡ ok (codes "ID" ∷ codes "NAME" ∷ [])
unfolding column_names names_at text_of
named = refl

unnamed :
    column_names (some columns) 3 ≡ Outcome.throw protocol_error "SessionGW column name is required"
unfolding column_names names_at text_of
unnamed = refl

abbrev input : COptions
input = record {
  host = some (codes "db");
  port = 8563;
  user = some (codes "sys");
  password = none;
  tls_mode = some (codes "none");
  ca_file = none;
  instrumentation_enabled = 0;
}

no_mode : options (some input) ≡ Outcome.throw protocol_error "invalid SessionGW TLS mode"
unfolding options text_of mode_of same
no_mode = refl

column_names-IsColumnNames_example : IsColumnNames columns 2 (column_names (some columns) 2)
column_names-IsColumnNames_example = column_names-IsColumnNames columns 2 (omega arith)

-- A text with a quotation mark and a line feed.
abbrev statement : List ℕ
statement = b'A' ∷ b'"' ∷ 10 ∷ []

json_escape-json_escape_example :
    IsEscape (has_control statement) (Json.json_escape statement) (json_escape statement [])
json_escape-json_escape_example = json_escape-json_escape statement

-- A connection whose peer is gone.
abbrev deaf : Connection (Unit {0})
deaf = record {
  enter_session_gateway = λ c. (ok tt, c);
  send_frame = λ type id payload c. (ok tt, c);
  receive_frame = λ id c. (Outcome.throw transport_error "lost", c);
  close = λ c. (ok tt, c);
}

deaf-IsTransport : IsTransport deaf
deaf-IsTransport = record {
  sends = λ type id payload c. tt;
  receives = λ id c. refl;
  disconnects = λ c. tt;
}

abbrev arrow : Arrow (Unit {0}) (Unit {0})
arrow = record {
  read_schema = λ bytes. some tt;
  serialize_schema = λ schema. some (1 ∷ []);
  read_record_batch = λ schema bytes. none;
  num_fields = λ schema. 1;
  type_id = λ schema field. int64;
  scale = λ schema field. 0;
  row_count_metadata = λ schema. none;
}

abbrev fields : Fields (Unit {0}) (Unit {0})
fields = record {
  get_field_index = λ schema name. some 0;
  field = λ schema index. tt;
  schema = λ list schema. tt;
}

abbrev session : Impl (Unit {0})
session = record { connection = tt; capabilities = empty; next_request_id = 1; closed = false }

-- Space for a handle of an operation, and the last error of a thread that had none.
abbrev objects : Objects (Unit {0}) (Option (TableOperation (Unit {0})))
objects = record { session = some session; out = some none }

abbrev no_error : LastError
no_error = record { category = 12; message = text "" }

-- An insert into two columns, for whose opening the peer has no answer.
abbrev opening : Export (Unit {0})
opening =
    open_table_insert (some (codes "S")) (some (codes "T")) (some columns) 2 10 (some (1 ∷ [])) 1

call-IsReturned_example :
    IsReturned objects
      (body deaf arrow fields opening objects).0
      (call deaf arrow fields opening (objects, no_error))
call-IsReturned_example =
    call-IsReturned deaf deaf-IsTransport arrow fields opening objects no_error
      (omega arith, omega arith)
