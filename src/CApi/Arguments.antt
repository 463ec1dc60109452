-- ===== src/CApi/Arguments.antt =====
-- src/c_api.cpp: the arguments of the C interface as the values of the library, `options`,
-- `tableName`, `columnNames` and `locations`. A pointer is an option, a pointer to characters the
-- characters before the zero, and a pointer to an array what is readable there.
use exasol_gateway_sdk.Errors.{protocol_error}
use exasol_gateway_sdk.Base.{
  ℕ, zero, suc, List, [], ◌∷◌, Option, none, some, Bool, leb, not, ◌==◌, ◌||◌, if◌then◌else◌, false,
  true,
}
use exasol_gateway_sdk.Base.Outcome.{Result, ok, err, fault, ◌>>=◌, ◌>>◌, require, followed_by}
use exasol_gateway_sdk.Base.Outcome
use exasol_gateway_sdk.Base.Texts.{codes, same}
use exasol_gateway_sdk.CApi.{text_of}
use exasol_gateway_sdk.Session.{TableName, RowLocation}
use exasol_gateway_sdk.WebSocket.{
  WebSocketOptions, WebSocketTlsMode, tls_verify, tls_skip_verify_for_test_only,
  plain_for_test_only,
}

-- `sessiongw_c_options`; the flag, an `int`, is its pattern of bits.
pub record COptions : Type 0 where
  pub host : Option (List ℕ)
  pub port : ℕ
  pub user : Option (List ℕ)
  pub password : Option (List ℕ)
  pub tls_mode : Option (List ℕ)
  pub ca_file : Option (List ℕ)
  pub instrumentation_enabled : ℕ

-- The characters, or what stands for a null pointer.
abbrev pub or_text : Option (List ℕ) → List ℕ → List ℕ
or_text none absent = absent
or_text (some s) absent = s

unfoldable pub mode_of : List ℕ → Result WebSocketTlsMode
mode_of mode =
    if same mode (codes "verify")
    then ok tls_verify
    else if same mode (codes "skip_verify")
    then ok tls_skip_verify_for_test_only
    else if same mode (codes "plain")
    then ok plain_for_test_only
    else Outcome.throw protocol_error "invalid SessionGW TLS mode"

-- `options`; the name of the client keeps its default.
unfoldable pub options : Option COptions → Result WebSocketOptions
options none = Outcome.throw protocol_error "SessionGW options are required"
options (some input) = do
  host ← text_of input.host "SessionGW host is required"
  user ← text_of input.user "SessionGW user is required"
  mode ← mode_of (or_text input.tls_mode (codes "verify"))
  ok (record {
    host = host;
    port = input.port;
    user = user;
    password = or_text input.password [];
    client_name = codes "sessiongw_sdk";
    tls_mode = mode;
    ca_file = or_text input.ca_file [];
    instrumentation_enabled = not (input.instrumentation_enabled == 0);
  })

unfoldable pub table_name : Option (List ℕ) → Option (List ℕ) → Result TableName
table_name schema table = do
  schema ← text_of schema "SessionGW schema is required"
  table ← text_of table "SessionGW table is required"
  ok (record { schema = schema; table = table })

abbrev pub is_null {ℓ} : {A : Type ℓ} → Option A → Bool
is_null none = true
is_null (some a) = false

-- The loop of `columnNames`: so many pointers of those that are readable.
unfoldable pub names_at : List (Option (List ℕ)) → ℕ → Result (List (List ℕ))
names_at columns zero = ok []
names_at [] (suc count) = fault
names_at (column ∷ columns) (suc count) = do
  name ← text_of column "SessionGW column name is required"
  names ← names_at columns count
  ok (name ∷ names)

abbrev readable {ℓ} : {A : Type ℓ} → Option (List A) → List A
readable none = []
readable (some values) = values

unfoldable pub column_names : Option (List (Option (List ℕ))) → ℕ → Result (List (List ℕ))
column_names columns count = do
  require (leb count 0xffffffff) "too many SessionGW columns"
  require (count == 0 || not (is_null columns)) "SessionGW columns are required"
  names_at (readable columns) count

unfoldable pub locations_at : List ℕ → ℕ → Result (List RowLocation)
locations_at rows zero = ok []
locations_at [] (suc count) = fault
locations_at (row ∷ rows) (suc count) = do
  others ← locations_at rows count
  ok (record { row_number = row } ∷ others)

unfoldable pub locations : Option (List ℕ) → ℕ → Result (List RowLocation)
locations rows count = do
  require (leb count 0xffffffff) "too many SessionGW row locations"
  require (count == 0 || not (is_null rows)) "SessionGW row locations are required"
  locations_at (readable rows) count
