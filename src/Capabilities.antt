-- ===== src/Capabilities.antt =====
-- include/sessiongw/capabilities.hpp, src/capabilities.cpp and src/client.cpp: what a server or a
-- client can do. A value of the enumeration can be any number of 16 bits, since the values that a
-- server sends are cast. The ordered set is the ascending list of its elements.
pub mod Order
mod Runs
use Prim.Native.String.{String}
use exasol_gateway_sdk.Base.{ℕ, List, [], ◌∷◌, Bool, true, false, ◌||◌, ltb, ◌==◌, if◌then◌else◌}

abbrev pub Capability : Type 0
Capability = ℕ

abbrev pub session_gw_v1 : Capability
session_gw_v1 = 1

abbrev pub arrow_ipc_batch_v1 : Capability
arrow_ipc_batch_v1 = 2

abbrev pub pushed_query_v1 : Capability
pushed_query_v1 = 3

abbrev pub metadata_v1 : Capability
metadata_v1 = 4

abbrev pub table_scan_v1 : Capability
table_scan_v1 = 5

abbrev pub table_write_v1 : Capability
table_write_v1 = 6

abbrev pub transaction_control_v1 : Capability
transaction_control_v1 = 7

abbrev pub native_table_write_batch_v1 : Capability
native_table_write_batch_v1 = 8

abbrev pub table_update_v1 : Capability
table_update_v1 = 9

abbrev pub table_delete_v1 : Capability
table_delete_v1 = 10

abbrev pub outcome_recovery_v1 : Capability
outcome_recovery_v1 = 11

abbrev pub native_table_write_batch_v2 : Capability
native_table_write_batch_v2 = 12

abbrev pub native_table_read_batch_v1 : Capability
native_table_read_batch_v1 = 13

unfoldable pub to_string : Capability → String
to_string capability =
    if capability == session_gw_v1
    then "SESSION_GW_V1"
    else if capability == arrow_ipc_batch_v1
    then "ARROW_IPC_BATCH_V1"
    else if capability == pushed_query_v1
    then "PUSHED_QUERY_V1"
    else if capability == metadata_v1
    then "METADATA_V1"
    else if capability == table_scan_v1
    then "TABLE_SCAN_V1"
    else if capability == table_write_v1
    then "TABLE_WRITE_V1"
    else if capability == transaction_control_v1
    then "TRANSACTION_CONTROL_V1"
    else if capability == native_table_write_batch_v1
    then "NATIVE_TABLE_WRITE_BATCH_V1"
    else if capability == table_update_v1
    then "TABLE_UPDATE_V1"
    else if capability == table_delete_v1
    then "TABLE_DELETE_V1"
    else if capability == outcome_recovery_v1
    then "OUTCOME_RECOVERY_V1"
    else if capability == native_table_write_batch_v2
    then "NATIVE_TABLE_WRITE_BATCH_V2"
    else if capability == native_table_read_batch_v1
    then "NATIVE_TABLE_READ_BATCH_V1"
    else "UNKNOWN"

pub record Capabilities : Type 0 where
  pub capabilities : List Capability

-- `std::set::insert`.
unfoldable pub insert : Capability → List Capability → List Capability
insert c [] = c ∷ []
insert c (d ∷ ds) =
    let rest = insert c ds in if ltb c d then c ∷ d ∷ ds else if c == d then d ∷ ds else d ∷ rest

-- `std::set::contains`.
unfoldable pub contains : Capability → List Capability → Bool
contains c [] = false
contains c (d ∷ ds) = (c == d) || contains c ds

unfoldable pub add : Capability → Capabilities → Capabilities
add capability self = record { capabilities = insert capability (self.capabilities) }

unfoldable pub supports : Capabilities → Capability → Bool
supports self capability = contains capability self.capabilities

unfoldable pub values : Capabilities → List Capability
values self = self.capabilities

abbrev pub empty : Capabilities
empty = record { capabilities = [] }

-- The loop of the constructor.
unfoldable pub add_all : List Capability → Capabilities → Capabilities
add_all [] self = self
add_all (c ∷ cs) self = add_all cs (add c self)

unfoldable pub from_list : List Capability → Capabilities
from_list capabilities = add_all capabilities empty

unfoldable pub default_client_capabilities : Capabilities
default_client_capabilities = from_list (
    session_gw_v1 ∷ arrow_ipc_batch_v1 ∷ pushed_query_v1 ∷ metadata_v1 ∷ table_scan_v1
    ∷ table_write_v1 ∷ native_table_write_batch_v2 ∷ native_table_read_batch_v1 ∷ table_update_v1
    ∷ table_delete_v1 ∷ transaction_control_v1 ∷ [])

-- `Client::clientCapabilities`.
unfoldable pub client_capabilities : Capabilities
client_capabilities = default_client_capabilities
