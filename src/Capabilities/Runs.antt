-- ===== src/Capabilities/Runs.antt =====
-- The capabilities of a client.
use exasol_gateway_sdk.Base.{true, false, ◌≡◌, refl}
use exasol_gateway_sdk.Base.{List, ◌∷◌, []}
use exasol_gateway_sdk.Capabilities.Order.{IsAscending, from_list_lem}
use exasol_gateway_sdk.Capabilities.{
  Capability, values, contains, insert, add, supports, add_all, from_list,
  default_client_capabilities, outcome_recovery_v1, native_table_read_batch_v1,
}

unsupported : supports default_client_capabilities outcome_recovery_v1 ≡ false
unfolding supports default_client_capabilities from_list add_all add insert contains
unsupported = refl

supported : supports default_client_capabilities native_table_read_batch_v1 ≡ true
unfolding supports default_client_capabilities from_list add_all add insert contains
supported = refl

abbrev added : List Capability
added = 9 ∷ 3 ∷ 9 ∷ []

from_list_lem_example :
    IsAscending (values (from_list added)) × (supports (from_list added) 3 ≡ contains 3 added)
from_list_lem_example = from_list_lem added 3
