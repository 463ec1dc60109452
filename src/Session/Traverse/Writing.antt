-- ===== src/Session/Traverse/Writing.antt =====
-- Table operations keep what requests keep, and tell their errors.
use exasol_gateway_sdk.Errors.{Error}
use exasol_gateway_sdk.Base.{ℕ, List, [], Option, Bool, true, false, ◌&&◌, not, leb, ◌==◌, length}
use exasol_gateway_sdk.Base.Judged.{IsJudged, and_then-IsJudged}
use exasol_gateway_sdk.Frame.Message.{MessageType}
use exasol_gateway_sdk.Session.{Arrow, TableName, RowLocation, TableOperation}
use exasol_gateway_sdk.Session.Codec.{append_u64, append_u32, nonempty}
use exasol_gateway_sdk.Session.Request.{Connection, Impl}
use exasol_gateway_sdk.Session.Writes
use exasol_gateway_sdk.Session.Payloads.{
  append_string32-IsJudged, append_locations-IsJudged, native_payload-IsJudged,
  opened_operation-IsJudged, affected_rows-IsJudged, column_operation_payload-IsJudged,
}
use exasol_gateway_sdk.Session.Traverse.{Contract, Ends, own-Ends, tested-Ends, asking-Ends}

module _ {C : Type 0} (P : Impl C → Type 0) (E : Bool → Error → Type 0) (F : Type 0)
    {Schema RecordBatch : Type 0} (net : Connection C) (arrow : Arrow Schema RecordBatch)
    (c : Contract P E F net) where
  pub open_column_operation-Ends :
      (type : MessageType) (table : TableName) (columns : List (List ℕ)) (rows : ℕ)
      (schema : Option Schema) (s : Impl C)
      → P s
      → Ends P E F false (Writes.open_column_operation net arrow type table columns rows schema s)
  unfolding Writes.open_column_operation
  open_column_operation-Ends type table columns rows schema s p =
      tested-Ends P E F c.own false (leb (length columns) 0xffff_ffff) _ s _ p (
        asking-Ends P E F net arrow c false _ s _ _ _
          (column_operation_payload-IsJudged net arrow table columns rows schema []) p
          λ frame t q.
            own-Ends P E F c.own false _ t (opened_operation-IsJudged net arrow frame.payload 0) q)

  delete_payload-IsJudged :
      (table : TableName) (rows : ℕ) → IsJudged (Writes.delete_payload net arrow table rows []).0
  unfolding append_u32
  delete_payload-IsJudged table rows =
      and_then-IsJudged _ _ (append_string32-IsJudged table.schema [])
        λ _ a _. and_then-IsJudged _ _ (append_string32-IsJudged table.table a) λ _ b _. tt

  pub open_table_delete-Ends :
      (table : TableName) (rows : ℕ) (s : Impl C)
      → P s
      → Ends P E F false (Writes.open_table_delete net arrow table rows s)
  unfolding Writes.open_table_delete
  open_table_delete-Ends table rows s p =
      asking-Ends P E F net arrow c false _ s _ _ _ (delete_payload-IsJudged table rows) p
        λ frame t q.
          own-Ends P E F c.own false _ t (opened_operation-IsJudged net arrow frame.payload 0) q

  pub insert_rows-Ends :
      (operation : TableOperation Schema) (batch : List ℕ) (s : Impl C)
      → P s
      → Ends P E F false (Writes.insert_rows net arrow operation batch s)
  unfolding Writes.insert_rows
  insert_rows-Ends operation batch s p =
      asking-Ends P E F net arrow c false _ s _ _ _ (native_payload-IsJudged operation.id batch [])
        p
        λ frame t q.
          own-Ends P E F c.own false _ t (affected_rows-IsJudged net arrow frame.payload 0) q

  update_payload-IsJudged :
      (id : ℕ) (locations : List RowLocation) (batch : List ℕ)
      → IsJudged (Writes.update_payload net arrow id locations batch []).0
  unfolding append_u64 append_u32
  update_payload-IsJudged id locations batch =
      and_then-IsJudged _ _ (append_locations-IsJudged locations _) λ _ a _. tt

  pub update_rows-Ends :
      (operation : TableOperation Schema) (locations : List RowLocation) (batch : List ℕ)
      (s : Impl C)
      → P s
      → Ends P E F false (Writes.update_rows net arrow operation locations batch s)
  unfolding Writes.update_rows
  update_rows-Ends operation locations batch s p =
      tested-Ends P E F c.own false (Writes.is_nonempty net arrow locations) _ s _ p (
        tested-Ends P E F c.own false (nonempty batch && leb (length batch) 0xffff_ffff) _ s _ p (
          asking-Ends P E F net arrow c false _ s _ _ _
            (update_payload-IsJudged operation.id locations batch) p
            λ frame t q.
              own-Ends P E F c.own false _ t (affected_rows-IsJudged net arrow frame.payload 0) q))

  rows_payload-IsJudged :
      (id : ℕ) (locations : List RowLocation)
      → IsJudged (Writes.rows_payload net arrow id locations []).0
  unfolding append_u64
  rows_payload-IsJudged id locations = append_locations-IsJudged locations _

  pub delete_rows-Ends :
      (operation : TableOperation Schema) (locations : List RowLocation) (s : Impl C)
      → P s
      → Ends P E F false (Writes.delete_rows net arrow operation locations s)
  unfolding Writes.delete_rows
  delete_rows-Ends operation locations s p =
      tested-Ends P E F c.own false (Writes.is_nonempty net arrow locations) _ s _ p (
        asking-Ends P E F net arrow c false _ s _ _ _ (rows_payload-IsJudged operation.id locations)
          p
          λ frame t q.
            own-Ends P E F c.own false _ t (affected_rows-IsJudged net arrow frame.payload 0) q)

  pub close_operation-Ends :
      (operation : TableOperation Schema) (s : Impl C)
      → P s
      → Ends P E F true (Writes.close_operation net arrow operation s)
  unfolding Writes.close_operation append_u64
  close_operation-Ends operation s p =
      tested-Ends P E F c.own true (not (operation.id == 0)) _ s _ p (
        asking-Ends P E F net arrow c true (append_u64 operation.id []) s _ _ _ tt p
          λ frame t q. (q, tt))
